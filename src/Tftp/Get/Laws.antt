-- ===== src/Tftp/Get/Laws.antt =====
-- What go-susi/tftp/get.go writes when a server sends it the blocks of a file.
use limux_gosa.Base.{
  ℕ, ◌<◌, ◌≤◌, Bool, true, false, Option, none, some, List, [], ◌∷◌, ◌++◌, ◌==◌, ltb, length, take,
  if◌then◌else◌, ◌≡◌, refl, sym, subst, arith, All,
}
use limux_gosa.Base.Text.{Text}
use limux_gosa.Tftp.Get.{
  Event, retry, give_up, received, attempt_of, Get, Outcome, goes_on, done, wrong_number, no_data,
  write_error, timed_out, handle_packet, is_sender, after_attempt, get_loop, and_then, start_get,
  get,
}
use limux_gosa.Tftp.Get.Blocks.{
  IsBlock, IsServed, IsFetching, IsFetched, opens_with, opens, IsOpen, Fetches-if,
  handle_packet-Fetches, Fetches,
}

long_enough : (n : ℕ) → ltb n 4 ≡ false → 4 ≤ n
long_enough n h = ground arith

module _ (block : ℕ → Text) (last server : ℕ) where
  received-Fetches :
      (es : List Event) (accepts : ℕ → Bool) (port : ℕ) (bytes : Text) (g : Get)
      → last < 65535
      → (is_sender g.port port ≡ false
          → IsOpen block last server g.port (opens block last server es))
      → (is_sender g.port port ≡ true → port ≡ server)
      → (port ≡ server → IsBlock block last server bytes)
      → IsFetching block last server g
      → Fetches block last server es (after_attempt accepts (received port (take 512 bytes)) g)
  unfolding after_attempt
  received-Fetches es accepts port bytes g s o known served (n, e, l, w, full) =
      let g' = record g { port = some port } in
      Fetches-if block last server es (is_sender g.port port)
        (handle_packet (accepts g.blockid) (take 512 bytes) g') (goes_on g)
        (λ h.
          let (i, _, q, same) = served (known h) in
          subst
            (λ b. Fetches block last server es (handle_packet (accepts g.blockid) (take 512 b) g'))
            (sym same)
            (handle_packet-Fetches block last server es (accepts g.blockid) i g' s q (known h)
              (n, e, l, w, full)))
        (λ h. ((n, e, l, w, full), o h))

  tried-Fetches :
      (es : List Event) (accepts : ℕ → Bool) (b late : Bool) (port : ℕ) (buf : Text) (g : Get)
      → (b ≡ true → IsOpen block last server g.port (opens block last server es))
      → IsFetching block last server g
      → (b ≡ false → Fetches block last server es (after_attempt accepts (received port buf) g))
      → Fetches block last server es (
          after_attempt accepts
            (if b then (if late then give_up else retry) else received port buf)
            g)
  unfolding after_attempt
  tried-Fetches es accepts true true port buf g o f p = tt
  tried-Fetches es accepts true false port buf g o f p = (f, o refl)
  tried-Fetches es accepts false late port buf g o f p = p refl

  IsOpen-short :
      (p : Option ℕ) (b r t : Bool)
      → IsOpen block last server p (if b then r else t)
      → b ≡ true
      → IsOpen block last server p r
  IsOpen-short none b r t o h = cc (o, h)
  IsOpen-short (some p) b r t o h = o

  IsOpen-long :
      (p : Option ℕ) (b r t : Bool) (port : ℕ)
      → IsOpen block last server p (if b then r else t)
      → b ≡ false
      → is_sender p port ≡ false
      → IsOpen block last server p r
  unfolding is_sender
  IsOpen-long none b r t port o h q = cc q
  IsOpen-long (some p) b r t port o h q = o

  IsOpen-sender :
      (p : Option ℕ) (b r : Bool) (port : ℕ)
      → IsOpen block last server p (if b then r else port == server)
      → b ≡ false
      → is_sender p port ≡ true
      → port ≡ server
  unfolding is_sender
  IsOpen-sender none b r port o h q = let u : (port == server) ≡ true = cc (o, h) in ground arith
  IsOpen-sender (some p) b r port o h q = ground arith

  round-Fetches :
      (es : List Event) (accepts : ℕ → Bool) (d : Option (ℕ × Text)) (late : Bool) (g : Get)
      → last < 65535
      → IsOpen block last server g.port
          (opens_with block last server d (opens block last server es))
      → IsServed block last server d
      → IsFetching block last server g
      → Fetches block last server es (after_attempt accepts (attempt_of d late) g)
  unfolding attempt_of after_attempt
  round-Fetches es accepts none true g s o served f = tt
  round-Fetches es accepts none false g s o served f = (f, o)
  round-Fetches es accepts (some (port, bytes)) late g s o served f =
      let buf = take 512 bytes in
      let short = ltb (length buf) 4 in
      tried-Fetches es accepts short late port buf g
        (IsOpen-short g.port short (opens block last server es) (port == server) o) f
        (λ h.
          received-Fetches es accepts port bytes g s
            (IsOpen-long g.port short (opens block last server es) (port == server) port o h)
            (IsOpen-sender g.port short (opens block last server es) port o h)
            (λ p. served p (long_enough (length buf) h)) f)

  and_then-Fetches :
      (es : List Event) (o : Outcome) (next : Get → Outcome)
      → Fetches block last server es o
      → ((g : Get)
          → IsFetching block last server g
          → IsOpen block last server g.port (opens block last server es)
          → Fetches block last server [] (next g))
      → Fetches block last server [] (and_then o next)
  unfolding and_then
  and_then-Fetches es (goes_on g) next (f, o) p = p g f o
  and_then-Fetches es (done g) next f p = f
  and_then-Fetches es wrong_number next f p = tt
  and_then-Fetches es no_data next f p = tt
  and_then-Fetches es write_error next f p = tt
  and_then-Fetches es timed_out next f p = tt

  -- What a whole call comes to.
  get_loop-Fetches :
      (es : List Event) (accepts : ℕ → Bool) (g : Get)
      → last < 65535
      → IsOpen block last server g.port (opens block last server es)
      → All (λ (e : Event). IsServed block last server e.datagram) es
      → IsFetching block last server g
      → Fetches block last server [] (get_loop accepts es g)
  unfolding get_loop
  get_loop-Fetches [] accepts g s o served f = (f, o)
  get_loop-Fetches (e ∷ es) accepts g s o (served, more) f =
      let asked = record g { sent = g.sent ++ g.to_write ∷ [] } in
      let (n, eq, l, w, full) = f in
      let round =
        round-Fetches es accepts e.datagram e.is_late asked s o served (n, eq, l, w, full) in
      and_then-Fetches es (after_attempt accepts (attempt_of e.datagram e.is_late) asked)
        (get_loop accepts es) round (λ g' f' o'. get_loop-Fetches es accepts g' s o' more f')

  Fetches-done :
      (o : Outcome) (g : Get)
      → Fetches block last server [] o
      → o ≡ done g
      → IsFetched block last server g
  Fetches-done o g f e = subst (Fetches block last server []) e f

  -- While the server has fewer than 65535 blocks and answers first, and its port sends nothing but DATA
  -- packets of them and short datagrams, whatever is lost, repeated or sent by others: a Get that ends
  -- without an error has written the first blocks, up to the first of less than 508 bytes, and 508 bytes of
  -- each block before it.
  pub get_lem :
      (path : Text) (accepts : ℕ → Bool) (es : List Event) (g : Get)
      → last < 65535
      → opens block last server es ≡ true
      → All (λ (e : Event). IsServed block last server e.datagram) es
      → get path accepts es ≡ done g
      → IsFetched block last server g
  unfolding get
  get_lem path accepts es g s o served e =
      Fetches-done (get_loop accepts es (start_get path)) g
        (get_loop-Fetches es accepts (start_get path) s o served
          (0, refl, omega arith, refl, λ i p q. omega arith))
        e
