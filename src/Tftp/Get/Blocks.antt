-- ===== src/Tftp/Get/Blocks.antt =====
-- The packets of a file with go-susi/tftp/get.go: what the client has after each.
use limux_gosa.Base.{
  ℕ, zero, suc, ◌+◌, ◌-◌, ◌/◌, ◌%◌, min, ◌<◌, ◌≤◌, Bool, true, false, Option, none, some, List, [],
  ◌∷◌, ◌++◌, ◌==◌, ltb, length, take, drop, length-take, leb, if◌then◌else◌, ◌≡◌, refl, sym, subst,
  arith, inl, inr, Bool-cases,
}
use limux_gosa.Base.Text.{Text}
use limux_gosa.Tftp.Transfer.{data_packet}
use limux_gosa.Tftp.Get.{
  Event, Get, Outcome, goes_on, done, wrong_number, no_data, write_error, timed_out, has_number,
  next_block, handle_packet,
}

-- What the client writes of the first n blocks: of each, what its buffer of 512 bytes holds of the packet.
abbrev pub written_of : (ℕ → Text) → ℕ → Text
written_of block zero = []
written_of block (suc n) = written_of block n ++ take 508 (block (suc n))

short_packet : (m k : ℕ) → m ≡ min 508 k → ltb (suc (suc (suc (suc m)))) 512 ≡ true → k < 508
short_packet m k e h = let p : suc (suc (suc (suc m))) < 512 = ground arith in omega arith

full_packet : (m k : ℕ) → m ≡ min 508 k → ltb (suc (suc (suc (suc m)))) 512 ≡ false → 508 ≤ k
full_packet m k e h = let p : 512 ≤ suc (suc (suc (suc m))) = ground arith in omega arith

module _ (block : ℕ → Text) (last server : ℕ) where
  -- A DATA packet with one of the blocks.
  abbrev pub IsBlock : Text → Type 0
  IsBlock bytes = (n : ℕ) × (1 ≤ n) × (n ≤ last) × (bytes ≡ data_packet n (block n))

  -- A datagram of four bytes or more from the server's port is a DATA packet of the file.
  abbrev pub IsServed : Option (ℕ × Text) → Type 0
  IsServed none = Unit
  IsServed (some (port, bytes)) = port ≡ server → 4 ≤ length (take 512 bytes) → IsBlock bytes

  -- The call has the first blocks of the file, all of which fill the buffer, and waits for the next one.
  abbrev pub IsFetching : Get → Type 0
  IsFetching g =
      (n : ℕ) × (g.blockid ≡ suc n)
      × (n ≤ last)
      × (g.written ≡ written_of block n)
      × ((i : ℕ) → 1 ≤ i → i ≤ n → 508 ≤ length (block i))

  -- The call has the blocks up to the first one that does not fill the buffer.
  abbrev pub IsFetched : Get → Type 0
  IsFetched g =
      (n : ℕ) × (n < last)
      × (g.written ≡ written_of block (suc n))
      × (length (block (suc n)) < 508)
      × ((i : ℕ) → 1 ≤ i → i ≤ n → 508 ≤ length (block i))

  -- Whether the first datagram of four bytes or more comes from the server.
  abbrev pub opens_with : Option (ℕ × Text) → Bool → Bool
  opens_with none later = later
  opens_with (some (port, bytes)) later =
      if ltb (length (take 512 bytes)) 4 then later else port == server

  abbrev pub opens : List Event → Bool
  opens [] = true
  opens (e ∷ es) = opens_with e.datagram (opens es)

  -- The port that is known is the server's; where none is, the server answers first.
  abbrev pub IsOpen : Option ℕ → Bool → Type 0
  IsOpen none b = b ≡ true
  IsOpen (some port) b = port ≡ server

  abbrev pub Fetches : List Event → Outcome → Type 0
  Fetches es (goes_on g) = IsFetching g × IsOpen g.port (opens es)
  Fetches es (done g) = IsFetched g
  Fetches es wrong_number = Unit
  Fetches es no_data = Unit
  Fetches es write_error = Unit
  Fetches es timed_out = Unit

  pub Fetches-if :
      (es : List Event) (b : Bool) (x y : Outcome)
      → (b ≡ true → Fetches es x)
      → (b ≡ false → Fetches es y)
      → Fetches es (if b then x else y)
  Fetches-if es true x y p q = p refl
  Fetches-if es false x y p q = q refl

  same_number :
      (n i : ℕ)
      → i ≤ last
      → n ≤ last + 1
      → last < 65535
      → has_number (take 512 (data_packet i (block i))) n ≡ true
      → i ≡ n
  unfolding has_number data_packet
  same_number n i q r s e =
      let (a, b) : (i / 256 % 256 ≡ n / 256 % 256) × (i % 256 ≡ n % 256) = ground arith in
      omega arith

  one_more :
      (n : ℕ)
      → ((i : ℕ) → 1 ≤ i → i ≤ n → 508 ≤ length (block i))
      → 508 ≤ length (block (suc n))
      → (i : ℕ) → 1 ≤ i
      → i ≤ suc n
      → 508 ≤ length (block i)
  one_more n full h i p q = elim (Bool-cases (leb i n)) [
    | inl e ↦ full i p (ground arith)
    | inr e ↦ let same : suc n ≡ i = ground arith in subst (λ k. 508 ≤ length (block k)) same h
  ]

  next_block-Fetches :
      (es : List Event) (accepts : Bool) (g : Get) (n : ℕ)
      → IsOpen g.port (opens es)
      → g.blockid ≡ suc n
      → n < last
      → g.written ≡ written_of block n
      → ((i : ℕ) → 1 ≤ i → i ≤ n → 508 ≤ length (block i))
      → Fetches es (next_block accepts (take 512 (data_packet (suc n) (block (suc n)))) g)
  unfolding next_block data_packet
  next_block-Fetches es false g n o e l w full = tt
  next_block-Fetches es true g n o e l w full =
      let buf = take 512 (data_packet (suc n) (block (suc n))) in
      let written : g.written ++ drop 4 buf ≡ written_of block (suc n) = rw w refl in
      let ack = 0 ∷ 4 ∷ (g.blockid / 256) % 256 ∷ g.blockid % 256 ∷ [] in
      Fetches-if es (ltb (length buf) 512)
        (done
          (record g { ack = ack; written = g.written ++ drop 4 buf; sent = g.sent ++ ack ∷ [] }))
        (goes_on (record g {
          ack = ack;
          to_write = ack;
          written = g.written ++ drop 4 buf;
          blockid = g.blockid + 1;
        }))
        (λ q. (
          n,
          l,
          written,
          short_packet (length (take 508 (block (suc n)))) (length (block (suc n)))
              (length-take 508 (block (suc n))) q,
          full,
        ))
        (λ q. (
          (
            suc n,
            omega arith,
            l,
            written,
            one_more n full (
                full_packet (length (take 508 (block (suc n)))) (length (block (suc n)))
                  (length-take 508 (block (suc n))) q),
          ),
          o,
        ))

  same_block :
      (i : ℕ) (g : Get) (n : ℕ)
      → g.blockid ≡ suc n
      → i ≤ last
      → n ≤ last
      → last < 65535
      → has_number (take 512 (data_packet i (block i))) g.blockid ≡ true
      → i ≡ suc n
  same_block i g n e q l s h =
      same_number (suc n) i q (omega arith) s
        (subst (λ k. has_number (take 512 (data_packet i (block i))) k ≡ true) e h)

  -- One packet of the file.
  pub handle_packet-Fetches :
      (es : List Event) (accepts : Bool) (i : ℕ) (g : Get)
      → last < 65535
      → i ≤ last
      → IsOpen g.port (opens es)
      → IsFetching g
      → Fetches es (handle_packet accepts (take 512 (data_packet i (block i))) g)
  unfolding handle_packet data_packet
  handle_packet-Fetches es accepts i g s q o (n, e, l, w, full) =
      let buf = take 512 (data_packet i (block i)) in
      Fetches-if es (has_number buf g.blockid) (next_block accepts buf g)
        (if has_number buf (g.blockid - 1)
          then goes_on (record g { to_write = g.ack })
          else wrong_number)
        (λ h.
          let same : i ≡ suc n = same_block i g n e q l s h in
          subst (λ k. Fetches es (next_block accepts (take 512 (data_packet k (block k))) g))
            (sym same) (next_block-Fetches es accepts g n o e (omega arith) w full))
        (λ h.
          Fetches-if es (has_number buf (g.blockid - 1)) (goes_on (record g { to_write = g.ack }))
            wrong_number (λ _. ((n, e, l, w, full), o)) (λ _. tt))
