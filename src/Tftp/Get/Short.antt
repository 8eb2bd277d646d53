-- ===== src/Tftp/Get/Short.antt =====
-- A short file with go-susi/tftp/get.go: the rounds before the answer, and the answer.
use limux_gosa.Base.{
  ℕ, zero, suc, ◌<◌, Bool, true, false, none, some, List, [], ◌∷◌, ◌++◌, ltb, length, take,
  replicate, append-nil, ◌≡◌, refl, ap, ◌∙◌, arith, append_assoc,
}
use limux_gosa.Base.Text.{Text}
use limux_gosa.Tftp.Transfer.{data_packet}
use limux_gosa.Tftp.Get.{
  Event, Get, done, get, get_loop, attempt_of, after_attempt, and_then, handle_packet, has_number,
  next_block, is_sender, get_request, start_get,
}

-- A round in which nothing comes in.
abbrev pub lost : Event
lost = record { datagram = none; is_late = false }

abbrev pub answer : ℕ → Text → Event
answer port bytes = record { datagram = some (port, bytes); is_late = false }

-- The call when it has written the file: the request went out at each round, the ACK at the end.
abbrev pub delivered : Text → ℕ → ℕ → Text → Get
delivered path tries port file = record {
  port = some port;
  blockid = 1;
  ack = 0 ∷ 4 ∷ 0 ∷ 1 ∷ [];
  to_write = get_request path;
  written = file;
  sent = replicate tries (get_request path) ++ get_request path ∷ (0 ∷ 4 ∷ 0 ∷ 1 ∷ []) ∷ [];
}

get_loop-lost :
    (tries : ℕ) (accepts : ℕ → Bool) (es : List Event) (g : Get)
    → get_loop accepts (replicate tries lost ++ es) g
      ≡ get_loop accepts es (record g { sent = g.sent ++ replicate tries g.to_write })
unfolding get_loop after_attempt attempt_of and_then
get_loop-lost zero accepts es g = rw (append-nil g.sent)
get_loop-lost (suc tries) accepts es g =
    get_loop-lost tries accepts es (record g { sent = g.sent ++ g.to_write ∷ [] })
    ∙ ap (λ l. get_loop accepts es (record g { sent = l }))
        (append_assoc g.sent (g.to_write ∷ []) (replicate tries g.to_write))

take_all : (n : ℕ) (file : Text) → length file < n → take n file ≡ file
take_all zero file h = grind arith
take_all (suc n) [] h = refl
take_all (suc n) (c ∷ file) h = ap (◌∷◌ c) (take_all n file (omega arith))

-- A file of less than 508 bytes, once its packet comes in, before the time is over, is written as it is,
-- and acknowledged, however many rounds before it have failed, where the writer takes it.
pub get_delivers :
    (path file : Text) (tries port : ℕ) (accepts : ℕ → Bool) (later : List Event)
    → length file < 508
    → accepts 1 ≡ true
    → get path accepts (replicate tries lost ++ answer port (data_packet 1 file) ∷ later)
      ≡ done (delivered path tries port file)
unfolding get get_loop after_attempt attempt_of and_then handle_packet has_number next_block
    is_sender data_packet
get_delivers path file tries port accepts later h w =
    let request = get_request path in
    let long : ltb (suc (suc (suc (suc (length file))))) 4 ≡ false = ground arith in
    let short : ltb (suc (suc (suc (suc (length file))))) 512 ≡ true = ground arith in
    get_loop-lost tries accepts (answer port (data_packet 1 file) ∷ later) (start_get path)
    ∙ rw (take_all 508 file h, long, w, short)
        (ap (λ l. done (record (delivered path tries port file) { sent = l }))
          (append_assoc (replicate tries request) (request ∷ []) ((0 ∷ 4 ∷ 0 ∷ 1 ∷ []) ∷ [])))
