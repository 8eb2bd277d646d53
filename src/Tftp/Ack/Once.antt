-- ===== src/Tftp/Ack/Once.antt =====
-- Packets that are late or stray, and when a packet is sent again (go-susi/tftp/server.go).
use limux_gosa.Base.{
  ℕ, suc, ◌+◌, ◌<◌, true, false, List, [], ◌∷◌, ◌++◌, ◌==◌, length, drop, All, if◌then◌else◌, ◌≡◌,
  ◌≢◌, ◌⊎◌, inl, inr, refl, ap, arith, ==_iff,
}
use limux_gosa.Base.Text.{Text}
use limux_gosa.Tftp.Ack.Laws.{IsAnswer, take_all, byte_at-append}
use limux_gosa.Tftp.Ack.{
  Read, packet, failed, expired, Round, Sent, to_peer, error_packet, Counters, byte_at, fill, acked,
  received, is_ack, same_block, listen, send_rounds, send_and_wait,
}

-- An ACK of the peer for another block than the one sent, such as one that was delayed.
abbrev IsDuplicate : Text → ℕ → Read → Type 0
IsDuplicate sent peer (packet from bytes) =
    (from ≡ peer)
    × (length bytes ≡ 4)
    × (byte_at bytes 0 ≡ 0)
    × (byte_at bytes 1 ≡ 4)
    × (byte_at sent 1 ≡ 3)
    × ((byte_at bytes 2 ≢ byte_at sent 2) ⊎ (byte_at bytes 3 ≢ byte_at sent 3))
IsDuplicate sent peer failed = ⊥
IsDuplicate sent peer expired = ⊥

abbrev IsStray : ℕ → Read → Type 0
IsStray peer (packet from bytes) = from ≢ peer
IsStray peer failed = ⊥
IsStray peer expired = ⊥

-- Packets that are no reason to stop, and none to send again.
abbrev pub IsNoise : Text → ℕ → Read → Type 0
IsNoise sent peer r = IsDuplicate sent peer r ⊎ IsStray peer r

-- The ERROR packets for the packets from other ports.
abbrev pub complaints : ℕ → List Read → List Sent
complaints peer [] = []
complaints peer (packet from _ ∷ rs) =
    let rest = complaints peer rs in if from == peer then rest else error_packet 5 ∷ rest
complaints peer (failed ∷ rs) = complaints peer rs
complaints peer (expired ∷ rs) = complaints peer rs

received_whole : (bytes : Text) → length bytes ≡ 4 → received bytes ≡ bytes
unfolding received
received_whole bytes h = take_all 4096 bytes (omega (arith, h))

module _ (sent : Text) (peer : ℕ) where
  -- The tests on the buffer, after a packet of four bytes.
  module _ (bytes buf : Text) (n : length bytes ≡ 4) where
    in_buffer : (i : ℕ) → i < 4 → byte_at (fill (received bytes) buf) i ≡ byte_at bytes i
    in_buffer i h =
        rw (received_whole bytes n) (byte_at-append i bytes (drop (length bytes) buf) (omega arith))

    answer_test :
        (byte_at bytes 0 ≡ 0)
        → (byte_at bytes 1 ≡ 4)
        → ((byte_at sent 1 ≢ 3)
            ⊎ ((byte_at bytes 2 ≡ byte_at sent 2) × (byte_at bytes 3 ≡ byte_at sent 3)))
        → is_ack sent (length (received bytes)) (fill (received bytes) buf) ≡ true
    unfolding is_ack
    answer_test z o b =
        rw
          (
            in_buffer 0 (omega arith),
            in_buffer 1 (omega arith),
            in_buffer 2 (omega arith),
            in_buffer 3 (omega arith),
            received_whole bytes n,
            n,
            z,
            o,
          )
          (ground arith)

    duplicate_test :
        (byte_at sent 1 ≡ 3)
        → ((byte_at bytes 2 ≢ byte_at sent 2) ⊎ (byte_at bytes 3 ≢ byte_at sent 3))
        → (is_ack sent (length (received bytes)) (fill (received bytes) buf) ≡ false)
          × (same_block sent (fill (received bytes) buf) ≡ false)
    unfolding is_ack
    duplicate_test d b =
        rw
          (
            in_buffer 0 (omega arith),
            in_buffer 1 (omega arith),
            in_buffer 2 (omega arith),
            in_buffer 3 (omega arith),
            received_whole bytes n,
            n,
          )
          (ground arith)

  listen-noise :
      (rs : List Read) (a : Read) (more : List Read) (buf : Text) (k : Counters)
      → All (IsNoise sent peer) rs
      → IsAnswer sent peer a
      → ((listen sent peer (rs ++ a ∷ more) buf k).reply ≡ acked)
        × ((listen sent peer (rs ++ a ∷ more) buf k).counters.retransmissions ≡ k.retransmissions)
        × ((listen sent peer (rs ++ a ∷ more) buf k).errors ≡ complaints peer rs)
  unfolding listen
  listen-noise [] (packet from bytes) more buf k h (p, n, z, o, b) =
      rw ((==_iff from peer).1 p, answer_test bytes buf n z o b) (refl, refl, refl)
  listen-noise [] failed more buf k h a = absurd a
  listen-noise [] expired more buf k h a = absurd a
  listen-noise (packet from bytes ∷ rs) a more buf k (inl (p, n, z, o, d, b), h) ans =
      let (x, y) = duplicate_test bytes buf n d b in
      let buf' = fill (received bytes) buf in
      let e0 = in_buffer bytes buf n 0 (omega arith) in
      let e1 = in_buffer bytes buf n 1 (omega arith) in
      rw ((==_iff from peer).1 p, x, e0, e1, z, o, d, y)
        (listen-noise rs a more buf' (record k { dups = k.dups + 1 }) h ans)
  listen-noise (packet from bytes ∷ rs) a more buf k (inr ne, h) ans =
      let off : (from == peer) ≡ false = ground arith in
      let (x, y, z) =
        listen-noise rs a more (fill (received bytes) buf) (record k { strays = k.strays + 1 }) h
          ans in
      rw off (x, y, ap (λ es. error_packet 5 ∷ es) z)
  listen-noise (failed ∷ rs) a more buf k (inl x, h) ans = absurd x
  listen-noise (failed ∷ rs) a more buf k (inr x, h) ans = absurd x
  listen-noise (expired ∷ rs) a more buf k (inl x, h) ans = absurd x
  listen-noise (expired ∷ rs) a more buf k (inr x, h) ans = absurd x

-- How often the packet itself is on the wire.
abbrev pub copies : List Sent → ℕ
copies [] = 0
copies (to_peer _ ∷ w) = suc (copies w)
copies (error_packet _ ∷ w) = copies w

abbrev IsError : Sent → Type 0
IsError (to_peer _) = ⊥
IsError (error_packet _) = Unit

copies-errors : (w : List Sent) → All IsError w → copies w ≡ 0
copies-errors [] h = refl
copies-errors (to_peer _ ∷ w) h = absurd h.0
copies-errors (error_packet _ ∷ w) h = copies-errors w h.1

listen-errors :
    (sent : Text) (peer : ℕ) (rs : List Read) (buf : Text) (k : Counters)
    → All IsError (listen sent peer rs buf k).errors
unfolding listen
listen-errors sent peer [] buf k = tt
listen-errors sent peer (expired ∷ rs) buf k = tt
listen-errors sent peer (failed ∷ rs) buf k = tt
listen-errors sent peer (packet from bytes ∷ rs) buf k =
    let read = received bytes in
    let buf' = fill read buf in
    ground (
      arith,
      listen-errors sent peer rs buf' (record k { strays = k.strays + 1 }),
      listen-errors sent peer rs buf' (record k { dups = k.dups + 1 }),
    )

-- If the packets that come in before the ACK are duplicates of earlier ACKs or come from other ports, then
-- the packet is acknowledged and was sent just once: neither kind causes a retransmission. Each packet from
-- another port makes the server send an ERROR with code 5 to the peer, and nothing else is sent.
pub send_and_wait_once :
    (sent : Text) (peer : ℕ) (noise : List Read) (a : Read) (more : List Read) (rest : List Round)
    (k : Counters)
    → All (IsNoise sent peer) noise
    → IsAnswer sent peer a
    → let r =
        send_and_wait sent peer (record { write_ok = true; reads = noise ++ a ∷ more } ∷ rest) k in
      (r.reply ≡ acked)
      × (copies r.wire ≡ 1)
      × (r.counters.retransmissions ≡ k.retransmissions)
      × (r.wire ≡ to_peer sent ∷ complaints peer noise)
unfolding send_and_wait send_rounds
send_and_wait_once sent peer noise a more rest k h ans =
    let (x, y, z) = listen-noise sent peer noise a more [] k h ans in
    rw x (
      refl,
      ap suc (
          copies-errors (listen sent peer (noise ++ a ∷ more) [] k).errors
            (listen-errors sent peer (noise ++ a ∷ more) [] k)),
      y,
      ap (λ es. to_peer sent ∷ es) z,
    )
