-- ===== src/Tftp/Ack/Laws.antt =====
-- What an acknowledgement takes, and when a packet is sent again (go-susi/tftp/server.go).
use limux_gosa.Base.{
  ℕ, zero, suc, ◌+◌, ◌<◌, Bool, true, false, not, ◌&&◌, ◌||◌, List, [], ◌∷◌, ◌++◌, ◌==◌, ltb,
  length, take, drop, if◌then◌else◌, ◌≡◌, ◌≢◌, ◌⊎◌, inl, inr, refl, ap, sym, ◌∙◌, arith, Bool-cases,
  ==_iff,
}
use limux_gosa.Base.Text.{Text}
use limux_gosa.Tftp.Ack.{
  Read, packet, failed, expired, Round, Counters, byte_at, fill, Reply, acked, gave_up, panicked,
  resend, Heard, received, is_ack, listen, Result, conclude, send_rounds, send_and_wait,
}

-- The packet is an ACK of the peer: opcode 4, and for DATA the block number that was sent.
abbrev pub IsAnswer : Text → ℕ → Read → Type 0
IsAnswer sent peer (packet from bytes) =
    (from ≡ peer)
    × (length bytes ≡ 4)
    × (byte_at bytes 0 ≡ 0)
    × (byte_at bytes 1 ≡ 4)
    × ((byte_at sent 1 ≢ 3)
        ⊎ ((byte_at bytes 2 ≡ byte_at sent 2) × (byte_at bytes 3 ≡ byte_at sent 3)))
IsAnswer sent peer failed = ⊥
IsAnswer sent peer expired = ⊥

-- One of the reads is such a packet.
pub data Hears (sent : Text) (peer : ℕ) : List Read → Type 0 where
  now : {r : Read} {rs : List Read} → IsAnswer sent peer r → Hears sent peer (r ∷ rs)
  later : {r : Read} {rs : List Read} → Hears sent peer rs → Hears sent peer (r ∷ rs)

pub data HearsIn (sent : Text) (peer : ℕ) : List Round → Type 0 where
  now : {r : Round} {rs : List Round} → Hears sent peer r.reads → HearsIn sent peer (r ∷ rs)
  later : {r : Round} {rs : List Round} → HearsIn sent peer rs → HearsIn sent peer (r ∷ rs)

take_short : (n : ℕ) (bs : Text) → length (take n bs) < n → take n bs ≡ bs
take_short zero bs h = elim h [ ]
take_short (suc n) [] h = refl
take_short (suc n) (b ∷ bs) h = ap (◌∷◌ b) (take_short n bs (omega arith))

pub take_all : (n : ℕ) (bs : Text) → length bs < n → take n bs ≡ bs
take_all zero bs h = elim h [ ]
take_all (suc n) [] h = refl
take_all (suc n) (b ∷ bs) h = ap (◌∷◌ b) (take_all n bs (omega arith))

pub byte_at-append : (i : ℕ) (bs cs : Text) → i < length bs → byte_at (bs ++ cs) i ≡ byte_at bs i
byte_at-append i [] cs h = elim h [ ]
byte_at-append zero (b ∷ bs) cs h = refl
byte_at-append (suc i) (b ∷ bs) cs h = byte_at-append i bs cs (omega arith)

received_short : (bytes : Text) → length (received bytes) ≡ 4 → received bytes ≡ bytes
unfolding received
received_short bytes h = take_short 4096 bytes (omega (arith, h))

ack_test :
    (n b0 b1 b2 b3 s1 s2 s3 : ℕ)
    → (n == 4 && b0 == 0 && b1 == 4 && (not (s1 == 3) || (b2 == s2 && b3 == s3))) ≡ true
    → (n ≡ 4) × (b0 ≡ 0) × (b1 ≡ 4) × ((s1 ≢ 3) ⊎ ((b2 ≡ s2) × (b3 ≡ s3)))
ack_test n b0 b1 b2 b3 s1 s2 s3 h = (
  ground arith,
  ground arith,
  ground arith,
  elim (Bool-cases (s1 == 3)) [
    | inl e ↦ inr (ground arith, ground arith)
    | inr e ↦ inl (ground arith)
  ],
)

-- The test on the buffer says the same of the packet that was read into it.
is_ack-IsAnswer :
    (sent : Text) (peer from : ℕ) (bytes buf : Text)
    → (from == peer) ≡ true
    → is_ack sent (length (received bytes)) (fill (received bytes) buf) ≡ true
    → IsAnswer sent peer (packet from bytes)
unfolding is_ack
is_ack-IsAnswer sent peer from bytes buf p a =
    let (n, z, o, b) =
      ack_test (length (received bytes)) (byte_at (fill (received bytes) buf) 0)
        (byte_at (fill (received bytes) buf) 1) (byte_at (fill (received bytes) buf) 2)
        (byte_at (fill (received bytes) buf) 3) (byte_at sent 1) (byte_at sent 2) (byte_at sent 3)
        a in
    let whole : received bytes ≡ bytes = received_short bytes n in
    let m : length bytes ≡ 4 = rw whole at n in
    let back = drop (length (received bytes)) buf in
    let at = λ (i : ℕ) (h : i < 4).
      (ap (λ t. byte_at (t ++ back) i) whole) ∙ byte_at-append i bytes back (omega arith) in
    (
      (==_iff from peer).0 p,
      m,
      sym (at 0 (omega arith)) ∙ z,
      sym (at 1 (omega arith)) ∙ o,
      elim b [
        | inl ne ↦ inl ne
        | inr (x, y) ↦ inr (sym (at 2 (omega arith)) ∙ x, sym (at 3 (omega arith)) ∙ y)
      ],
    )

not_acked : gave_up ≢ acked
not_acked e = cc e

dup_only :
    (c d : Bool) (x y z : Heard)
    → x.reply ≢ acked
    → z.reply ≢ acked
    → (if c then x else if d then y else z).reply ≡ acked
    → y.reply ≡ acked
dup_only true d x y z nx nz e = absurd (nx e)
dup_only false true x y z nx nz e = e
dup_only false false x y z nx nz e = absurd (nz e)

refused : (b : Bool) → (if b then panicked else gave_up) ≢ acked
refused true = λ e. cc e
refused false = λ e. cc e

listen-acked :
    (sent : Text) (peer : ℕ) (rs : List Read) (buf : Text) (k : Counters)
    → (listen sent peer rs buf k).reply ≡ acked
    → Hears sent peer rs
unfolding listen
listen-acked sent peer [] buf k e = cc
listen-acked sent peer (expired ∷ rs) buf k e = cc
listen-acked sent peer (failed ∷ rs) buf k e = cc
listen-acked sent peer (packet from bytes ∷ rs) buf k e = elim (Bool-cases (from == peer)) [
  | inl p ↦ elim (Bool-cases (is_ack sent (length (received bytes)) (fill (received bytes) buf))) [
    | inl a ↦ now (is_ack-IsAnswer sent peer from bytes buf p a)
    | inr a ↦ later (
        listen-acked sent peer rs (fill (received bytes) buf) (record k { dups = k.dups + 1 })
          (dup_only _ _ _ _ _ (refused (ltb (length (received bytes)) 4)) not_acked
            (rw (p, a) at e)))
  ]
  | inr p ↦ later (
      listen-acked sent peer rs (fill (received bytes) buf) (record k { strays = k.strays + 1 })
        (rw p at e))
]

conclude-acked :
    (reply : Reply) (sent : Text) {peer : ℕ} {r : Round} {rs : List Round} (heard : Heard)
    (again : Result)
    → heard.reply ≡ reply
    → (conclude reply sent heard again).reply ≡ acked
    → (heard.reply ≡ acked → Hears sent peer r.reads)
    → (again.reply ≡ acked → HearsIn sent peer rs)
    → HearsIn sent peer (r ∷ rs)
unfolding conclude
conclude-acked resend sent heard again q e now_heard later_heard = later (later_heard e)
conclude-acked acked sent heard again q e now_heard later_heard = now (now_heard q)
conclude-acked gave_up sent heard again q e now_heard later_heard = cc e
conclude-acked panicked sent heard again q e now_heard later_heard = cc e

send_rounds-acked :
    (sent : Text) (peer : ℕ) (rs : List Round) (buf : Text) (k : Counters)
    → (send_rounds sent peer rs buf k).reply ≡ acked
    → HearsIn sent peer rs
unfolding send_rounds
send_rounds-acked sent peer [] buf k e = cc
send_rounds-acked sent peer (r ∷ rs) buf k e = elim (Bool-cases r.write_ok) [
  | inl w ↦
      let heard = listen sent peer r.reads buf k in
      let k' = record heard.counters { retransmissions = heard.counters.retransmissions + 1 } in
      conclude-acked heard.reply sent heard (send_rounds sent peer rs heard.buffer k') refl
        (rw w at e) (listen-acked sent peer r.reads buf k)
        (send_rounds-acked sent peer rs heard.buffer k')
  | inr w ↦ cc (rw w at e)
]

-- sendAndWaitForAck reports success only if one of the packets that were read is an ACK from the port of
-- the peer and, if DATA was sent, for the block number that was sent.
pub send_and_wait-acked :
    (sent : Text) (peer : ℕ) (rounds : List Round) (k : Counters)
    → (send_and_wait sent peer rounds k).reply ≡ acked
    → HearsIn sent peer rounds
unfolding send_and_wait
send_and_wait-acked sent peer rounds k e = send_rounds-acked sent peer rounds [] k e
