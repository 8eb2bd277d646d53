-- ===== src/Tftp/Transfer/Laws.antt =====
-- The file arrives: the DATA packets of go-susi/tftp/server.go against a client of RFC 1350.
use limux_gosa.Base.{
  ℕ, zero, suc, ◌+◌, ◌*◌, ◌/◌, ◌%◌, ◌<◌, ◌≤◌, Bool, true, false, some, List, [], ◌∷◌, ◌==◌, ltb,
  length, take, drop, ◌≡◌, refl, ap, subst, inl, inr, arith, Bool-cases, length-take, length-drop,
  take-append-drop,
}
use limux_gosa.Base.Text.{Text}
use limux_gosa.Tftp.Ack.{Counters, acked, send_and_wait}
use limux_gosa.Tftp.Request.{Settings, oack_packet}
use limux_gosa.Tftp.Transfer.{
  data_packet, Network, Transfer, is_acked, send_blocks, fuel_for, block_length, after_block,
  transfer, no_counts,
}
use limux_gosa.Tftp.Transfer.Client.{data_of, assemble}

data_of-data_packet : (b : ℕ) (slice : Text) → data_of b (data_packet b slice) ≡ some slice
unfolding data_of data_packet
data_of-data_packet b slice =
    let e : ((b / 256) % 256 * 256 + b % 256 == b % 65536) ≡ true = ground arith in rw e

take-length : (n : ℕ) (xs : Text) → n ≡ length xs → take n xs ≡ xs
take-length zero [] h = refl
take-length zero (x ∷ xs) h = absurd (omega arith)
take-length (suc n) [] h = absurd (omega arith)
take-length (suc n) (x ∷ xs) h = ap (◌∷◌ x) (take-length n xs (omega arith))

module _ (bs b sz : ℕ) (rest : Text) (fits : sz ≤ length rest) where
  slice_length : length (take sz rest) ≡ sz
  slice_length = omega (arith, length-take sz rest)

  assemble_last :
      sz < bs → sz ≡ length rest → assemble bs b (data_packet b (take sz rest) ∷ []) ≡ some rest
  unfolding assemble
  assemble_last short whole =
      let e : ltb (length (take sz rest)) bs ≡ true = ground (arith, slice_length) in
      let all : take sz rest ≡ rest = take-length sz rest whole in
      rw (data_of-data_packet b (take sz rest), e) (ap some all)

  assemble_more :
      (ps : List Text)
      → bs ≤ sz
      → assemble bs (b + 1) ps ≡ some (drop sz rest)
      → assemble bs b (data_packet b (take sz rest) ∷ ps) ≡ some rest
  unfolding assemble
  assemble_more ps full h =
      let e : ltb (length (take sz rest)) bs ≡ false = ground (arith, slice_length) in
      rw (data_of-data_packet b (take sz rest), e, h) (ap some (take-append-drop sz rest))

block_length-le : (bs : ℕ) (rest : Text) → block_length bs rest ≤ length rest
unfolding block_length
block_length-le bs rest = ground arith

block_length_short :
    (bs : ℕ) (rest : Text) → block_length bs rest < bs → block_length bs rest ≡ length rest
unfolding block_length
block_length_short bs rest h = ground arith

-- A round of the loop, with what the rounds behind it come to.
after_block-assemble :
    (bs b sz : ℕ) (rest : Text) (ok : Bool) (more : Transfer)
    → sz ≤ length rest
    → (sz < bs → sz ≡ length rest)
    → (more.completed ≡ true → assemble bs (b + 1) more.packets ≡ some (drop sz rest))
    → (after_block ok (ltb sz bs) (data_packet b (take sz rest)) more).completed ≡ true
    → assemble bs b (after_block ok (ltb sz bs) (data_packet b (take sz rest)) more).packets
      ≡ some rest
unfolding after_block
after_block-assemble bs b sz rest false more fits short ih e = cc e
after_block-assemble bs b sz rest true more fits short ih e = elim (Bool-cases (ltb sz bs)) [
  | inl l ↦ rw l (assemble_last bs b sz rest fits (ground arith) (short (ground arith)))
  | inr l ↦ rw l (assemble_more bs b sz rest fits more.packets (ground arith) (ih (rw l at e)))
]

send_blocks-assemble :
    (fuel peer : ℕ) (net : Network) (n : ℕ) (k : Counters) (bs b : ℕ) (rest : Text)
    → (send_blocks fuel peer net n k bs b rest).completed ≡ true
    → assemble bs b (send_blocks fuel peer net n k bs b rest).packets ≡ some rest
unfolding send_blocks
send_blocks-assemble zero peer net n k bs b rest e = cc
send_blocks-assemble (suc fuel) peer net n k bs b rest e =
    let sz = block_length bs rest in
    let r = send_and_wait (data_packet b (take sz rest)) peer (net n) k in
    after_block-assemble bs b sz rest (is_acked r.reply)
      (send_blocks fuel peer net (suc n) r.counters bs (b + 1) (drop sz rest))
      (block_length-le bs rest) (block_length_short bs rest)
      (send_blocks-assemble fuel peer net (suc n) r.counters bs (b + 1) (drop sz rest)) e

-- The network lets the n-th DATA packet and its acknowledgement through, sooner or later.
abbrev pub Acknowledges : Network → ℕ → Type 0
Acknowledges net peer =
    (n : ℕ) (slice : Text) (k : Counters)
    → (send_and_wait (data_packet n slice) peer (net n) k).reply ≡ acked

after_block_completed :
    (sz bs : ℕ) (sent : Text) (ok : Bool) (more : Transfer)
    → ok ≡ true
    → (bs ≤ sz → more.completed ≡ true)
    → (after_block ok (ltb sz bs) sent more).completed ≡ true
unfolding after_block
after_block_completed sz bs sent ok more e ih = elim (Bool-cases (ltb sz bs)) [
  | inl l ↦ rw (e, l)
  | inr l ↦ rw (e, l) (ih (ground arith))
]

send_blocks_completed :
    (fuel peer : ℕ) (net : Network) (n b : ℕ) (k : Counters) (bs : ℕ) (rest : Text)
    → 0 < bs
    → length rest < fuel
    → n ≡ b
    → Acknowledges net peer
    → (send_blocks fuel peer net n k bs b rest).completed ≡ true
unfolding send_blocks
send_blocks_completed zero peer net n b k bs rest p h e acks = elim h [ ]
send_blocks_completed (suc fuel) peer net n b k bs rest p h e acks =
    let sz = block_length bs rest in
    let sent = data_packet b (take sz rest) in
    let r = send_and_wait sent peer (net n) k in
    let ok : r.reply ≡ acked =
      subst (λ m. (send_and_wait (data_packet m (take sz rest)) peer (net n) k).reply ≡ acked) e
        (acks n (take sz rest) k) in
    after_block_completed sz bs sent (is_acked r.reply)
      (send_blocks fuel peer net (suc n) r.counters bs (b + 1) (drop sz rest)) (ap is_acked ok)
      (λ full.
        send_blocks_completed fuel peer net (suc n) (b + 1) r.counters bs (drop sz rest) p
          (omega (arith, length-drop sz rest, block_length-le bs rest)) (omega (arith, e)) acks)

-- Whatever the network does, if the server takes the transfer for complete, then the blocks it has sent
-- are the file: a client that takes them in order, each with the block number that is due, has the whole
-- file after the last one, which is the only one shorter than the block size.
pub send_blocks_sound :
    (peer : ℕ) (net : Network) (k : Counters) (bs : ℕ) (file : Text)
    → (send_blocks (fuel_for file) peer net 1 k bs 1 file).completed ≡ true
    → assemble bs 1 (send_blocks (fuel_for file) peer net 1 k bs 1 file).packets ≡ some file
send_blocks_sound peer net k bs file = send_blocks-assemble (fuel_for file) peer net 1 k bs 1 file

-- The DATA packets of a transfer.
abbrev pub data_packets : Settings → Transfer → List Text
data_packets s t = elim s.oack [ [] ↦ t.packets | _ ↦ drop 1 t.packets ]

with_oack :
    (peer : ℕ) (net : Network) (bs : ℕ) (oack : List Text) (file : Text)
    → 0 < bs
    → (send_and_wait (oack_packet oack) peer (net 0) no_counts).reply ≡ acked
    → Acknowledges net peer
    → let s : Settings = record { block_size = bs; oack = oack } in
      let t = transfer peer net s file in
      (t.completed ≡ true) × (assemble bs 1 (data_packets s t) ≡ some file)
unfolding transfer
with_oack peer net bs [] file p first acks =
    let done =
      send_blocks_completed (fuel_for file) peer net 1 1 no_counts bs file p (omega arith) refl
        acks in
    (done, send_blocks_sound peer net no_counts bs file done)
with_oack peer net bs (o ∷ os) file p first acks =
    let k = (send_and_wait (oack_packet (o ∷ os)) peer (net 0) no_counts).counters in
    let done =
      send_blocks_completed (fuel_for file) peer net 1 1 k bs file p (omega arith) refl acks in
    rw first (done, send_blocks_sound peer net k bs file done)

-- If the network lets each packet and its acknowledgement through, sooner or later, the server comes to
-- the end of the file, and the DATA packets that it has sent give the client the whole file, whatever the
-- block size and the length of the file, an empty file and a multiple of the block size included.
pub transfer_delivers :
    (peer : ℕ) (net : Network) (s : Settings) (file : Text)
    → 0 < s.block_size
    → (send_and_wait (oack_packet s.oack) peer (net 0) no_counts).reply ≡ acked
    → Acknowledges net peer
    → ((transfer peer net s file).completed ≡ true)
      × (assemble s.block_size 1 (data_packets s (transfer peer net s file)) ≡ some file)
transfer_delivers peer net s file = with_oack peer net s.block_size s.oack file
