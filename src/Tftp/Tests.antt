-- ===== src/Tftp/Tests.antt =====
-- Runs of the definitions of go-susi/tftp, and the theorems at inputs that meet their hypotheses.
use limux_gosa.Base.{
  ℕ, ◌/◌, ◌%◌, true, some, List, [], ◌∷◌, ◌++◌, map, ◌≡◌, ◌≢◌, refl, arith, All, drop, inl, inr,
}
use limux_gosa.Base.Text.{Text, codes, text_eq, lower}
use limux_gosa.Xml.Hash.{join}
use limux_gosa.Tftp.Ack.{to_peer, Read, packet, acked, send_and_wait, byte_at}
use limux_gosa.Tftp.Ack.Laws.{IsAnswer, HearsIn, send_and_wait-acked}
use limux_gosa.Tftp.Ack.Once.{complaints, IsNoise, copies, send_and_wait_once}
use limux_gosa.Tftp.Request.{
  Request, parse_request, Settings, oack_packet, last_byte, bad_file_name,
}
use limux_gosa.Tftp.Request.Laws.{parse_request_lem}
use limux_gosa.Tftp.Transfer.{data_packet, Network, send_blocks, transfer, no_counts, fuel_for}
use limux_gosa.Tftp.Transfer.Client.{assemble}
use limux_gosa.Tftp.Transfer.Laws.{Acknowledges, data_packets, send_blocks_sound, transfer_delivers}

-- A read request for "pxe" with a block size of 8.
abbrev payload : Text
payload =
    0
    ∷ 1
    ∷ (codes "pxe"
        ++ (0 ∷ (codes "Octet" ++ (0 ∷ (codes "blksize" ++ (0 ∷ codes "8" ++ (0 ∷ [])))))))

abbrev request : Request
request = record { file = codes "pxe"; options = codes "blksize" ∷ codes "8" ∷ [] ∷ [] }

parse_payload : parse_request payload ≡ some request
unfolding parse_request bad_file_name text_eq lower
parse_payload = refl

parse_request_example :
    (mode : Text) × (drop 2 payload ≡ join (0 ∷ []) (request.file ∷ mode ∷ request.options))
    × (map lower mode ≡ codes "octet")
    × (byte_at payload 0 ≡ 0)
    × (byte_at payload 1 ≡ 1)
    × (request.file ≢ [])
    × (byte_at request.file 0 ≢ b'.')
    × (last_byte request.file ≢ b'/')
parse_request_example = parse_request_lem payload request parse_payload

-- The network acknowledges block n in the first round of the n-th call, after a packet from elsewhere.
abbrev ack : ℕ → Read
ack n = packet 69 (0 ∷ 4 ∷ (n / 256) % 256 ∷ n % 256 ∷ [])

abbrev stray : Read
stray = packet 70 (codes "hi")

abbrev net : Network
net n = record { write_ok = true; reads = (stray ∷ []) ++ ack n ∷ [] } ∷ []

stray-IsNoise : (sent : Text) → All (IsNoise sent 69) (stray ∷ [])
stray-IsNoise sent = (inr (λ e. absurd (omega arith)), tt)

ack-IsAnswer : (n : ℕ) (slice : Text) → IsAnswer (data_packet n slice) 69 (ack n)
unfolding data_packet
ack-IsAnswer n slice = (refl, refl, refl, refl, inr (refl, refl))

net-Acknowledges : Acknowledges net 69
net-Acknowledges n slice k =
    (send_and_wait_once (data_packet n slice) 69 (stray ∷ []) (ack n) [] [] k
      (stray-IsNoise (data_packet n slice)) (ack-IsAnswer n slice)).0

abbrev file : Text
file = codes "0123456789abcdef"

abbrev in_eights : Settings
in_eights = record { block_size = 8; oack = codes "blksize" ∷ codes "8" ∷ [] }

oack-IsAnswer : (oack : List Text) → IsAnswer (oack_packet oack) 69 (ack 0)
unfolding oack_packet
oack-IsAnswer oack = (refl, refl, refl, refl, inl (λ e. absurd (omega (arith, e))))

oack_acked :
    (oack : List Text) → (send_and_wait (oack_packet oack) 69 (net 0) no_counts).reply ≡ acked
oack_acked oack =
    (send_and_wait_once (oack_packet oack) 69 (stray ∷ []) (ack 0) [] [] no_counts
      (stray-IsNoise (oack_packet oack)) (oack-IsAnswer oack)).0

transfer_delivers_example :
    ((transfer 69 net in_eights file).completed ≡ true)
    × (assemble 8 1 (data_packets in_eights (transfer 69 net in_eights file)) ≡ some file)
transfer_delivers_example =
    transfer_delivers 69 net in_eights file (omega arith) (oack_acked in_eights.oack)
      net-Acknowledges

blocks_complete : (send_blocks (fuel_for file) 69 net 1 no_counts 8 1 file).completed ≡ true
unfolding transfer
blocks_complete =
    (transfer_delivers 69 net (record { block_size = 8; oack = [] }) file (omega arith)
      (oack_acked []) net-Acknowledges).0

send_blocks_sound_example :
    assemble 8 1 (send_blocks (fuel_for file) 69 net 1 no_counts 8 1 file).packets ≡ some file
send_blocks_sound_example = send_blocks_sound 69 net no_counts 8 file blocks_complete

send_and_wait-acked_example : HearsIn (data_packet 5 file) 69 (net 5)
send_and_wait-acked_example =
    send_and_wait-acked (data_packet 5 file) 69 (net 5) no_counts
      (net-Acknowledges 5 file no_counts)

send_and_wait_once_example :
    let r = send_and_wait (data_packet 5 file) 69 (net 5) no_counts in
    (r.reply ≡ acked)
    × (copies r.wire ≡ 1)
    × (r.counters.retransmissions ≡ no_counts.retransmissions)
    × (r.wire ≡ to_peer (data_packet 5 file) ∷ complaints 69 (stray ∷ []))
send_and_wait_once_example =
    send_and_wait_once (data_packet 5 file) 69 (stray ∷ []) (ack 5) [] [] no_counts
      (stray-IsNoise (data_packet 5 file)) (ack-IsAnswer 5 file)
