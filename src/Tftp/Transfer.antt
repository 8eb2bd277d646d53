-- ===== src/Tftp/Transfer.antt =====
-- The transfer of a file in `handleConnection` of go-susi/tftp/server.go: the OACK and the DATA packets,
-- each sent by `sendAndWaitForAck`.
pub mod Client
pub mod Laws
use limux_gosa.Base.{
  ℕ, zero, suc, ◌+◌, ◌*◌, ◌/◌, ◌%◌, Bool, true, false, not, ◌&&◌, ◌||◌, Option, none, some, List,
  [], ◌∷◌, ◌++◌, ◌==◌, ltb, leb, length, take, drop, if◌then◌else◌,
}
use limux_gosa.Base.Text.{Text}
use limux_gosa.Tftp.Ack.{
  Round, Counters, Reply, acked, gave_up, panicked, resend, Result, send_and_wait,
}
use limux_gosa.Tftp.Request.{Settings, oack_packet}

-- The DATA packet: `byte(blockid >> 8)`, `byte(blockid & 0xff)` and a slice of the data.
unfoldable pub data_packet : ℕ → Text → Text
data_packet blockid slice = 0 ∷ 3 ∷ (blockid / 256) % 256 ∷ blockid % 256 ∷ slice

-- What the network does to the n-th call of `sendAndWaitForAck`.
abbrev pub Network : Type 0
Network = ℕ → List Round

pub record Transfer : Type 0 where
  -- the packets that were given to `sendAndWaitForAck`, in order, and whether all were acknowledged
  pub packets : List Text
  pub completed : Bool

abbrev pub is_acked : Reply → Bool
is_acked acked = true
is_acked _ = false

-- `sz`
unfoldable pub block_length : ℕ → Text → ℕ
block_length block_size rest = if ltb block_size (length rest) then block_size else length rest

-- What one round comes to: whether its packet was acknowledged, whether it was short, the packet, and the
-- rounds behind it.
after_block : Bool → Bool → Text → Transfer → Transfer
after_block false short sent more = record { packets = sent ∷ []; completed = false }
after_block true true sent more = record { packets = sent ∷ []; completed = true }
after_block true false sent more = record {
  packets = sent ∷ more.packets;
  completed = more.completed;
}

-- The loop over the blocks; `rest` is what is left of the file, and `n` numbers the calls. The fuel bounds
-- the rounds: one more than there are full blocks is enough.
unfoldable pub send_blocks : ℕ → ℕ → Network → ℕ → Counters → ℕ → ℕ → Text → Transfer
unfolding after_block
send_blocks zero peer net n k block_size blockid rest = record { packets = []; completed = false }
send_blocks (suc fuel) peer net n k block_size blockid rest =
    let sz = block_length block_size rest in
    let sent = data_packet blockid (take sz rest) in
    let r = send_and_wait sent peer (net n) k in
    after_block (is_acked r.reply) (ltb sz block_size) sent
      (send_blocks fuel peer net (suc n) r.counters block_size (blockid + 1) (drop sz rest))

abbrev pub no_counts : Counters
no_counts = record { retransmissions = 0; dups = 0; strays = 0 }

abbrev pub fuel_for : Text → ℕ
fuel_for file = suc (length file)

-- From the OACK on; without options that are confirmed there is none.
unfoldable pub transfer : ℕ → Network → Settings → Text → Transfer
unfolding send_blocks
transfer peer net s file =
    let r = send_and_wait (oack_packet s.oack) peer (net 0) no_counts in
    let blocks = λ (k : Counters). send_blocks (fuel_for file) peer net 1 k s.block_size 1 file in
    elim s.oack [
      | [] ↦ blocks no_counts
      | _ ↦
          if not (is_acked r.reply)
          then record { packets = oack_packet s.oack ∷ []; completed = false }
          else record {
            packets = oack_packet s.oack ∷ (blocks r.counters).packets;
            completed = (blocks r.counters).completed;
          }
    ]
