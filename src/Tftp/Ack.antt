-- ===== src/Tftp/Ack.antt =====
-- `sendAndWaitForAck` of go-susi/tftp/server.go: one packet, sent again after each timeout, until it is
-- acknowledged. The network and the clock are the argument `rounds`: what happens after each send.
pub mod Laws
pub mod Once
use limux_gosa.Base.{
  ℕ, zero, suc, ◌+◌, Bool, true, false, not, ◌&&◌, ◌||◌, List, [], ◌∷◌, ◌++◌, ◌==◌, ltb, length,
  take, drop, if◌then◌else◌,
}
use limux_gosa.Base.Text.{Text}

-- One call of `ReadFromUDP`, or the passing of the deadline in front of it. A list of these that ends is a
-- timeout of the next read.
pub data Read : Type 0 where
  -- the sender's port, and the bytes
  packet : ℕ → Text → Read
  failed : Read
  expired : Read

-- What follows one `Write`.
pub record Round : Type 0 where
  pub write_ok : Bool
  pub reads : List Read

-- A packet that is written: the one that is to be acknowledged, or an ERROR with its code. The socket is
-- connected, so both go to the peer: `sendErrorWithoutLogging` does not use its `addr`.
pub data Sent : Type 0 where
  to_peer : Text → Sent
  error_packet : ℕ → Sent

pub record Counters : Type 0 where
  pub retransmissions : ℕ
  pub dups : ℕ
  pub strays : ℕ

-- `readbuf` has 4096 bytes, zero at first; bytes behind the end of the list are zero.
abbrev pub byte_at : Text → ℕ → ℕ
byte_at [] i = 0
byte_at (b ∷ bs) zero = b
byte_at (b ∷ bs) (suc i) = byte_at bs i

-- A read fills the front of the buffer, and leaves the rest.
abbrev pub fill : Text → Text → Text
fill bytes buf = bytes ++ drop (length bytes) buf

-- What `ReadFromUDP` delivers of a packet: as much as the buffer holds.
unfoldable pub received : Text → Text
received bytes = take 4096 bytes

pub data Reply : Type 0 where
  acked gave_up panicked resend : Reply

pub record Heard : Type 0 where
  pub reply : Reply
  pub buffer : Text
  pub counters : Counters
  pub errors : List Sent

unfoldable pub is_ack : Text → ℕ → Text → Bool
is_ack sent n buf =
    n == 4
    && byte_at buf 0 == 0
    && byte_at buf 1 == 4
    && (not (byte_at sent 1 == 3)
        || (byte_at buf 2 == byte_at sent 2 && byte_at buf 3 == byte_at sent 3))

abbrev pub same_block : Text → Text → Bool
same_block sent buf = byte_at buf 2 == byte_at sent 2 && byte_at buf 3 == byte_at sent 3

-- The inner loop: reading until there is an answer, or a timeout.
unfoldable pub listen : Text → ℕ → List Read → Text → Counters → Heard
listen sent peer [] buf k = record { reply = resend; buffer = buf; counters = k; errors = [] }
listen sent peer (expired ∷ rs) buf k = record {
  reply = gave_up;
  buffer = buf;
  counters = k;
  errors = [];
}
listen sent peer (failed ∷ rs) buf k = record {
  reply = gave_up;
  buffer = buf;
  counters = k;
  errors = [];
}
listen sent peer (packet from bytes ∷ rs) buf k =
    let read = received bytes in
    let n = length read in
    let buf' = fill read buf in
    let stray = listen sent peer rs buf' (record k { strays = k.strays + 1 }) in
    let dup = listen sent peer rs buf' (record k { dups = k.dups + 1 }) in
    if not (from == peer)
    then record stray { errors = error_packet 5 ∷ stray.errors }
    else if is_ack sent n buf'
    then record { reply = acked; buffer = buf'; counters = k; errors = [] }
    else if byte_at buf' 0 == 0 && byte_at buf' 1 == 5
    then record {
      -- the slice readbuf[4:n] of the log message
      reply = if ltb n 4 then panicked else gave_up;
      buffer = buf';
      counters = k;
      errors = [];
    }
    else if byte_at sent 1 == 3 && not (same_block sent buf')
    then dup
    else record { reply = gave_up; buffer = buf'; counters = k; errors = error_packet 0 ∷ [] }

pub record Result : Type 0 where
  pub reply : Reply
  pub counters : Counters
  pub wire : List Sent

-- After the inner loop: what goes on the wire in this round and, after a timeout, in the later ones.
conclude : Reply → Text → Heard → Result → Result
conclude resend sent heard again = record again {
  wire = to_peer sent ∷ (heard.errors ++ again.wire);
}
conclude reply sent heard again = record {
  reply = reply;
  counters = heard.counters;
  wire = to_peer sent ∷ heard.errors;
}

-- The outer loop; `k` counts the sends before this one. Where no round is left, the packet is sent once
-- more and the deadline has passed.
unfoldable pub send_rounds : Text → ℕ → List Round → Text → Counters → Result
unfolding conclude
send_rounds sent peer [] buf k = record { reply = gave_up; counters = k; wire = to_peer sent ∷ [] }
send_rounds sent peer (r ∷ rs) buf k =
    let heard = listen sent peer r.reads buf k in
    let again =
      send_rounds sent peer rs heard.buffer
        (record heard.counters { retransmissions = heard.counters.retransmissions + 1 }) in
    if not r.write_ok
    then record { reply = gave_up; counters = k; wire = [] }
    else conclude heard.reply sent heard again

-- `sendAndWaitForAck`
unfoldable pub send_and_wait : Text → ℕ → List Round → Counters → Result
unfolding send_rounds
send_and_wait sent peer rounds k = send_rounds sent peer rounds [] k
