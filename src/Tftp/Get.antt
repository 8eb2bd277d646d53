-- ===== src/Tftp/Get.antt =====
-- go-susi/tftp/get.go: the TFTP client. An `Event` is what one round of the loop of `writeReadUDP` meets.
-- The three loops, of the rounds, of the wait for the right sender and of the packets, each take the next
-- event, so they are one recursion on the events.
pub mod Blocks
pub mod Laws
pub mod Short
pub mod Tests
use limux_gosa.Base.{
  ℕ, suc, ◌+◌, ◌-◌, ◌*◌, ◌/◌, ◌%◌, Bool, true, false, not, ◌&&◌, ◌||◌, Option, none, some, List, [],
  ◌∷◌, ◌++◌, ◌==◌, ltb, length, take, drop, if◌then◌else◌,
}
use limux_gosa.Base.Text.{Text, codes}
use limux_gosa.Tftp.Ack.{byte_at}

-- The datagram that came in, with its port, or none where sending or reading failed; and whether the
-- time is over by the end of the round.
pub record Event : Type 0 where
  pub datagram : Option (ℕ × Text)
  pub is_late : Bool

-- What a round of `writeReadUDP` comes to.
pub data Attempt : Type 0 where
  retry : Attempt
  give_up : Attempt
  received : ℕ → Text → Attempt

unfoldable pub attempt_of : Option (ℕ × Text) → Bool → Attempt
attempt_of none late = if late then give_up else retry
attempt_of (some (port, bytes)) late =
    let buf = take 512 bytes in
    if ltb (length buf) 4 then (if late then give_up else retry) else received port buf

-- The local variables of `Get`, what it has written to `w`, and what it has given to `WriteToUDP`.
pub record Get : Type 0 where
  -- the port of `remote_addr`, which the first answer sets
  pub port : Option ℕ
  pub blockid : ℕ
  pub ack : Text
  -- what the next round sends: the request, later the ACK
  pub to_write : Text
  pub written : Text
  pub sent : List Text

-- What a packet, and what the whole call comes to.
pub data Outcome : Type 0 where
  -- the next round
  goes_on : Get → Outcome
  done : Get → Outcome
  wrong_number : Outcome
  no_data : Outcome
  write_error : Outcome
  timed_out : Outcome

-- `byte(blockid >> 8)` and `byte(blockid & 0xff)` in bytes 2 and 3
unfoldable pub has_number : Text → ℕ → Bool
has_number buf n = byte_at buf 2 == (n / 256) % 256 && byte_at buf 3 == n % 256

-- The packet with the block that is due.
unfoldable pub next_block : Bool → Text → Get → Outcome
next_block accepts buf g =
    let ack = 0 ∷ 4 ∷ (g.blockid / 256) % 256 ∷ g.blockid % 256 ∷ [] in
    let written = g.written ++ drop 4 buf in
    if not accepts
    then write_error
    else if ltb (length buf) 512
    then done (record g { ack = ack; written = written; sent = g.sent ++ ack ∷ [] })
    else goes_on
        (record g { ack = ack; to_write = ack; written = written; blockid = g.blockid + 1 })

-- The body of the loop over the packets; the flag says that `w` takes the data.
unfoldable pub handle_packet : Bool → Text → Get → Outcome
unfolding next_block has_number
handle_packet accepts buf g =
    if byte_at buf 0 == 0 && byte_at buf 1 == 3
    then if has_number buf g.blockid
      then next_block accepts buf g
      else if has_number buf (g.blockid - 1)
      then goes_on (record g { to_write = g.ack })
      else wrong_number
    else no_data

unfoldable pub is_sender : Option ℕ → ℕ → Bool
is_sender none port = true
is_sender (some p) port = port == p

-- What comes of the round: a packet from another port is passed over.
unfoldable pub after_attempt : (ℕ → Bool) → Attempt → Get → Outcome
unfolding handle_packet is_sender
after_attempt accepts retry g = goes_on g
after_attempt accepts give_up g = timed_out
after_attempt accepts (received port buf) g =
    if is_sender g.port port
    then handle_packet (accepts g.blockid) buf (record g { port = some port })
    else goes_on g

-- Where there is no result yet, what comes next.
unfoldable pub and_then : Outcome → (Get → Outcome) → Outcome
and_then (goes_on g) next = next g
and_then (done g) next = done g
and_then wrong_number next = wrong_number
and_then no_data next = no_data
and_then write_error next = write_error
and_then timed_out next = timed_out

-- The rounds, as far as there are events.
unfoldable pub get_loop : (ℕ → Bool) → List Event → Get → Outcome
unfolding after_attempt attempt_of and_then
get_loop accepts [] g = goes_on g
get_loop accepts (e ∷ es) g =
    let asked = record g { sent = g.sent ++ g.to_write ∷ [] } in
    and_then (after_attempt accepts (attempt_of e.datagram e.is_late) asked) (get_loop accepts es)

unfoldable pub get_request : Text → Text
get_request path = 0 ∷ 1 ∷ path ++ 0 ∷ codes "octet" ++ 0 ∷ []

abbrev pub start_get : Text → Get
start_get path = record {
  port = none;
  blockid = 1;
  ack = 0 ∷ 4 ∷ 0 ∷ 0 ∷ [];
  to_write = get_request path;
  written = [];
  sent = [];
}

-- `Get`, from the point where the socket is open. `accepts n` says that `w` takes the data of block n.
unfoldable pub get : Text → (ℕ → Bool) → List Event → Outcome
unfolding get_loop get_request
get path accepts events = get_loop accepts events (start_get path)
