-- ===== src/Tftp/Transfer/Client.antt =====
-- A TFTP client as RFC 1350 describes it: it puts together what the server of go-susi/tftp sends.
use limux_gosa.Base.{
  ℕ, ◌+◌, ◌*◌, ◌%◌, ◌&&◌, Option, none, some, List, [], ◌∷◌, ◌++◌, ◌==◌, ltb, length, if◌then◌else◌,
}
use limux_gosa.Base.Text.{Text}

-- The data of a packet, if it is DATA with the block number that is due. Numbers wrap at 2^16.
unfoldable pub data_of : ℕ → Text → Option Text
data_of due (z ∷ op ∷ hi ∷ lo ∷ slice) =
    if z == 0 && op == 3 && (hi * 256 + lo == due % 65536) then some slice else none
data_of due _ = none

only_if_last : Text → List Text → Option Text
only_if_last slice [] = some slice
only_if_last slice (p ∷ ps) = none

in_front : Text → Option Text → Option Text
in_front slice none = none
in_front slice (some rest) = some (slice ++ rest)

-- One packet: its data, the block size, the packets behind it, and what they come to.
receive : Option Text → ℕ → List Text → Option Text → Option Text
receive none block_size ps later = none
receive (some slice) block_size ps later =
    if ltb (length slice) block_size then only_if_last slice ps else in_front slice later

-- The file is complete with the first block that is shorter than the block size, and nothing follows.
unfoldable pub assemble : ℕ → ℕ → List Text → Option Text
unfolding receive only_if_last in_front
assemble block_size due [] = none
assemble block_size due (p ∷ ps) =
    receive (data_of due p) block_size ps (assemble block_size (due + 1) ps)
