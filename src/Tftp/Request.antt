-- ===== src/Tftp/Request.antt =====
-- The read request and its options, in `handleConnection` of go-susi/tftp/server.go.
pub mod Laws
use limux_gosa.Base.{
  ℕ, zero, suc, ◌+◌, Bool, true, false, not, ◌&&◌, ◌||◌, Option, none, some, List, [], ◌∷◌, ◌++◌,
  ◌==◌, ltb, leb, length, drop, if◌then◌else◌,
}
use limux_gosa.Base.Int.{ℤ, pos, negsuc}
use limux_gosa.Base.Text.{Text, codes, text_eq, to_lower, parse_int, decimal}
use limux_gosa.Xml.Hash.{join}
use limux_gosa.Tftp.Ack.{byte_at}

-- One more byte in front of the first part.
abbrev onto_first : ℕ → List Text → List Text
onto_first c [] = (c ∷ []) ∷ []
onto_first c (p ∷ ps) = (c ∷ p) ∷ ps

-- `strings.SplitN(s, "\000", -1)`
unfoldable pub split_zero : Text → List Text
split_zero [] = [] ∷ []
split_zero (c ∷ s) = let rest = split_zero s in if c == 0 then [] ∷ rest else onto_first c rest

-- The last byte of a text that is not empty.
abbrev pub last_byte : Text → ℕ
last_byte [] = 0
last_byte (c ∷ []) = c
last_byte (c ∷ d ∷ s) = last_byte (d ∷ s)

-- `request[0] == "" || request[0][0] == '.' || request[0][len(request[0])-1] == '/'`
unfoldable pub bad_file_name : Text → Bool
bad_file_name s = text_eq s [] || byte_at s 0 == b'.' || last_byte s == b'/'

-- What a request asks for: the file name, and the option names and values.
pub record Request : Type 0 where
  pub file : Text
  pub options : List Text

accept_parts : List Text → Option Request
accept_parts [] = none
accept_parts (file ∷ []) = none
accept_parts (file ∷ mode ∷ options) =
    if not (text_eq (to_lower mode) (codes "octet")) || bad_file_name file
    then none
    else some (record { file = file; options = options })

-- The checks on the payload; `none` is the answer with error code 4.
unfoldable pub parse_request : Text → Option Request
unfolding split_zero accept_parts
parse_request payload =
    if ltb (length payload) 6 || not (byte_at payload 0 == 0) || not (byte_at payload 1 == 1)
    then none
    else accept_parts (split_zero (drop 2 payload))

-- The block size, and the options that the OACK packet confirms.
pub record Settings : Type 0 where
  pub block_size : ℕ
  pub oack : List Text

-- `strconv.Atoi` and the range check of "blksize".
unfoldable pub block_size_of : Text → Option ℕ
unfolding parse_int
block_size_of value = elim (parse_int value) [
  | none ↦ none
  | some n ↦ elim n [ pos m ↦ if ltb 0 m && leb m 65536 then some m else none | negsuc m ↦ none ]
]

set_block_size : Option ℕ → Text → Text → Settings → Settings
set_block_size none option value s = s
set_block_size (some n) option value s = record {
  block_size = n;
  oack = s.oack ++ (option ∷ value ∷ []);
}

-- One round of the loop over the options.
unfoldable pub read_option : ℕ → Text → Text → Settings → Settings
unfolding set_block_size block_size_of
read_option size name value s =
    let option = to_lower name in
    let s1 =
      if text_eq option (codes "blksize")
      then set_block_size (block_size_of value) option value s
      else s in
    if text_eq option (codes "tsize")
    then record s1 { oack = s1.oack ++ (option ∷ decimal size ∷ []) }
    else s1

-- The loop: pairs of a name and a value; a name without a value is not read. `size` is `len(data)`.
unfoldable pub read_options : ℕ → List Text → Settings → Settings
unfolding read_option
read_options size [] s = s
read_options size (name ∷ []) s = s
read_options size (name ∷ value ∷ rest) s = read_options size rest (read_option size name value s)

unfoldable pub settings : ℕ → List Text → Settings
unfolding read_options
settings size options = read_options size options (record { block_size = 512; oack = [] })

-- The OACK packet.
unfoldable pub oack_packet : List Text → Text
unfolding join
oack_packet oack = 0 ∷ 6 ∷ (join (0 ∷ []) oack ++ (0 ∷ []))
