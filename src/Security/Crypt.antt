-- ===== src/Security/Crypt.antt =====
-- go-susi/security/gosacrypt.go: messages encrypted as gosa-si does.
pub mod RoundTrip
pub mod Buffer
pub mod Tests
use limux_gosa.Base.{
  ℕ, ◌+◌, ◌-◌, ◌*◌, ◌/◌, ◌%◌, Bool, true, false, not, ◌&&◌, ◌||◌, ◌==◌, ltb, length, take, drop,
  replicate, List, [], ◌∷◌, ◌++◌, drop_while, drop_while_end, if◌then◌else◌,
}
use limux_gosa.Base.Text.{Text, codes, text_eq}
use limux_gosa.Security.Context.Verify.{has_prefix}

-- `aes.BlockSize`
abbrev pub block_size : ℕ
block_size = 16

-- `n &^ aes.BlockSize`: the bit of 16 cleared.
abbrev pub clear_block_bit : ℕ → ℕ
clear_block_bit n = n - n / 16 % 2 * 16

unfoldable pub padding : ℕ → ℕ
padding len = clear_block_bit (block_size - len % block_size)

-- `paddedMessage`
unfoldable pub padded_message : Text → Text
unfolding padding
padded_message msg = replicate (padding (length msg)) 0 ++ msg

-- The ASCII characters that `strings.TrimSpace` takes off.
abbrev pub is_space : ℕ → Bool
is_space c = c == 9 || c == 10 || c == 11 || c == 12 || c == 13 || c == 32

unfoldable pub trim_space : Text → Text
trim_space s = drop_while_end is_space (drop_while is_space s)

abbrev pub is_zero : ℕ → Bool
is_zero c = c == 0

abbrev pub is_separator : ℕ → Bool
is_separator c = c == b';' || c == b'.'

-- `trimmed[:semicolon_period]`
unfoldable pub cut : Text → Text
cut [] = []
cut (c ∷ s) = let rest = cut s in if is_separator c then [] else c ∷ rest

abbrev pub is_xml : Text → Bool
is_xml s = has_prefix s (codes "<xml>")

-- `strings.Contains`
unfoldable pub contains : Text → Text → Bool
contains [] p = has_prefix [] p
contains (c ∷ s) p = has_prefix (c ∷ s) p || contains s p

-- What the file uses of packages that are not in the repository: AES in CBC mode under the MD5 sum of
-- a key, on whole blocks, and base64, into a new string and in place, where the data is given with the
-- place at which it starts. The last is `TrimSpace` of the buffer, which takes 0 off, too.
pub record Crypto : Type 0 where
  pub encrypt : Text → Text → Text
  pub decrypt : Text → Text → Text
  pub encode : Text → Text
  pub decode : Text → Text
  pub encode_in_place : Text → ℕ → Text
  pub decode_in_place : Text → Text
  pub trim_buffer : Text → Text

module _ (crypto : Crypto) where
  open crypto use {encrypt, decrypt, encode, decode, encode_in_place, decode_in_place, trim_buffer}

  -- `GosaEncrypt`
  unfoldable pub gosa_encrypt : Text → Text → Text
  gosa_encrypt [] key = []
  gosa_encrypt (c ∷ msg) key = encode (encrypt key (padded_message (c ∷ msg)))

  -- The decrypted text without its padding.
  unfoldable pub unpadded : Text → Text
  unpadded s = trim_space (drop_while_end is_zero (drop_while is_zero s))

  -- `GosaDecrypt` from the decoded text on.
  unfoldable pub decrypt_cyphertext : Text → Text → Text
  unfolding unpadded
  decrypt_cyphertext cyphertext key =
      let trimmed = unpadded (decrypt key cyphertext) in
      if not (length cyphertext % block_size == 0)
      then []
      else if is_xml trimmed
      then trimmed
      else []

  -- `GosaDecrypt`
  unfoldable pub gosa_decrypt : Text → Text → Text
  unfolding decrypt_cyphertext
  gosa_decrypt msg key =
      let trimmed = trim_space msg in
      if is_xml trimmed then trimmed else decrypt_cyphertext (decode (cut trimmed)) key

  -- What `GosaEncryptBuffer` does to a buffer with data: it is made longer, the data is moved to its end,
  -- zeros are written in front of the data, and the data is encrypted and encoded in place.
  unfoldable pub encrypt_in : Text → Text → Text
  encrypt_in buf key =
      let datalen = length buf in
      let cryptpad = padding datalen in
      let cryptlen = cryptpad + datalen in
      let b64len = (cryptlen + 2) / 3 * 4 in
      let idx = b64len - cryptlen in
      let grown = buf ++ replicate (b64len - datalen) 0 in
      let moved = take (b64len - datalen) grown ++ take datalen grown in
      let zeroed = take idx moved ++ (replicate cryptpad 0 ++ drop (idx + cryptpad) moved) in
      encode_in_place (take idx zeroed ++ encrypt key (drop idx zeroed)) idx

  -- `GosaEncryptBuffer`
  unfoldable pub gosa_encrypt_buffer : Text → Text → Text
  gosa_encrypt_buffer [] key = []
  gosa_encrypt_buffer (c ∷ buf) key = encrypt_in (c ∷ buf) key

  -- The test on the first three blocks.
  unfoldable pub is_promising : Text → Text → Bool
  is_promising buf key =
      let test = decode_in_place (take 64 buf) in
      contains (decrypt key (take (length test / block_size * block_size) test)) (codes "<xml>")

  -- `GosaDecryptBuffer` from the decoded data on, and all of it: the result, and the new contents.
  unfoldable pub decrypt_data : Text → Text → Bool × Text
  decrypt_data buf key =
      if not (length buf % block_size == 0)
      then (false, [])
      else (true, trim_buffer (decrypt key buf))

  unfoldable pub gosa_decrypt_buffer : Text → Text → Bool × Text
  unfolding is_promising decrypt_data
  gosa_decrypt_buffer msg key =
      let buf = trim_buffer msg in
      if ltb (length buf) 11
      then (false, buf)
      else if text_eq (take 5 buf) (codes "<xml>")
      then (true, buf)
      else if not (is_promising (cut buf) key)
      then (false, cut buf)
      else decrypt_data (decode_in_place (cut buf)) key
