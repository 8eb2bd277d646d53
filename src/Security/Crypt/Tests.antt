-- ===== src/Security/Crypt/Tests.antt =====
-- The theorems on go-susi/security/gosacrypt.go for a cipher and an encoding that can be computed.
use limux_gosa.Base.{◌+◌, ◌-◌, true, [], ◌∷◌, map, drop, all, ◌≡◌, refl, ap, arith}
use limux_gosa.Base.Text.{Text, codes}
use limux_gosa.Security.Context.Verify.{has_prefix}
use limux_gosa.Security.Crypt.{Crypto, trim_space, gosa_encrypt, gosa_decrypt, gosa_encrypt_buffer}
use limux_gosa.Security.Crypt.RoundTrip.{IsLawful, is_plain, gosa_decrypt-gosa_encrypt}
use limux_gosa.Security.Crypt.Buffer.{EncodesInPlace, gosa_encrypt_buffer_lem, drop-length}

abbrev shift_up : Text → Text
shift_up = map (λ c. c + 100)

abbrev shift_down : Text → Text
shift_down = map (λ c. c - 100)

abbrev toy : Crypto
toy = record {
  encrypt = λ key s. s;
  decrypt = λ key s. s;
  encode = shift_up;
  decode = shift_down;
  encode_in_place = λ d i. shift_up (drop i d);
  decode_in_place = shift_down;
  trim_buffer = trim_space;
}

shift_down-shift_up : (s : Text) → shift_down (shift_up s) ≡ s
shift_down-shift_up [] = refl
shift_down-shift_up (c ∷ s) =
    let e : c + 100 - 100 ≡ c = omega arith in rw e (ap (◌∷◌ c) (shift_down-shift_up s))

shift_up-is_plain : (s : Text) → all is_plain (shift_up s) ≡ true
shift_up-is_plain [] = refl
shift_up-is_plain (c ∷ s) = ground (arith, shift_up-is_plain s)

toy-IsLawful : IsLawful toy
toy-IsLawful = record {
  decrypt-encrypt = λ key s e. refl;
  length-encrypt = λ key s e. refl;
  decode-encode = shift_down-shift_up;
  encode-IsPlain = shift_up-is_plain;
}

toy-EncodesInPlace : EncodesInPlace toy
toy-EncodesInPlace = record {
  in_place = λ front s e. ap shift_up (drop-length front s);
  keeps_length = λ key s e. refl;
}

abbrev hello : Text
hello = codes "<xml>hello</xml>\n"

gosa_decrypt-gosa_encrypt_example :
    gosa_decrypt toy (gosa_encrypt toy hello (codes "key")) (codes "key") ≡ trim_space hello
unfolding trim_space has_prefix
gosa_decrypt-gosa_encrypt_example =
    gosa_decrypt-gosa_encrypt toy toy-IsLawful hello (codes "key") refl refl

trimmed_hello : trim_space hello ≡ codes "<xml>hello</xml>"
unfolding trim_space
trimmed_hello = refl

gosa_encrypt_buffer_example :
    gosa_encrypt_buffer toy hello (codes "key") ≡ gosa_encrypt toy hello (codes "key")
gosa_encrypt_buffer_example = gosa_encrypt_buffer_lem toy toy-EncodesInPlace hello (codes "key")
