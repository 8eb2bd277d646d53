-- ===== src/Security/Crypt/Buffer.antt =====
-- `GosaEncryptBuffer` of go-susi/security/gosacrypt.go works in place, and does what `GosaEncrypt` does.
use limux_gosa.Base.{
  ℕ, ◌+◌, ◌-◌, ◌*◌, ◌/◌, ◌%◌, ◌≤◌, length, length-append, length-replicate, length-take, replicate,
  [], ◌∷◌, ◌++◌, take, drop, ◌≡◌, refl, ap, ◌∙◌, arith,
}
use limux_gosa.Base.Text.{Text}
use limux_gosa.Security.Crypt.{
  Crypto, padding, padded_message, gosa_encrypt, encrypt_in, gosa_encrypt_buffer,
}

-- What `util.Base64EncodeInPlace` documents: the data from the given place on is encoded into the whole
-- buffer, if the buffer has just the length of the encoded data.
pub record EncodesInPlace (crypto : Crypto) : Type 0 where
  pub in_place :
      (front s : Text)
      → length (front ++ s) ≡ (length s + 2) / 3 * 4
      → crypto.encode_in_place (front ++ s) (length front) ≡ crypto.encode s
  pub keeps_length : (key s : Text) → length s % 16 ≡ 0 → length (crypto.encrypt key s) ≡ length s

pub drop-length : (s t : Text) → drop (length s) (s ++ t) ≡ t
drop-length [] t = refl
drop-length (c ∷ s) t = drop-length s t

take-length : (s t : Text) → take (length s) (s ++ t) ≡ s
take-length [] t = refl
take-length (c ∷ s) t = ap (◌∷◌ c) (take-length s t)

-- The lengths in the buffer.
module _ (n : ℕ) where
  abbrev pad : ℕ
  pad = padding n

  abbrev b64len : ℕ
  b64len = (pad + n + 2) / 3 * 4

  abbrev idx : ℕ
  idx = b64len - (pad + n)

  pad-le : pad + n ≤ b64len
  pad-le = omega arith

length-padded : (msg : Text) → length (padded_message msg) ≡ padding (length msg) + length msg
unfolding padded_message
length-padded msg =
    length-append (replicate (padding (length msg)) 0) msg
    ∙ ap (λ k. k + length msg) (length-replicate {A = ℕ} (padding (length msg)) 0)

even : (n : ℕ) → (padding n + n) % 16 ≡ 0
unfolding padding
even n = omega arith

-- The buffer after the move, and after the zeros are written.
abbrev front : Text → Text
front m = take (b64len (length m) - length m) (m ++ replicate (b64len (length m) - length m) 0)

length-front : (m : Text) → length (front m) ≡ b64len (length m) - length m
length-front m =
    let e =
      length-take (b64len (length m) - length m)
        (m ++ replicate (b64len (length m) - length m) 0) in
    let f = length-append m (replicate (b64len (length m) - length m) 0) in
    let g = length-replicate {A = ℕ} (b64len (length m) - length m) 0 in
    omega (arith, e, f, g, pad-le (length m))

moved_lem : (m : Text) → drop (idx (length m) + pad (length m)) (front m ++ m) ≡ m
moved_lem m =
    let e : idx (length m) + pad (length m) ≡ length (front m) =
      omega (arith, length-front m, pad-le (length m)) in
    rw e (drop-length (front m) m)

length-take-idx : (m : Text) → length (take (idx (length m)) (front m ++ m)) ≡ idx (length m)
length-take-idx m =
    let e = length-take (idx (length m)) (front m ++ m) in
    let f = length-append (front m) m in omega (arith, e, f, length-front m, pad-le (length m))

module _ (crypto : Crypto) (laws : EncodesInPlace crypto) where
  in_place_lem :
      (m key f : Text)
      → length f ≡ idx (length m)
      → crypto.encode_in_place
          (take (idx (length m)) (f ++ padded_message m)
            ++ crypto.encrypt key (drop (idx (length m)) (f ++ padded_message m)))
          (idx (length m))
        ≡ crypto.encode (crypto.encrypt key (padded_message m))
  in_place_lem m key f e =
      let p = padded_message m in
      let l = length-padded m in
      let k = laws.keeps_length key p (ap (λ n. n % 16) l ∙ even (length m)) in
      rw (← e, take-length f p, drop-length f p)
        (laws.in_place f (crypto.encrypt key p)
          (length-append f (crypto.encrypt key p) ∙ omega (arith, e, k, l, pad-le (length m))))

  encrypt_in_lem :
      (m key : Text)
      → encrypt_in crypto m key ≡ crypto.encode (crypto.encrypt key (padded_message m))
  unfolding encrypt_in
  encrypt_in_lem m key =
      let t = take-length m (replicate (b64len (length m) - length m) 0) in
      rw (encrypt_in, t, moved_lem m)
        (unfold padded_message in
          in_place_lem m key (take (idx (length m)) (front m ++ m)) (length-take-idx m))

  -- Where the packages do what they document, the buffer holds after GosaEncryptBuffer what GosaEncrypt
  -- returns for the text that it held before.
  pub gosa_encrypt_buffer_lem :
      (msg key : Text) → gosa_encrypt_buffer crypto msg key ≡ gosa_encrypt crypto msg key
  unfolding gosa_encrypt_buffer gosa_encrypt
  gosa_encrypt_buffer_lem [] key = refl
  gosa_encrypt_buffer_lem (c ∷ buf) key = encrypt_in_lem (c ∷ buf) key
