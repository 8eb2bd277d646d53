-- ===== src/Security/Crypt/RoundTrip.antt =====
-- `GosaDecrypt` of go-susi/security/gosacrypt.go takes back what `GosaEncrypt` has made.
use limux_gosa.Base.{
  ℕ, zero, suc, ◌+◌, ◌%◌, Bool, true, false, not, ◌&&◌, ◌==◌, length, length-append,
  length-replicate, replicate, [], ◌∷◌, ◌++◌, drop_while, drop_while_end, cons_unless, all, ◌≡◌,
  refl, subst, ap, ◌∙◌, arith,
}
use limux_gosa.Base.Text.{Text}
use limux_gosa.Security.Context.Verify.{has_prefix}
use limux_gosa.Security.Crypt.{
  Crypto, padding, padded_message, is_space, is_zero, is_separator, is_xml, trim_space, cut,
  gosa_encrypt, gosa_decrypt, decrypt_cyphertext,
}

-- A character that base64 may write: no white space, none that ends the message, and not "<".
abbrev pub is_plain : ℕ → Bool
is_plain c = not (is_space c) && not (is_separator c) && not (c == b'<')

-- What the packages behind `Crypto` document.
pub record IsLawful (crypto : Crypto) : Type 0 where
  pub decrypt-encrypt :
      (key s : Text) → length s % 16 ≡ 0 → crypto.decrypt key (crypto.encrypt key s) ≡ s
  pub length-encrypt : (key s : Text) → length s % 16 ≡ 0 → length (crypto.encrypt key s) ≡ length s
  pub decode-encode : (s : Text) → crypto.decode (crypto.encode s) ≡ s
  pub encode-IsPlain : (s : Text) → all is_plain (crypto.encode s) ≡ true

padding_lem : (n : ℕ) → (padding n + n) % 16 ≡ 0
unfolding padding
padding_lem n = omega arith

length-padded_message : (msg : Text) → length (padded_message msg) % 16 ≡ 0
unfolding padded_message
length-padded_message msg =
    rw
      (
        length-append (replicate (padding (length msg)) 0) msg,
        length-replicate {A = ℕ} (padding (length msg)) 0,
      )
      (padding_lem (length msg))

drop_while-plain : (s : Text) → all is_plain s ≡ true → drop_while is_space s ≡ s
drop_while-plain [] p = refl
drop_while-plain (c ∷ s) p = ground arith

cons_unless-false : (c : ℕ) (s : Text) → cons_unless false c s ≡ c ∷ s
cons_unless-false c [] = refl
cons_unless-false c (d ∷ s) = refl

plain_split :
    (c : ℕ) (s : Text)
    → all is_plain (c ∷ s) ≡ true
    → (is_space c ≡ false) × (is_plain c ≡ true) × (all is_plain s ≡ true)
plain_split c s p = ground arith

drop_while_end-plain : (s : Text) → all is_plain s ≡ true → drop_while_end is_space s ≡ s
drop_while_end-plain [] p = refl
drop_while_end-plain (c ∷ s) p =
    let (e, _, q) = plain_split c s p in rw (drop_while_end-plain s q, e) (cons_unless-false c s)

cut-plain : (s : Text) → all is_plain s ≡ true → cut s ≡ s
unfolding cut
cut-plain [] p = refl
cut-plain (c ∷ s) p = ground (arith, cut-plain s)

is_xml-plain : (s : Text) → all is_plain s ≡ true → is_xml s ≡ false
unfolding has_prefix
is_xml-plain [] p = refl
is_xml-plain (c ∷ s) p = ground arith

drop_zeros : (n : ℕ) (s : Text) → drop_while is_zero (replicate n 0 ++ s) ≡ drop_while is_zero s
drop_zeros zero s = refl
drop_zeros (suc n) s = drop_zeros n s

-- A text that reads as XML once white space is taken off its start does not start with 0.
xml_start : (s : Text) → is_xml (trim_space s) ≡ true → drop_while is_zero s ≡ s
unfolding trim_space has_prefix
xml_start [] e = refl
xml_start (zero ∷ s) e =
    let r = cons_unless-false zero (drop_while_end is_space s) in
    let f : false ≡ true = subst (λ t. is_xml t ≡ true) r e in cc
xml_start (suc c ∷ s) e = ground arith

empty_not_xml : is_xml (trim_space []) ≡ false
unfolding trim_space has_prefix
empty_not_xml = refl

module _ (crypto : Crypto) (laws : IsLawful crypto) where
  open crypto use {encrypt, decrypt, encode, decode}

  decrypt_cyphertext-encrypt :
      (msg key : Text)
      → is_xml (trim_space msg) ≡ true
      → drop_while_end is_zero msg ≡ msg
      → decrypt_cyphertext crypto (encrypt key (padded_message msg)) key ≡ trim_space msg
  unfolding decrypt_cyphertext
  decrypt_cyphertext-encrypt msg key x z =
      let even = length-padded_message msg in
      let whole : length (encrypt key (padded_message msg)) % 16 ≡ 0 =
        ap (λ n. n % 16) (laws.length-encrypt key (padded_message msg) even) ∙ even in
      let plain : drop_while_end is_zero (drop_while is_zero (padded_message msg)) ≡ msg =
        unfold padded_message in
        (ap (drop_while_end is_zero) (drop_zeros (padding (length msg)) msg ∙ xml_start msg x)
          ∙ z) in
      rw (laws.decrypt-encrypt key (padded_message msg) even, whole, plain, x)

  encoded : (s key : Text) → gosa_decrypt crypto (encode s) key ≡ decrypt_cyphertext crypto s key
  unfolding gosa_decrypt trim_space
  encoded s key =
      let p = laws.encode-IsPlain s in
      rw (
        drop_while-plain (encode s) p,
        drop_while_end-plain (encode s) p,
        is_xml-plain (encode s) p,
        cut-plain (encode s) p,
        laws.decode-encode s,
      )

  -- A message that begins with "<xml>", white space aside, and does not end in 0 comes back from
  -- GosaEncrypt and GosaDecrypt under one key, without the white space around it.
  pub gosa_decrypt-gosa_encrypt :
      (msg key : Text)
      → is_xml (trim_space msg) ≡ true
      → drop_while_end is_zero msg ≡ msg
      → gosa_decrypt crypto (gosa_encrypt crypto msg key) key ≡ trim_space msg
  unfolding gosa_encrypt
  gosa_decrypt-gosa_encrypt [] key x z = cc (x, empty_not_xml)
  gosa_decrypt-gosa_encrypt (c ∷ msg) key x z =
      encoded (encrypt key (padded_message (c ∷ msg))) key
      ∙ decrypt_cyphertext-encrypt (c ∷ msg) key x z
