-- ===== src/Xml/Serial/Escape.antt =====
-- `escape` of go-susi/xml/xml_hash.go, and the five entities that XML has for its own characters.
use limux_gosa.Base.{
  ℕ, zero, suc, ◌≤◌, Bool, true, false, not, ◌||◌, all, [], ◌∷◌, ◌++◌, ◌==◌, length, drop,
  if◌then◌else◌, ◌≡◌, refl, ap, ◌∙◌, arith, inl, inr, Bool-cases,
}
use limux_gosa.Base.Text.{Text, codes, starts_with}
use limux_gosa.Xml.Serial.{entity, escape}

-- A text with its entities resolved, over at most so many characters.
unfoldable pub unescape : ℕ → Text → Text
unescape zero s = []
unescape (suc fuel) [] = []
unescape (suc fuel) (c ∷ s) =
    if starts_with (codes "&quot;") (c ∷ s)
    then 34 ∷ unescape fuel (drop 5 s)
    else if starts_with (codes "&apos;") (c ∷ s)
    then 39 ∷ unescape fuel (drop 5 s)
    else if starts_with (codes "&amp;") (c ∷ s)
    then b'&' ∷ unescape fuel (drop 4 s)
    else if starts_with (codes "&lt;") (c ∷ s)
    then b'<' ∷ unescape fuel (drop 3 s)
    else if starts_with (codes "&gt;") (c ∷ s)
    then b'>' ∷ unescape fuel (drop 3 s)
    else c ∷ unescape fuel s

-- No byte with which markup begins or ends.
abbrev pub is_plain : ℕ → Bool
is_plain c = not (c == 34 || c == 39 || c == b'<' || c == b'>')

not_entity :
    (fuel c : ℕ) (s : Text)
    → (c == b'&') ≡ false
    → unescape (suc fuel) (c ∷ s) ≡ c ∷ unescape fuel s
unfolding unescape
not_entity fuel c s h = let g : (b'&' == c) ≡ false = ground (arith, h) in rw g

-- What `escape` makes of a byte is read back as that byte.
unescape-entity :
    (fuel c : ℕ) (s : Text) → unescape (suc fuel) (entity c ++ s) ≡ c ∷ unescape fuel s
unfolding unescape
unescape-entity fuel c s = elim (Bool-cases (c == 34)) [
  | inl e ↦ let v : c ≡ 34 = ground (arith, e) in rw v
  | inr a ↦ elim (Bool-cases (c == 39)) [
    | inl e ↦ let v : c ≡ 39 = ground (arith, e) in rw v
    | inr b ↦ elim (Bool-cases (c == b'&')) [
      | inl e ↦ let v : c ≡ b'&' = ground (arith, e) in rw v
      | inr d ↦ elim (Bool-cases (c == b'<')) [
        | inl e ↦ let v : c ≡ b'<' = ground (arith, e) in rw v
        | inr g ↦ elim (Bool-cases (c == b'>')) [
          | inl e ↦ let v : c ≡ b'>' = ground (arith, e) in rw v
          | inr h ↦ rw (a, b, d, g, h) (not_entity fuel c s d)
        ]
      ]
    ]
  ]
]

unescape-escape : (fuel : ℕ) (s : Text) → length s ≤ fuel → unescape fuel (escape s) ≡ s
unfolding escape
unescape-escape zero [] h = unfold unescape in refl
unescape-escape (suc fuel) [] h = unfold unescape in refl
unescape-escape zero (c ∷ s) h = absurd (ground arith)
unescape-escape (suc fuel) (c ∷ s) h =
    unescape-entity fuel c (escape s) ∙ ap (λ t. c ∷ t) (unescape-escape fuel s (ground arith))

entity-plain : (c : ℕ) → all is_plain (entity c) ≡ true
entity-plain c = elim (Bool-cases (c == 34)) [
  | inl e ↦ rw e
  | inr a ↦ elim (Bool-cases (c == 39)) [
    | inl e ↦ rw (a, e)
    | inr b ↦ elim (Bool-cases (c == b'&')) [
      | inl e ↦ rw (a, b, e)
      | inr d ↦ elim (Bool-cases (c == b'<')) [
        | inl e ↦ rw (a, b, d, e)
        | inr g ↦ elim (Bool-cases (c == b'>')) [
          | inl e ↦ rw (a, b, d, g, e)
          | inr h ↦ rw (a, b, d, g, h) (ground arith)
        ]
      ]
    ]
  ]
]

all-append :
    (s t : Text) → all is_plain s ≡ true → all is_plain t ≡ true → all is_plain (s ++ t) ≡ true
all-append [] t h g = g
all-append (c ∷ s) t h g = ground (arith, all-append s t)

escape-plain : (s : Text) → all is_plain (escape s) ≡ true
unfolding escape
escape-plain [] = refl
escape-plain (c ∷ s) = all-append (entity c) (escape s) (entity-plain c) (escape-plain s)

-- Where the five entities are resolved in what `escape` makes of a text, the text comes back, and it has no
-- quotation mark, `<` or `>` that could end a text or an attribute.
pub escape_lem :
    (s : Text) → (unescape (length s) (escape s) ≡ s) × (all is_plain (escape s) ≡ true)
escape_lem s = (unescape-escape (length s) s (omega arith), escape-plain s)
