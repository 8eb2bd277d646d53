-- ===== src/Xml/Filter/Likeness.antt =====
-- The operator "like" of go-susi/xml/xml_filter.go, told from its pattern as it is written.
use limux_gosa.Base.{
  ℕ, Bool, true, false, not, ◌&&◌, ◌||◌, List, [], ◌∷◌, ◌==◌, if◌then◌else◌, any, ◌≡◌, ◌≢◌, ◌↔◌,
  ◌⊎◌, inl, inr, refl, ap, sym, ◌∙◌, subst, some, ==_iff, arith, Bool-cases,
}
use limux_gosa.Base.Text.{Text, lower}
use limux_gosa.Xml.Hash.{Hash, get}
use limux_gosa.Xml.Filter.{literal, any_char, filter_regexp, some_suffix, match_string, like_meta}

-- The tests of one character of a pattern, for what the rest of it accepts.
abbrev skip : (Text → Bool) → Text → Bool
skip rest [] = rest []
skip rest (d ∷ t) = rest (d ∷ t) || (not (d == b'\n') && skip rest t)

abbrev skip_one : (Text → Bool) → Text → Bool
skip_one rest [] = false
skip_one rest (d ∷ t) = not (d == b'\n') && rest t

abbrev skip_same : ℕ → (Text → Bool) → Text → Bool
skip_same c rest [] = false
skip_same c rest (d ∷ t) = lower c == lower d && rest t

-- Whether a text is like a pattern: "%" stands for any run of characters, "_" for one, none of them a
-- newline, and any other character for itself, in either case.
abbrev pub likes : Text → Text → Bool
likes [] [] = true
likes [] (d ∷ t) = false
likes (c ∷ p) t =
    let rest = likes p in
    if c == b'%' then skip rest t else if c == b'_' then skip_one rest t else skip_same c rest t

suffix_skip : (f g : Text → Bool) (t : Text) → ((u : Text) → f u ≡ g u) → some_suffix f t ≡ skip g t
unfolding some_suffix
suffix_skip f g [] e = e []
suffix_skip f g (d ∷ t) e = rw (e (d ∷ t), suffix_skip f g t e) refl

one_lem :
    (p t : Text)
    → ((u : Text) → match_string (like_meta p) u ≡ likes p u)
    → match_string (any_char ∷ like_meta p) t ≡ skip_one (likes p) t
unfolding match_string
one_lem p [] e = refl
one_lem p (d ∷ t) e = ap (λ b. not (d == b'\n') && b) (e t)

same_lem :
    (c : ℕ) (p t : Text)
    → ((u : Text) → match_string (like_meta p) u ≡ likes p u)
    → match_string (literal c ∷ like_meta p) t ≡ skip_same c (likes p) t
unfolding match_string
same_lem c p [] e = refl
same_lem c p (d ∷ t) e = ap (λ b. lower c == lower d && b) (e t)

pub like_meta-likes : (p t : Text) → match_string (like_meta p) t ≡ likes p t
unfolding match_string like_meta
like_meta-likes [] [] = refl
like_meta-likes [] (d ∷ t) = refl
like_meta-likes (c ∷ p) t = elim (Bool-cases (c == b'%')) [
  | inl e ↦ rw e (suffix_skip (match_string (like_meta p)) (likes p) t (like_meta-likes p))
  | inr e ↦ elim (Bool-cases (c == b'_')) [
    | inl f ↦ rw (e, f) (one_lem p t (like_meta-likes p))
    | inr f ↦ rw (e, f) (same_lem c p t (like_meta-likes p))
  ]
]

-- The texts that a pattern stands for.
pub data Likes : Text → Text → Type 0 where
  ended : Likes [] []
  same :
      {c d : ℕ} {p t : Text}
      → c ≢ b'%'
      → c ≢ b'_'
      → lower c ≡ lower d
      → Likes p t
      → Likes (c ∷ p) (d ∷ t)
  one : {d : ℕ} {p t : Text} → d ≢ b'\n' → Likes p t → Likes (b'_' ∷ p) (d ∷ t)
  stop : {p t : Text} → Likes p t → Likes (b'%' ∷ p) t
  more : {d : ℕ} {p t : Text} → d ≢ b'\n' → Likes (b'%' ∷ p) t → Likes (b'%' ∷ p) (d ∷ t)

skip-Likes :
    (p : Text)
    → ((t : Text) → likes p t ≡ true → Likes p t)
    → (t : Text) → skip (likes p) t ≡ true
    → Likes (b'%' ∷ p) t
skip-Likes p f [] h = stop (f [] h)
skip-Likes p f (d ∷ t) h = elim (Bool-cases (likes p (d ∷ t))) [
  | inl e ↦ stop (f (d ∷ t) e)
  | inr e ↦ more (ground (arith, e, h)) (skip-Likes p f t (ground (arith, e, h)))
]

skip_one-Likes :
    (p : Text)
    → ((t : Text) → likes p t ≡ true → Likes p t)
    → (t : Text) → skip_one (likes p) t ≡ true
    → Likes (b'_' ∷ p) t
skip_one-Likes p f [] h = absurd (cc h)
skip_one-Likes p f (d ∷ t) h = one (ground (arith, h)) (f t (ground (arith, h)))

skip_same-Likes :
    (c : ℕ) (p : Text)
    → c ≢ b'%'
    → c ≢ b'_'
    → ((t : Text) → likes p t ≡ true → Likes p t)
    → (t : Text) → skip_same c (likes p) t ≡ true
    → Likes (c ∷ p) t
skip_same-Likes c p n m f [] h = absurd (cc h)
skip_same-Likes c p n m f (d ∷ t) h = same n m (ground (arith, h)) (f t (ground (arith, h)))

likes-Likes : (p t : Text) → likes p t ≡ true → Likes p t
likes-Likes [] [] h = ended
likes-Likes [] (d ∷ t) h = absurd (cc h)
likes-Likes (c ∷ p) t h = elim (Bool-cases (c == b'%')) [
  | inl e ↦
      subst (λ x. Likes (x ∷ p) t) (sym ((==_iff c b'%').0 e))
        (skip-Likes p (likes-Likes p) t (rw e at h))
  | inr e ↦ elim (Bool-cases (c == b'_')) [
    | inl f ↦
        subst (λ x. Likes (x ∷ p) t) (sym ((==_iff c b'_').0 f))
          (skip_one-Likes p (likes-Likes p) t (rw (e, f) at h))
    | inr f ↦
        skip_same-Likes c p (ground (arith, e)) (ground (arith, f)) (likes-Likes p) t
          (rw (e, f) at h)
  ]
]

skip_here : (rest : Text → Bool) (t : Text) → rest t ≡ true → skip rest t ≡ true
skip_here rest [] h = h
skip_here rest (d ∷ t) h = rw h refl

Likes-likes : {p t : Text} → Likes p t → likes p t ≡ true
Likes-likes ended = refl
Likes-likes (same {c} {d} {p} {t} n m e l) = ground (arith, n, m, e, Likes-likes l)
Likes-likes (one {d} {p} {t} n l) = ground (arith, n, Likes-likes l)
Likes-likes (stop {p} {t} l) = skip_here (likes p) t (Likes-likes l)
Likes-likes (more {d} {p} {t} n l) = ground (arith, n, Likes-likes l)

-- One of the values is like the pattern.
abbrev pub OneLikes : Text → List Text → Type 0
OneLikes v [] = ⊥
OneLikes v (x ∷ xs) = Likes v x ⊎ OneLikes v xs

any-OneLikes :
    (v : Text) (xs : List Text) → any (match_string (like_meta v)) xs ≡ true → OneLikes v xs
any-OneLikes v [] h = absurd (cc h)
any-OneLikes v (x ∷ xs) h = elim (Bool-cases (match_string (like_meta v) x)) [
  | inl e ↦ inl (likes-Likes v x (sym (like_meta-likes v x) ∙ e))
  | inr e ↦ inr (any-OneLikes v xs (rw e at h))
]

OneLikes-any :
    (v : Text) (xs : List Text) → OneLikes v xs → any (match_string (like_meta v)) xs ≡ true
OneLikes-any v [] h = absurd h
OneLikes-any v (x ∷ xs) (inl l) = rw (like_meta-likes v x, Likes-likes l) refl
OneLikes-any v (x ∷ xs) (inr l) = ground (arith, OneLikes-any v xs l)

-- The filter of "like" accepts an item exactly if one of the texts of the column is of the form of the
-- pattern: any run of characters for "%", one character for "_", none of them a newline, and for each other
-- character that character in either case.
pub filter_like_iff :
    (column v : Text) (h : Hash)
    → (filter_regexp column (like_meta v) (some h) ≡ true) ↔ OneLikes v (get h (column ∷ []))
unfolding filter_regexp
filter_like_iff column v h =
    (any-OneLikes v (get h (column ∷ [])), OneLikes-any v (get h (column ∷ [])))
