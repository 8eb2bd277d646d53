-- ===== src/Audit/PropTree/Tags.antt =====
-- The names in the leaves of the search tree of go-susi/db/audit.go, and where the tree has its leaves.
use limux_gosa.Base.{
  ℕ, Bool, true, false, none, some, [], ◌∷◌, ◌++◌, ◌==◌, if◌then◌else◌, ◌≡◌, refl, sym, ◌∙◌, subst,
  arith, inl, inr, Bool-cases, Option-cases, eq_of_some,
}
use limux_gosa.Base.Text.{Text, text_eq}
use limux_gosa.Audit.PropTree.{
  ElementTree, node, Links, nil, link, name_of, position_of, links_of, find, Position, found,
  missing, panicked, find_index, closes, has_close,
}

-- The names of leaves: a `>` stands at the end, and nowhere else.
unfoldable pub is_tag : Text → Bool
is_tag [] = false
is_tag (c ∷ s) = if c == b'>' then text_eq s [] else is_tag s

-- Two texts with the same front differ where the rest does.
pub text_eq-append : (a s t : Text) → text_eq (a ++ s) (a ++ t) ≡ text_eq s t
unfolding text_eq
text_eq-append [] s t = refl
text_eq-append (c ∷ a) s t = ground (arith, text_eq-append a s t)

is_tag_step :
    (c d : ℕ) (s : Text)
    → is_tag (c ∷ d ∷ s) ≡ true
    → ((c == b'>') ≡ false) × (is_tag (d ∷ s) ≡ true)
unfolding is_tag text_eq
is_tag_step c d s h = ground arith

pub is_tag_last : (c : ℕ) (s : Text) → is_tag (c ∷ s) ≡ true → (c == b'>') ≡ true → s ≡ []
unfolding is_tag text_eq
is_tag_last c [] h e = refl
is_tag_last c (d ∷ s) h e = cc ((is_tag_step c d s h).0, e)

pub is_tag-suffix :
    (a : Text) (c : ℕ) (s : Text) → is_tag (a ++ c ∷ s) ≡ true → is_tag (c ∷ s) ≡ true
is_tag-suffix [] c s h = h
is_tag-suffix (d ∷ []) c s h = (is_tag_step d c s h).1
is_tag-suffix (d ∷ e ∷ a) c s h = is_tag-suffix (e ∷ a) c s (is_tag_step d e (a ++ c ∷ s) h).1

is_tag-closes : (s : Text) → is_tag s ≡ true → closes s ≡ true
unfolding is_tag closes text_eq
is_tag-closes [] h = h
is_tag-closes (c ∷ []) h = ground arith
is_tag-closes (c ∷ d ∷ s) h = ground (arith, is_tag-closes (d ∷ s))

pub has_close-snoc :
    (a : Text) (c : ℕ) → has_close a ≡ false → (c == b'>') ≡ false → has_close (a ++ c ∷ []) ≡ false
has_close-snoc [] c h e = ground arith
has_close-snoc (d ∷ a) c h e = ground (arith, has_close-snoc a c)

pub last-has_close : (a : Text) (c : ℕ) → has_close (a ++ c ∷ []) ≡ false → (c == b'>') ≡ false
last-has_close [] c h = ground arith
last-has_close (d ∷ a) c h = ground (arith, last-has_close a c)

-- A node without a name stands where no `>` has been read; a leaf has a name that begins with what has
-- been read.
mutual
  pub data IsGood : Text → Links → Type 0 where
    good :
        {a : Text} {l : Links}
        → has_close a ≡ false
        → ((c : ℕ) (t : ElementTree) → find c l ≡ some t → IsGoodNode a c t)
        → IsGood a l

  pub data IsGoodNode : Text → ℕ → ElementTree → Type 0 where
    inner : {a : Text} {c i : ℕ} {l : Links} → IsGood (a ++ c ∷ []) l → IsGoodNode a c (node [] i l)
    leaf :
        {a : Text} {c i : ℕ} {n : Text} (s : Text)
        → n ≡ a ++ c ∷ s
        → is_tag n ≡ true
        → IsGoodNode a c (node n i nil)

pub IsGood-nil : IsGood [] nil
unfolding find
IsGood-nil = good refl (λ c t e. cc e)

-- The entry that stood first, or the new one.
abbrev pub or_found : Position → ℕ → Position
or_found (found i) p = found i
or_found missing p = found p
or_found panicked p = panicked

abbrev pub after_insert : Text → ℕ → Text → Position → Position
after_insert name p m old = if text_eq m name then or_found old p else old

-- The links after a name has come in.
abbrev pub IsInserted : Text → Text → ℕ → Links → Links → Type 0
IsInserted a name p l l' =
    IsGood a l'
    × ((m : Text) (d : ℕ) (r : Text)
        → m ≡ a ++ d ∷ r
        → closes (d ∷ r) ≡ true
        → find_index m (d ∷ r) l' ≡ after_insert name p m (find_index m (d ∷ r) l))

pub parts :
    {a : Text} {l : Links}
    → IsGood a l
    → (has_close a ≡ false) × ((c : ℕ) (t : ElementTree) → find c l ≡ some t → IsGoodNode a c t)
parts (good h f) = (h, f)

pub find_same : (c : ℕ) (t : ElementTree) (l : Links) → find c (link c t l) ≡ some t
unfolding find
find_same c t l = let same : (c == c) ≡ true = ground arith in rw (same, find)

find_other :
    (c d : ℕ) (t : ElementTree) (l : Links) → (d == c) ≡ false → find d (link c t l) ≡ find d l
unfolding find
find_other c d t l e = rw (e, find)

pub find_index-none :
    (m : Text) (c : ℕ) (r : Text) (l : Links) → find c l ≡ none → find_index m (c ∷ r) l ≡ missing
unfolding find_index
find_index-none m c r l e = rw (e, find_index)

find_index-some :
    (m : Text) (c : ℕ) (r : Text) (l : Links) (t : ElementTree)
    → find c l ≡ some t
    → find_index m (c ∷ r) l ≡ (
        if text_eq (name_of t) []
        then find_index m r (links_of t)
        else if text_eq (name_of t) m
        then found (position_of t)
        else missing)
unfolding find_index
find_index-some m c r l t e = rw (e, find_index)

pub find_index_other :
    (m : Text) (c d : ℕ) (r : Text) (t : ElementTree) (l : Links)
    → (d == c) ≡ false
    → find_index m (d ∷ r) (link c t l) ≡ find_index m (d ∷ r) l
find_index_other m c d r t l e = elim (Option-cases (find d l)) [
  | inl q ↦
      find_index-none m d r (link c t l) (find_other c d t l e ∙ q)
      ∙ sym (find_index-none m d r l q)
  | inr (u, q) ↦
      find_index-some m d r (link c t l) u (find_other c d t l e ∙ q)
      ∙ sym (find_index-some m d r l u q)
]

pub find_index_leaf :
    (m : Text) (c i : ℕ) (r n : Text) (l below : Links)
    → text_eq n [] ≡ false
    → find c l ≡ some (node n i below)
    → find_index m (c ∷ r) l ≡ (if text_eq n m then found i else missing)
find_index_leaf m c i r n l below e q = find_index-some m c r l (node n i below) q ∙ rw e

pub find_index_inner :
    (m : Text) (c i : ℕ) (r : Text) (l below : Links)
    → find c l ≡ some (node [] i below)
    → find_index m (c ∷ r) l ≡ find_index m r below
unfolding text_eq
find_index_inner m c i r l below q = find_index-some m c r l (node [] i below) q

pub IsGood-link :
    (a : Text) (c : ℕ) (t : ElementTree) (l : Links)
    → IsGood a l
    → IsGoodNode a c t
    → IsGood a (link c t l)
IsGood-link a c t l (good h f) g = good h (λ d u e. elim (Bool-cases (d == c)) [
  | inl q ↦
      let same : d ≡ c = ground arith in
      subst (IsGoodNode a d)
        (eq_of_some (sym (find_same c t l) ∙ subst (λ k. find k (link c t l) ≡ some u) same e))
        (subst (λ k. IsGoodNode a k t) (sym same) g)
  | inr q ↦ f d u (sym (find_other c d t l q) ∙ e)
])

pub closes_one : (c : ℕ) → closes (c ∷ []) ≡ true → (c == b'>') ≡ true
unfolding closes
closes_one c h = h

pub closes_step : (c d : ℕ) (r : Text) → closes (c ∷ d ∷ r) ≡ true → closes (d ∷ r) ≡ true
unfolding closes
closes_step c d r h = h
