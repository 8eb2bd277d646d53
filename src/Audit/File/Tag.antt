-- ===== src/Audit/File/Tag.antt =====
-- The tags of an entry that `auditScanFile` of go-susi/db/audit.go reads.
use limux_gosa.Base.{
  ℕ, suc, ◌+◌, Bool, true, false, not, ◌&&◌, [], ◌∷◌, ◌++◌, ◌==◌, ltb, leb, length, drop, ◌≡◌, refl,
  ap, ◌∙◌, arith, inl, inr, Bool-cases, if◌then◌else◌, ◌⊎◌, Option-cases, length-append, all,
}
use limux_gosa.Base.Text.{starts_with, Text, text_eq, text_eq_iff}
use limux_gosa.Audit.{until, before}
use limux_gosa.Audit.PropTree.{
  ElementTree, Links, Position, found, missing, panicked, name_of, position_of, links_of, find,
  find_index,
}
use limux_gosa.Audit.File.{leaf, look_up, skip_to_tag, advance, value, read_leaf, read_child}

abbrev place : Position → ℕ
place (found i) = i
place missing = 0
place panicked = 0

position_found : (i j : ℕ) → found i ≡ found j → i ≡ j
position_found i j h = ap place h

-- A branch of the walk, for the node behind a link.
index_step :
    (t : ElementTree) (name : Text) (p : Position) (i : ℕ)
    → (if text_eq (name_of t) []
        then p
        else if text_eq (name_of t) name
        then found (position_of t)
        else missing)
      ≡ found i
    → (((text_eq (name_of t) []) ≡ true) × (p ≡ found i))
      ⊎ (((text_eq (name_of t) []) ≡ false) × (name_of t ≡ name) × (position_of t ≡ i))
index_step t name p i h = elim (Bool-cases (text_eq (name_of t) [])) [
  | inl g ↦ inl (g, rw g at h)
  | inr g ↦ elim (Bool-cases (text_eq (name_of t) name)) [
    | inl e ↦
        inr
          (g, (text_eq_iff (name_of t) name).0 e, position_found (position_of t) i (rw (g, e) at h))
    | inr e ↦ let missing_is_found : missing ≡ found i = rw (g, e) at h in cc missing_is_found
  ]
]

-- Where `IndexOf` finds a name, the walk over a file that goes on with the name ends at its node.
pub look_up-find_index :
    (name s rest : Text) (l : Links) (i : ℕ)
    → find_index name s l ≡ found i
    → (t : ElementTree) × (look_up (s ++ rest) l ≡ leaf t)
      × (name_of t ≡ name)
      × (position_of t ≡ i)
unfolding find_index look_up
look_up-find_index name [] rest l i h = cc h
look_up-find_index name (c ∷ s) rest l i h = elim (Option-cases (find c l)) [
  | inl e ↦
      let missing_is_found : missing ≡ found i = rw (e, find_index) at h in cc missing_is_found
  | inr (t, e) ↦
      elim (index_step t name (find_index name s (links_of t)) i (rw (e, find_index) at h)) [
        | inl (g, h') ↦
            let (u, a, b, d) = look_up-find_index name s rest (links_of t) i h' in
            (u, rw (e, g, look_up) a, b, d)
        | inr (g, a, b) ↦ (t, rw (e, g, look_up), a, b)
      ]
]

pub starts_with-append : (s t : Text) → starts_with s (s ++ t) ≡ true
starts_with-append [] t = refl
starts_with-append (c ∷ s) t = ground (arith, starts_with-append s t)

pub drop-append : (s t : Text) → drop (length s) (s ++ t) ≡ t
drop-append [] t = refl
drop-append (c ∷ s) t = drop-append s t

not_and : (a b : Bool) → (not a && b) ≡ true → (a ≡ false) × (b ≡ true)
not_and true b h = cc h
not_and false b h = (refl, h)

pub and_cases : (a b : Bool) → (a && b) ≡ true → (a ≡ true) × (b ≡ true)
and_cases true b h = (refl, h)
and_cases false b h = cc h

pub before-append :
    (c : ℕ) (v t : Text) → all (λ d. not (d == c)) v ≡ true → before c (v ++ c ∷ t) ≡ v
unfolding before
before-append c [] t h = ground arith
before-append c (d ∷ v) t h =
    let (g, h') = not_and (d == c) (all (λ d. not (d == c)) v) h in
    rw g (ap (◌∷◌ d) (before-append c v t h'))

pub until-append :
    (c : ℕ) (v t : Text) → all (λ d. not (d == c)) v ≡ true → until c (v ++ c ∷ t) ≡ c ∷ t
until-append c [] t h = ground arith
until-append c (d ∷ v) t h = ground (arith, until-append c v t)

abbrev pub last_of : ℕ → Text → ℕ
last_of p [] = p
last_of p (c ∷ s) = last_of c s

pub advance-append : (p : ℕ) (s t : Text) → advance p (length s) (s ++ t) ≡ (last_of p s, t)
unfolding advance
advance-append p [] t = refl
advance-append p (c ∷ s) t = advance-append c s t

-- Bytes up to `<` are passed over in front of a tag.
pub skip_to_tag-append :
    (p : ℕ) (gap s : Text)
    → all (λ d. leb d b'<') gap ≡ true
    → skip_to_tag p (gap ++ (b'<' ∷ s)) ≡ skip_to_tag b'<' s
unfolding skip_to_tag
skip_to_tag-append p [] s h = refl
skip_to_tag-append p (d ∷ gap) s h =
    let (g, h') = and_cases (leb d b'<') (all (λ d. leb d b'<') gap) h in
    rw g (skip_to_tag-append d gap s h')

not_shorter : (s t : Text) → ltb (length (s ++ t)) (length s) ≡ false
not_shorter s t = ground (arith, length-append s t)

-- A tag that the node names, by what follows it.
read_leaf-named :
    (prev : ℕ) (t : ElementTree) (s v : Text) (last : ℕ) (rest : Text)
    → ltb (length s) (length (name_of t)) ≡ false
    → starts_with (name_of t) s ≡ true
    → before b'<' (drop (length (name_of t)) s) ≡ v
    → advance 0 (length (name_of t) + 2) (until b'<' (drop (length (name_of t)) s)) ≡ (last, rest)
    → read_leaf prev t s ≡ value (position_of t) v last rest
unfolding read_leaf
read_leaf-named prev t s v last rest a b c d = rw (a, b, c, d)

advance-end_tag :
    (name rest : Text)
    → advance 0 (length name + 2) (b'<' ∷ b'/' ∷ (name ++ rest)) ≡ (last_of b'/' name, rest)
unfolding advance
advance-end_tag name rest =
    let two : length name + 2 ≡ suc (suc (length name)) = omega arith in
    rw two (advance-append b'/' name rest)

read_child-leaf :
    (prev : ℕ) (tree : Links) (s : Text) (t : ElementTree)
    → look_up s tree ≡ leaf t
    → read_child prev tree s ≡ read_leaf prev t s
unfolding read_child
read_child-leaf prev tree s t e = rw (e, read_child)

-- A tag with its value and its end tag, for a name that the tree has at place i.
pub read_child-element :
    (name : Text) (prev : ℕ) (tree : Links) (i : ℕ) (v rest : Text)
    → find_index name name tree ≡ found i
    → all (λ d. not (d == b'<')) v ≡ true
    → read_child prev tree (name ++ (v ++ (b'<' ∷ b'/' ∷ (name ++ rest))))
      ≡ value i v (last_of b'/' name) rest
read_child-element name prev tree i v rest h g =
    let close : Text = b'/' ∷ (name ++ rest) in
    let (t, e, n, p) =
      look_up-find_index name name (v ++ (b'<' ∷ b'/' ∷ (name ++ rest))) tree i h in
    let dropped : drop (length name) (name ++ (v ++ (b'<' ∷ close))) ≡ v ++ b'<' ∷ close =
      drop-append name (v ++ (b'<' ∷ close)) in
    read_child-leaf prev tree (name ++ (v ++ (b'<' ∷ close))) t e
    ∙ (read_leaf-named prev t (name ++ (v ++ (b'<' ∷ close))) v (last_of b'/' name) rest
          (rw n (not_shorter name (v ++ (b'<' ∷ close))))
          (rw n (starts_with-append name (v ++ (b'<' ∷ close))))
          (rw n (rw dropped (before-append b'<' v close g)))
          (rw n (rw (dropped, until-append b'<' v close g) (advance-end_tag name rest)))
        ∙ ap (λ k. value k v (last_of b'/' name) rest) p)
