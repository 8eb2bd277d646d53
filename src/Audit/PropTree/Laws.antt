-- ===== src/Audit/PropTree/Laws.antt =====
-- What `IndexOf` finds in a tree of `makePropTree`.
use limux_gosa.Base.{
  ℕ, suc, Bool, true, false, some, List, [], ◌∷◌, ◌++◌, if◌then◌else◌, ◌≡◌, refl, sym, ap, ◌∙◌,
  arith, inl, inr, Bool-cases, ◌&&◌, not,
}
use limux_gosa.Base.Text.{Text, text_eq, text_eq_iff}
use limux_gosa.Audit.PropTree.{
  Links, nil, find, Position, found, missing, panicked, find_index, closes, index_of, insert_name,
  has_close, add_name, add_names, make_prop_tree,
}
use limux_gosa.Audit.PropTree.Tags.{IsGood, IsGood-nil, IsInserted, is_tag, or_found}
use limux_gosa.Audit.PropTree.Insert.{insert_name_lem}
use limux_gosa.Audit.PropTree.Step.{Inserts}

-- The names that `makePropTree` takes.
abbrev pub is_usable : Text → Bool
is_usable name = not (text_eq name []) && not (has_close name)

-- The place of the first name that reads as this one with a `>` behind it.
unfoldable pub first_index : List Text → ℕ → Text → Position
first_index [] p m = missing
first_index (name ∷ names) p m =
    let rest = first_index names (suc p) m in
    if is_usable name && text_eq m (name ++ b'>' ∷ []) then found p else rest

is_tag-snoc : (c : ℕ) (s : Text) → has_close (c ∷ s) ≡ false → is_tag (c ∷ (s ++ b'>' ∷ [])) ≡ true
unfolding is_tag text_eq
is_tag-snoc c [] h = ground arith
is_tag-snoc c (d ∷ s) h = ground (arith, is_tag-snoc d s)

pub closes-snoc : (s : Text) → closes (s ++ b'>' ∷ []) ≡ true
unfolding closes
closes-snoc [] = refl
closes-snoc (c ∷ []) = refl
closes-snoc (c ∷ d ∷ s) = closes-snoc (d ∷ s)

abbrev or_later : Position → Position → Position
or_later (found i) q = found i
or_later missing q = q
or_later panicked q = panicked

-- What one name adds.
abbrev entry_of : Text → ℕ → Text → Position
entry_of name p m = if is_usable name && text_eq m (name ++ b'>' ∷ []) then found p else missing

abbrev Adds : Text → ℕ → Links → Type 0
Adds name p l =
    (l' : Links) × (add_name name p l ≡ some l')
    × IsGood [] l'
    × ((m : Text)
        → closes m ≡ true
        → find_index m m l' ≡ or_later (find_index m m l) (entry_of name p m))

or_later_missing : (q : Position) → or_later q missing ≡ q
or_later_missing (found i) = refl
or_later_missing missing = refl
or_later_missing panicked = refl

insert_later :
    (b : Bool) (old : Position) (p : ℕ)
    → (if b then or_found old p else old) ≡ or_later old (if b then found p else missing)
insert_later true (found i) p = refl
insert_later true missing p = refl
insert_later true panicked p = refl
insert_later false old p = sym (or_later_missing old)

find_index_later :
    (name : Text) (p : ℕ) (l l' : Links)
    → is_usable name ≡ true
    → IsInserted [] (name ++ b'>' ∷ []) p l l'
    → (m : Text) → closes m ≡ true
    → find_index m m l' ≡ or_later (find_index m m l) (entry_of name p m)
unfolding closes
find_index_later name p l l' u (g, same) [] cl = cc cl
find_index_later name p l l' u (g, same) (d ∷ r) cl = rw u (
    same (d ∷ r) d r refl cl
    ∙ insert_later (text_eq (d ∷ r) (name ++ b'>' ∷ [])) (find_index (d ∷ r) (d ∷ r) l) p)

add_name_skipped :
    (name : Text) (p : ℕ) (l : Links) → is_usable name ≡ false → add_name name p l ≡ some l
unfolding add_name
add_name_skipped name p l u = ground arith

add_name_taken :
    (name : Text) (p : ℕ) (l : Links)
    → is_usable name ≡ true
    → add_name name p l ≡ insert_name (name ++ b'>' ∷ []) p 0 (name ++ b'>' ∷ []) l
unfolding add_name
add_name_taken name p l u = ground arith

insert_usable :
    (name : Text) (p : ℕ) (l : Links)
    → is_usable name ≡ true
    → IsGood [] l
    → Inserts [] (name ++ b'>' ∷ []) p (name ++ b'>' ∷ []) l
unfolding text_eq
insert_usable [] p l u g = cc u
insert_usable (c ∷ s) p l u g =
    let h : has_close (c ∷ s) ≡ false = ground arith in
    insert_name_lem (s ++ b'>' ∷ []) [] (c ∷ (s ++ b'>' ∷ [])) c p l refl (is_tag-snoc c s h) g

add_name_lem : (name : Text) (p : ℕ) (l : Links) → IsGood [] l → Adds name p l
add_name_lem name p l g = elim (Bool-cases (is_usable name)) [
  | inr u ↦
      (l, add_name_skipped name p l u, g, λ m cl. rw u (sym (or_later_missing (find_index m m l))))
  | inl u ↦
      let (l', e, ins) = insert_usable name p l u g in
      (l', add_name_taken name p l u ∙ e, ins.0, find_index_later name p l l' u ins)
]

first_index_step :
    (name : Text) (names : List Text) (p : ℕ) (m : Text)
    → first_index (name ∷ names) p m ≡ or_later (entry_of name p m) (first_index names (suc p) m)
unfolding first_index
first_index_step name names p m = ground arith

or_later_assoc : (a b c : Position) → or_later (or_later a b) c ≡ or_later a (or_later b c)
or_later_assoc (found i) b c = refl
or_later_assoc missing b c = refl
or_later_assoc panicked b c = refl

add_names_lem :
    (names : List Text) (p : ℕ) (l : Links)
    → IsGood [] l
    → (l' : Links) × (add_names names p l ≡ some l')
      × ((m : Text)
          → closes m ≡ true
          → find_index m m l' ≡ or_later (find_index m m l) (first_index names p m))
unfolding add_names first_index
add_names_lem [] p l g = (l, refl, λ m cl. sym (or_later_missing (find_index m m l)))
add_names_lem (name ∷ names) p l g =
    let (l1, e1, g1, same1) = add_name_lem name p l g in
    let (l2, e2, same2) = add_names_lem names (suc p) l1 g1 in
    (
      l2,
      rw (e1, add_names) e2,
      λ m cl.
          same2 m cl
          ∙ ap (λ k. or_later k (first_index names (suc p) m)) (same1 m cl)
          ∙ or_later_assoc (find_index m m l) (entry_of name p m) (first_index names (suc p) m)
          ∙ ap (or_later (find_index m m l)) (sym (first_index_step name names p m)),
    )

first_index_open :
    (names : List Text) (p : ℕ) (m : Text) → closes m ≡ false → first_index names p m ≡ missing
unfolding first_index
first_index_open [] p m h = refl
first_index_open (name ∷ names) p m h = elim (Bool-cases (text_eq m (name ++ b'>' ∷ []))) [
  | inl e ↦
      let shut : closes m ≡ true =
        rw ((text_eq_iff m (name ++ b'>' ∷ [])).0 e) (closes-snoc name) in
      cc (shut, h)
  | inr e ↦ ground (arith, e, first_index_open names (suc p) m)
]

find_index-nil : (m : Text) → closes m ≡ true → find_index m m nil ≡ missing
unfolding find_index closes find
find_index-nil [] h = cc h
find_index-nil (c ∷ m) h = refl

-- `makePropTree` never runs off the end of a name, and neither does `IndexOf` in its tree. What `IndexOf`
-- finds for a text is the place of the first usable name, one that is not empty and has no `>`, that reads
-- as the text with its final `>` taken off, and -1 where there is none.
pub make_prop_tree_lem :
    (props : List Text)
    → (tree : Links) × (make_prop_tree props ≡ some tree)
      × ((name : Text) → index_of tree name ≡ first_index props 0 name)
unfolding make_prop_tree index_of
make_prop_tree_lem props =
    let (tree, e, same) = add_names_lem props 0 nil IsGood-nil in
    (
      tree,
      e,
      λ name. elim (Bool-cases (closes name)) [
        | inl cl ↦ rw cl (same name cl ∙ rw (find_index-nil name cl) refl)
        | inr op ↦ rw op (sym (first_index_open props 0 name op))
      ],
    )
