-- ===== src/Audit/PropTree/Step.antt =====
-- :One step of the insertion into the search tree of go-susi/db/audit.go.
use limux_gosa.Base.{
  ℕ, suc, true, false, Option, none, some, [], ◌∷◌, ◌++◌, ◌==◌, ◌≡◌, refl, sym, ap, ◌∙◌, subst,
  arith, inl, inr, Bool-cases, append_assoc, length,
}
use limux_gosa.Base.Text.{Text, text_eq, text_eq_iff, text_eq_refl}
use limux_gosa.Audit.PropTree.{
  ElementTree, node, Links, nil, link, find, find_index, closes, byte_after, split_leaf, on_way,
  insert_name,
}
use limux_gosa.Audit.PropTree.Tags.{
  IsGood, IsGood-link, IsGoodNode, IsInserted, after_insert, closes_one, closes_step,
  find_index_inner, find_index_leaf, find_index-none, find_index_other, find_same, inner, is_tag,
  is_tag-suffix, is_tag_last, leaf, text_eq-append,
}

text_eq_comm : (s t : Text) → text_eq s t ≡ text_eq t s
unfolding text_eq
text_eq_comm [] [] = refl
text_eq_comm [] (d ∷ t) = refl
text_eq_comm (c ∷ s) [] = refl
text_eq_comm (c ∷ s) (d ∷ t) = ground (arith, text_eq_comm s t)

pub text_eq_other :
    (a r s : Text) (c d : ℕ) → (d == c) ≡ false → text_eq (a ++ d ∷ r) (a ++ c ∷ s) ≡ false
unfolding text_eq
text_eq_other a r s c d e = text_eq-append a (d ∷ r) (c ∷ s) ∙ rw e refl

pub text_eq-nil_tag : (n : Text) → is_tag n ≡ true → text_eq n [] ≡ false
unfolding text_eq is_tag
text_eq-nil_tag [] h = cc h
text_eq-nil_tag (c ∷ n) h = refl

module _ (a name s : Text) (c p : ℕ) (l : Links) (e : name ≡ a ++ c ∷ s) (g : IsGood a l) where
  -- What comes in below the byte c, where the names on that way are found as they are to be.
  IsInserted-link :
      (t : ElementTree)
      → IsGoodNode a c t
      → ((m r : Text)
          → m ≡ a ++ c ∷ r
          → closes (c ∷ r) ≡ true
          → find_index m (c ∷ r) (link c t l) ≡ after_insert name p m (find_index m (c ∷ r) l))
      → IsInserted a name p l (link c t l)
  IsInserted-link t gt same = (
    IsGood-link a c t l g gt,
    λ m d r em cl. elim (Bool-cases (d == c)) [
      | inl q ↦
          let dc : c ≡ d = ground arith in
          subst
            (λ k.
              find_index m (k ∷ r) (link c t l) ≡ after_insert name p m (find_index m (k ∷ r) l))
            dc
            (same m r (subst (λ k. m ≡ a ++ k ∷ r) (sym dc) em)
              (subst (λ k. closes (k ∷ r) ≡ true) (sym dc) cl))
      | inr q ↦
          let ne : text_eq m name ≡ false = rw (em, e) (text_eq_other a r s c d q) in
          rw ne (find_index_other m c d r t l q)
    ],
  )

  pub IsInserted-leaf :
      is_tag name ≡ true → find c l ≡ none → IsInserted a name p l (link c (node name p nil) l)
  IsInserted-leaf tag q = IsInserted-link (node name p nil) (leaf s e tag) (λ m r em cl.
      rw
        (
          find_index_leaf m c p r name (link c (node name p nil) l) nil (text_eq-nil_tag name tag)
              (find_same c (node name p nil) l),
          find_index-none m c r l q,
          text_eq_comm name m,
        )
        refl)

  pub IsInserted-below :
      (below below' : Links)
      → (c == b'>') ≡ false
      → ((m r : Text) (d : ℕ)
          → m ≡ a ++ c ∷ d ∷ r
          → find_index m (c ∷ d ∷ r) l ≡ find_index m (d ∷ r) below)
      → IsInserted (a ++ c ∷ []) name p below below'
      → IsInserted a name p l (link c (node [] 0 below') l)
  IsInserted-below below below' nc old (g', same) =
      IsInserted-link (node [] 0 below') (inner g') way
    where
      way :
          (m r : Text)
          → m ≡ a ++ c ∷ r
          → closes (c ∷ r) ≡ true
          → find_index m (c ∷ r) (link c (node [] 0 below') l)
            ≡ after_insert name p m (find_index m (c ∷ r) l)
      way m [] em cl = cc (nc, closes_one c cl)
      way m (d ∷ r) em cl =
          find_index_inner m c 0 (d ∷ r) (link c (node [] 0 below') l) below'
            (find_same c (node [] 0 below') l)
          ∙ same m d r (em ∙ sym (append_assoc a (c ∷ []) (d ∷ r))) (closes_step c d r cl)
          ∙ ap (after_insert name p m) (sym (old m r d em))

pub insert_none :
    (name s : Text) (p k c : ℕ) (l : Links)
    → find c l ≡ none
    → insert_name name p k (c ∷ s) l ≡ some (link c (node name p nil) l)
unfolding insert_name
insert_none name s p k c l e = rw (e, insert_name)

pub insert_inner :
    (name s : Text) (p k c i : ℕ) (l below : Links)
    → find c l ≡ some (node [] i below)
    → insert_name name p k (c ∷ s) l ≡ on_way c l (insert_name name p (suc k) s below)
unfolding insert_name text_eq
insert_inner name s p k c i l below e = rw (e, insert_name)

pub insert_same :
    (name s : Text) (p k c i : ℕ) (l below : Links)
    → text_eq name [] ≡ false
    → find c l ≡ some (node name i below)
    → insert_name name p k (c ∷ s) l ≡ some l
unfolding insert_name
insert_same name s p k c i l below ne e = rw (e, insert_name, ne, text_eq_refl name)

byte_after-append : (a s : Text) (c d : ℕ) → byte_after (suc (length a)) (a ++ c ∷ d ∷ s) ≡ some d
unfolding byte_after
byte_after-append [] s c d = refl
byte_after-append (b ∷ []) s c d = refl
byte_after-append (b ∷ x ∷ a) s c d = byte_after-append (x ∷ a) s c d

pub insert_split :
    (name s n r a : Text) (p c d i : ℕ) (l : Links)
    → n ≡ a ++ c ∷ d ∷ r
    → text_eq n [] ≡ false
    → text_eq n name ≡ false
    → find c l ≡ some (node n i nil)
    → insert_name name p (length a) (c ∷ s) l
      ≡ on_way c l (insert_name name p (suc (length a)) s (link d (node n i nil) nil))
unfolding insert_name split_leaf
insert_split name s n r a p c d i l en ne other e =
    let b : byte_after (suc (length a)) n ≡ some d = rw en (byte_after-append a r c d) in
    rw (e, insert_name, ne, other, b)

pub on_way-some :
    (c : ℕ) (l below : Links) (o : Option Links)
    → o ≡ some below
    → on_way c l o ≡ some (link c (node [] 0 below) l)
unfolding on_way
on_way-some c l below o e = rw e

-- What an insertion comes to: it does not run off the end of the name.
abbrev pub Inserts : Text → Text → ℕ → Text → Links → Type 0
Inserts a name p s l =
    (l' : Links) × (insert_name name p (length a) s l ≡ some l') × IsInserted a name p l l'

pub tag_differs :
    (a n name s : Text) (c : ℕ) (r : Text)
    → n ≡ a ++ c ∷ r
    → name ≡ a ++ c ∷ s
    → is_tag n ≡ true
    → is_tag name ≡ true
    → text_eq n name ≡ false
    → (c == b'>') ≡ false
tag_differs a n name s c r en e tn t ne = elim (Bool-cases (c == b'>')) [
  | inr q ↦ q
  | inl q ↦
      let r0 : r ≡ [] =
        is_tag_last c r (is_tag-suffix a c r (subst (λ k. is_tag k ≡ true) en tn)) q in
      let s0 : s ≡ [] =
        is_tag_last c s (is_tag-suffix a c s (subst (λ k. is_tag k ≡ true) e t)) q in
      let same : text_eq n name ≡ true =
        (text_eq_iff n name).1 (en ∙ ap (λ k. a ++ c ∷ k) (r0 ∙ sym s0) ∙ sym e) in
      cc (same, ne)
]
