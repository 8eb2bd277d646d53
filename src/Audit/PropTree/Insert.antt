-- ===== src/Audit/PropTree/Insert.antt =====
-- The insertion of one name into the search tree of go-susi/db/audit.go.
use limux_gosa.Base.{
  ℕ, suc, true, false, Option, none, some, [], ◌∷◌, ◌++◌, ◌==◌, if◌then◌else◌, ◌≡◌, refl, sym, ap,
  ◌∙◌, subst, arith, inl, inr, Bool-cases, append_assoc, length,
}
use limux_gosa.Base.Text.{Text, text_eq, text_eq_iff}
use limux_gosa.Audit.PropTree.{
  ElementTree, node, Links, nil, link, find, found, missing, find_index, on_way, insert_name,
  has_close,
}
use limux_gosa.Audit.PropTree.Tags.{
  IsGood, IsGood-link, IsGoodNode, IsInserted, find_index_inner, find_index_leaf, find_index-none,
  find_index_other, find_same, good, has_close-snoc, inner, is_tag, is_tag-suffix, last-has_close,
  leaf, parts,
}
use limux_gosa.Audit.PropTree.Step.{
  Inserts, insert_inner, insert_none, insert_same, insert_split, IsInserted-below, IsInserted-leaf,
  on_way-some, tag_differs, text_eq-nil_tag, text_eq_other,
}

false_is_true : false ≡ true → ⊥
false_is_true e = cc e

find_nil : (c : ℕ) → find c nil ≡ none
unfolding find
find_nil c = refl

nothing_found : (c : ℕ) (t : ElementTree) → find c nil ≡ some t → ⊥
nothing_found c t e = cc (e, find_nil c)

length-snoc : (a : Text) (c : ℕ) → length (a ++ c ∷ []) ≡ suc (length a)
length-snoc [] c = refl
length-snoc (b ∷ a) c = ap suc (length-snoc a c)

one_byte_tag : (c : ℕ) → is_tag (c ∷ []) ≡ true → (c == b'>') ≡ true
unfolding is_tag text_eq
one_byte_tag c h = ground arith

module _ (a name s : Text) (c p : ℕ) (l : Links) (e : name ≡ a ++ c ∷ s) (tag : is_tag name ≡ true)
    (g : IsGood a l)
    (ih : (c == b'>') ≡ false
      → (below : Links) → IsGood (a ++ c ∷ []) below
      → Inserts (a ++ c ∷ []) name p s below) where
  inserts_same :
      (n : Text) (i : ℕ)
      → text_eq n name ≡ true
      → find c l ≡ some (node n i nil)
      → IsInserted a name p l l
  inserts_same n i same q = (
    g,
    λ m d r em cl. elim (Bool-cases (text_eq m name)) [
      | inr ne ↦ rw ne refl
      | inl me ↦ elim (Bool-cases (d == c)) [
        | inr dc ↦
            let ne : text_eq m name ≡ false = rw (em, e) (text_eq_other a r s c d dc) in cc (ne, me)
        | inl dc ↦
            let cd : c ≡ d = ground arith in
            let nm : text_eq n m ≡ true =
              (text_eq_iff n m).1 ((text_eq_iff n name).0 same ∙ sym ((text_eq_iff m name).0 me)) in
            let ne : text_eq n [] ≡ false =
              text_eq-nil_tag n
                (subst (λ k. is_tag k ≡ true) (sym ((text_eq_iff n name).0 same)) tag) in
            let here : find_index m (d ∷ r) l ≡ found i =
              subst (λ k. find_index m (k ∷ r) l ≡ found i) cd
                (find_index_leaf m c i r n l nil ne q ∙ rw nm refl) in
            rw (me, here) refl
      ]
    ],
  )

  Inserts-way :
      (below : Links)
      → (c == b'>') ≡ false
      → IsGood (a ++ c ∷ []) below
      → insert_name name p (length a) (c ∷ s) l
        ≡ on_way c l (insert_name name p (suc (length a)) s below)
      → ((m r : Text) (d : ℕ)
          → m ≡ a ++ c ∷ d ∷ r
          → find_index m (c ∷ d ∷ r) l ≡ find_index m (d ∷ r) below)
      → Inserts a name p (c ∷ s) l
  Inserts-way below nc gb step old =
      let (below', eb, ins) = ih nc below gb in
      (
        link c (node [] 0 below') l,
        step
            ∙ on_way-some c l below' (insert_name name p (suc (length a)) s below)
                (subst (λ k. insert_name name p k s below ≡ some below') (length-snoc a c) eb),
        IsInserted-below a name s c p l e g below below' nc old ins,
      )

  Inserts-inner :
      (i : ℕ) (below : Links)
      → find c l ≡ some (node [] i below)
      → IsGood (a ++ c ∷ []) below
      → Inserts a name p (c ∷ s) l
  Inserts-inner i below q (good h f) =
      Inserts-way below (last-has_close a c h) (good h f)
        (insert_inner name s p (length a) c i l below q)
        (λ m r d em. find_index_inner m c i (d ∷ r) l below q)

  old_leaf :
      (n r : Text) (d i : ℕ)
      → n ≡ a ++ c ∷ d ∷ r
      → text_eq n [] ≡ false
      → find c l ≡ some (node n i nil)
      → (m t : Text) (b : ℕ) → m ≡ a ++ c ∷ b ∷ t
      → find_index m (c ∷ b ∷ t) l ≡ find_index m (b ∷ t) (link d (node n i nil) nil)
  old_leaf n r d i en ne q m t b em =
      find_index_leaf m c i (b ∷ t) n l nil ne q ∙ (elim (Bool-cases (b == d)) [
        | inl bd ↦
            let same : d ≡ b = ground arith in
            sym (
              subst
                (λ k.
                  find_index m (k ∷ t) (link d (node n i nil) nil)
                  ≡ (if text_eq n m then found i else missing))
                same
                (find_index_leaf m d i t n (link d (node n i nil) nil) nil ne
                  (find_same d (node n i nil) nil)))
        | inr bd ↦
            let db : (d == b) ≡ false = ground arith in
            let nm : text_eq n m ≡ false =
              rw
                (
                  en ∙ sym (append_assoc a (c ∷ []) (d ∷ r)),
                  em ∙ sym (append_assoc a (c ∷ []) (b ∷ t)),
                )
                (text_eq_other (a ++ c ∷ []) r t b d db) in
            rw nm refl
            ∙ sym (
                find_index_other m d b t (node n i nil) nil bd
                ∙ find_index-none m b t nil (find_nil b))
      ])

  Inserts-split :
      (n r : Text) (i : ℕ)
      → n ≡ a ++ c ∷ r
      → is_tag n ≡ true
      → text_eq n name ≡ false
      → find c l ≡ some (node n i nil)
      → has_close a ≡ false
      → Inserts a name p (c ∷ s) l
  Inserts-split n [] i en tn ne q h =
      let nc = tag_differs a n name s c [] en e tn tag ne in
      let ends = one_byte_tag c (is_tag-suffix a c [] (subst (λ k. is_tag k ≡ true) en tn)) in
      absurd (false_is_true (sym nc ∙ ends))
  Inserts-split n (d ∷ r) i en tn ne q h =
      let nc = tag_differs a n name s c (d ∷ r) en e tn tag ne in
      let en' : n ≡ (a ++ c ∷ []) ++ d ∷ r = en ∙ sym (append_assoc a (c ∷ []) (d ∷ r)) in
      let empty : IsGood (a ++ c ∷ []) nil =
        good (has_close-snoc a c h nc) (λ b t x. absurd (nothing_found b t x)) in
      Inserts-way (link d (node n i nil) nil) nc
        (IsGood-link (a ++ c ∷ []) d (node n i nil) nil empty (leaf r en' tn))
        (insert_split name s n r a p c d i l en (text_eq-nil_tag n tn) ne q)
        (old_leaf n r d i en (text_eq-nil_tag n tn) q)

  Inserts-node :
      (t : ElementTree)
      → find c l ≡ some t
      → has_close a ≡ false
      → IsGoodNode a c t
      → Inserts a name p (c ∷ s) l
  Inserts-node (node n i below) q h (inner gb) = Inserts-inner i below q gb
  Inserts-node (node n i nil) q h (leaf r en tn) = elim (Bool-cases (text_eq n name)) [
    | inl same ↦ (
      l,
      insert_same name s p (length a) c i l nil (text_eq-nil_tag name tag)
          (subst (λ k. find c l ≡ some (node k i nil)) ((text_eq_iff n name).0 same) q),
      inserts_same n i same q,
    )
    | inr ne ↦ Inserts-split n r i en tn ne q h
  ]

  Inserts-found : (o : Option ElementTree) → find c l ≡ o → Inserts a name p (c ∷ s) l
  Inserts-found none q = (
    link c (node name p nil) l,
    insert_none name s p (length a) c l q,
    IsInserted-leaf a name s c p l e g tag q,
  )
  Inserts-found (some t) q = let (h, f) = parts g in Inserts-node t q h (f c t q)

pub insert_name_lem :
    (s a name : Text) (c p : ℕ) (l : Links)
    → name ≡ a ++ c ∷ s
    → is_tag name ≡ true
    → IsGood a l
    → Inserts a name p (c ∷ s) l
insert_name_lem [] a name c p l e tag g =
    let ends = one_byte_tag c (is_tag-suffix a c [] (subst (λ k. is_tag k ≡ true) e tag)) in
    Inserts-found a name [] c p l e tag g (λ nc below gb. absurd (false_is_true (sym nc ∙ ends)))
      (find c l) refl
insert_name_lem (d ∷ s) a name c p l e tag g =
    Inserts-found a name (d ∷ s) c p l e tag g
      (λ nc below gb.
        insert_name_lem s (a ++ c ∷ []) name d p below (e ∙ sym (append_assoc a (c ∷ []) (d ∷ s)))
          tag gb)
      (find c l) refl
