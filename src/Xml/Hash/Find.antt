-- ===== src/Xml/Hash/Find.antt =====
-- `First` and `Subtags` of go-susi/xml/xml_hash.go: what the scans find.
use limux_gosa.Base.{
  ◌≢◌, ◌↔◌, true, false, ◌||◌, none, List, [], ◌∷◌, map, ◌≡◌, refl, ap, inl, inr, arith, Bool-cases,
}
use limux_gosa.Base.Text.{Text, text_eq, text_eq_iff}
use limux_gosa.Xml.Hash.{
  Hash, Items, nil, text, child, name, items, scan, first, children, named, mem_text, distinct,
  subtags,
}

-- `First` is nil exactly if there is no child of that name.
pub named-scan : (n : Text) (is : Items) → scan n is ≡ none → named n is ≡ []
unfolding scan named
named-scan n nil e = refl
named-scan n (text s r) e = named-scan n r e
named-scan n (child h r) e = ground (arith, named-scan n r)

mem_text-eq : (n m : Text) (ns : List Text) → n ≡ m → mem_text m ns ≡ true → mem_text n ns ≡ true
mem_text-eq n m ns e h = rw e h

-- Subtags lists a name if it is the name of a child, and only then.
pub mem-distinct : (n : Text) (ns : List Text) → mem_text n (distinct ns) ≡ mem_text n ns
unfolding mem_text distinct
mem-distinct n [] = refl
mem-distinct n (m ∷ ms) = elim (Bool-cases (mem_text m (distinct ms))) [
  | inl e ↦
      rw e
        (ground (arith, mem-distinct n ms, mem-distinct m ms, text_eq_iff m n, mem_text-eq n m ms))
  | inr e ↦ rw e (ap (λ b. text_eq m n || b) (mem-distinct n ms))
]

abbrev pub IsDistinct : List Text → Type 0
IsDistinct [] = Unit
IsDistinct (n ∷ ns) = (mem_text n ns ≡ false) × IsDistinct ns

distinct-IsDistinct : (ns : List Text) → IsDistinct (distinct ns)
unfolding distinct
distinct-IsDistinct [] = tt
distinct-IsDistinct (n ∷ ns) = elim (Bool-cases (mem_text n (distinct ns))) [
  | inl e ↦ rw e (distinct-IsDistinct ns)
  | inr e ↦ rw e (e, distinct-IsDistinct ns)
]

mem-children :
    (n : Text) (is : Items) → (mem_text n (map name (children is)) ≡ true) ↔ (scan n is ≢ none)
unfolding mem_text children scan
mem-children n nil = ground arith
mem-children n (text s r) = mem-children n r
mem-children n (child h r) = ground (arith, mem-children n r)

-- Subtags lists no name twice, and a name stands in it exactly if First finds a child of that name.
subtags_lem :
    (h : Hash)
    → IsDistinct (subtags h) × ((n : Text) → (mem_text n (subtags h) ≡ true) ↔ (first h n ≢ none))
unfolding subtags
subtags_lem h = (
  distinct-IsDistinct (map name (children (items h))),
  λ n. rw (mem-distinct n _) (mem-children n (items h)),
)
