-- ===== src/Xml/Hash/CloneFields.antt =====
-- What can be read in a copy that `Clone` of go-susi/xml/xml_hash.go makes.
use limux_gosa.Base.{
  List, [], ◌∷◌, ◌++◌, map, ◌≡◌, refl, sym, ◌∙◌, append-nil, append_assoc, arith, inl, inr,
  Bool-cases,
}
use limux_gosa.Base.Text.{Text, text_eq}
use limux_gosa.Xml.Hash.{
  Hash, element, Items, nil, text, child, name, items, append_text, append_child, append_string,
  clone, clone_onto, named, content, join, text_fragments, get, field,
}
use limux_gosa.Xml.Hash.Edit.{
  get_one, content_lem, join-cons, joined-append_string, named-append_child, fragments-append_child,
}

abbrev joined : Items → Text
joined is = join [] (text_fragments is)

joined-clone_onto : (is acc : Items) → joined (clone_onto is acc) ≡ joined acc ++ joined is
unfolding text_fragments clone
joined-clone_onto nil acc = unfold join in sym (append-nil (joined acc))
joined-clone_onto (text s r) acc =
    joined-clone_onto r (append_string acc s)
    ∙ rw (joined-append_string acc s, join-cons s (text_fragments r))
        (append_assoc (joined acc) s (joined r))
joined-clone_onto (child h r) acc =
    joined-clone_onto r (append_child acc (clone h)) ∙ rw (fragments-append_child acc (clone h))

content-clone : (h : Hash) → content (clone h) ≡ content h
unfolding clone
content-clone (element n is) =
    rw (content_lem, content_lem) (joined-clone_onto is nil ∙ (unfold join text_fragments in refl))

pub name-clone : (h : Hash) → name (clone h) ≡ name h
unfolding clone
name-clone (element n is) = refl

named-append_text : (n : Text) (is : Items) (s : Text) → named n (append_text is s) ≡ named n is
unfolding append_text named
named-append_text n nil s = refl
named-append_text n (text t r) s = named-append_text n r s
named-append_text n (child h r) s = ground (arith, named-append_text n r s)

named-append_string : (n : Text) (is : Items) (s : Text) → named n (append_string is s) ≡ named n is
unfolding append_string
named-append_string n is [] = refl
named-append_string n is (c ∷ s) = named-append_text n is (c ∷ s)

named-clone_onto :
    (n : Text) (is acc : Items)
    → named n (clone_onto is acc) ≡ named n acc ++ map clone (named n is)
unfolding clone named
named-clone_onto n nil acc = sym (append-nil (named n acc))
named-clone_onto n (text s r) acc =
    named-clone_onto n r (append_string acc s) ∙ rw (named-append_string n acc s)
named-clone_onto n (child h r) acc = elim (Bool-cases (text_eq (name h) n)) [
  | inl e ↦ rw e (
      named-clone_onto n r (append_child acc (clone h))
      ∙ rw (named-append_child n acc (clone h), name-clone h, e)
          (append_assoc (named n acc) (clone h ∷ []) (map clone (named n r))))
  | inr e ↦ rw e (
      named-clone_onto n r (append_child acc (clone h))
      ∙ rw (named-append_child n acc (clone h), name-clone h, e, append-nil (named n acc)))
]

contents-clones : (xs : List Hash) → map content (map clone xs) ≡ map content xs
contents-clones [] = refl
contents-clones (x ∷ xs) = cc (content-clone x, contents-clones xs)

named-clone : (h : Hash) (n : Text) → named n (items (clone h)) ≡ map clone (named n (items h))
unfolding clone
named-clone (element k is) n = named-clone_onto n is nil ∙ (unfold named in refl)

-- A copy has the same texts under each name, whatever its tokens are.
pub get-clone : (h : Hash) (n : Text) → get (clone h) (n ∷ []) ≡ get h (n ∷ [])
get-clone h n =
    rw (get_one (clone h) n, get_one h n, named-clone h n) (contents-clones (named n (items h)))

pub field-clone : (h : Hash) (n : Text) → field (clone h) n ≡ field h n
unfolding field
field-clone h n = rw (get-clone h n)
