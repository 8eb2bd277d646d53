-- ===== src/Xml/Hash/Copy.antt =====
-- `Clone` of go-susi/xml/xml_hash.go: a deep copy, and the text tokens that the operations build.
use limux_gosa.Base.{
  List, [], ◌∷◌, ◌≡◌, refl, ap, ◌∙◌, sym, inl, inr, ◌≢◌, Bool-cases, Option-cases,
}
use limux_gosa.Base.Text.{Text, text_eq}
use limux_gosa.Xml.Hash.{
  Hash, element, Items, nil, text, child, name, append_text, append_child, append_string,
  append_strings, drop_text, set_text, remove_named, remove_first, add, add_with_ownership, clone,
  clone_onto, add_clone, scan,
}

-- No text token is empty, here and in all descendants: `AppendString` never links an empty one.
abbrev mutual
  pub HasNoEmptyText : Hash → Type 0
  HasNoEmptyText (element n is) = NoEmptyText is

  pub NoEmptyText : Items → Type 0
  NoEmptyText nil = Unit
  NoEmptyText (text s r) = (s ≢ []) × NoEmptyText r
  NoEmptyText (child h r) = HasNoEmptyText h × NoEmptyText r

-- The tokens of `a`, and `b` behind them.
abbrev join_items : Items → Items → Items
join_items nil b = b
join_items (text s r) b = text s (join_items r b)
join_items (child h r) b = child h (join_items r b)

join_items-nil : (a : Items) → join_items a nil ≡ a
join_items-nil nil = refl
join_items-nil (text s r) = ap (text s) (join_items-nil r)
join_items-nil (child h r) = ap (child h) (join_items-nil r)

join-append_text :
    (a r : Items) (s : Text) → join_items (append_text a s) r ≡ join_items a (text s r)
unfolding append_text
join-append_text nil r s = refl
join-append_text (text t a) r s = ap (text t) (join-append_text a r s)
join-append_text (child h a) r s = ap (child h) (join-append_text a r s)

join-append_child :
    (a r : Items) (x : Hash) → join_items (append_child a x) r ≡ join_items a (child x r)
unfolding append_child
join-append_child nil r x = refl
join-append_child (text t a) r x = ap (text t) (join-append_child a r x)
join-append_child (child h a) r x = ap (child h) (join-append_child a r x)

join-append_string :
    (a r : Items) (s : Text) → s ≢ [] → join_items (append_string a s) r ≡ join_items a (text s r)
unfolding append_string
join-append_string a r [] h = absurd (h refl)
join-append_string a r (c ∷ s) h = join-append_text a r (c ∷ s)

mutual
  unfolding clone

  clone_eq : (h : Hash) → HasNoEmptyText h → clone h ≡ h
  clone_eq (element n is) p = ap (element n) (clone_onto_eq is nil p)

  clone_onto_eq : (is acc : Items) → NoEmptyText is → clone_onto is acc ≡ join_items acc is
  clone_onto_eq nil acc p = sym (join_items-nil acc)
  clone_onto_eq (text s r) acc p =
      clone_onto_eq r (append_string acc s) p.1 ∙ join-append_string acc r s p.0
  clone_onto_eq (child h r) acc p =
      clone_onto_eq r (append_child acc (clone h)) p.1
      ∙ join-append_child acc r (clone h)
      ∙ ap (λ x. join_items acc (child x r)) (clone_eq h p.0)

-- Clone gives an equal element, with all descendants, if no text token in it is empty.
clone_lem : (h : Hash) → HasNoEmptyText h → clone h ≡ h
clone_lem h p = clone_eq h p

append_text-NoEmptyText :
    (is : Items) (s : Text) → NoEmptyText is → s ≢ [] → NoEmptyText (append_text is s)
unfolding append_text
append_text-NoEmptyText nil s p e = (e, tt)
append_text-NoEmptyText (text t r) s p e = (p.0, append_text-NoEmptyText r s p.1 e)
append_text-NoEmptyText (child h r) s p e = (p.0, append_text-NoEmptyText r s p.1 e)

append_string-NoEmptyText :
    (is : Items) (s : Text) → NoEmptyText is → NoEmptyText (append_string is s)
unfolding append_string
append_string-NoEmptyText is [] p = p
append_string-NoEmptyText is (c ∷ s) p = append_text-NoEmptyText is (c ∷ s) p (λ e. cc e)

append_strings-NoEmptyText :
    (ss : List Text) (is : Items) → NoEmptyText is → NoEmptyText (append_strings is ss)
unfolding append_strings
append_strings-NoEmptyText [] is p = p
append_strings-NoEmptyText (s ∷ ss) is p =
    append_strings-NoEmptyText ss (append_string is s) (append_string-NoEmptyText is s p)

append_child-NoEmptyText :
    (is : Items) (x : Hash) → NoEmptyText is → HasNoEmptyText x → NoEmptyText (append_child is x)
unfolding append_child
append_child-NoEmptyText nil x p q = (q, tt)
append_child-NoEmptyText (text t r) x p q = (p.0, append_child-NoEmptyText r x p.1 q)
append_child-NoEmptyText (child h r) x p q = (p.0, append_child-NoEmptyText r x p.1 q)

drop_text-NoEmptyText : (is : Items) → NoEmptyText is → NoEmptyText (drop_text is)
unfolding drop_text
drop_text-NoEmptyText nil p = tt
drop_text-NoEmptyText (text t r) p = drop_text-NoEmptyText r p.1
drop_text-NoEmptyText (child h r) p = (p.0, drop_text-NoEmptyText r p.1)

mutual
  unfolding clone

  clone_no_empty : (h : Hash) → HasNoEmptyText (clone h)
  clone_no_empty (element n is) = clone_onto_no_empty is nil tt

  clone_onto_no_empty : (is acc : Items) → NoEmptyText acc → NoEmptyText (clone_onto is acc)
  clone_onto_no_empty nil acc p = p
  clone_onto_no_empty (text s r) acc p =
      clone_onto_no_empty r (append_string acc s) (append_string-NoEmptyText acc s p)
  clone_onto_no_empty (child h r) acc p =
      clone_onto_no_empty r (append_child acc (clone h))
        (append_child-NoEmptyText acc (clone h) p (clone_no_empty h))

pub clone-HasNoEmptyText : (h : Hash) → HasNoEmptyText (clone h)
clone-HasNoEmptyText h = clone_no_empty h

pub set_text-HasNoEmptyText :
    (h : Hash) (ss : List Text) → HasNoEmptyText h → HasNoEmptyText (set_text h ss)
unfolding set_text
set_text-HasNoEmptyText (element n is) ss p =
    append_strings-NoEmptyText ss (drop_text is) (drop_text-NoEmptyText is p)

pub add_with_ownership-HasNoEmptyText :
    (h x : Hash) → HasNoEmptyText h → HasNoEmptyText x → HasNoEmptyText (add_with_ownership h x)
unfolding add_with_ownership
add_with_ownership-HasNoEmptyText (element n is) x p q = append_child-NoEmptyText is x p q

remove_named-NoEmptyText :
    (n : Text) (is : Items) → NoEmptyText is → NoEmptyText (remove_named n is)
unfolding remove_named
remove_named-NoEmptyText n nil p = tt
remove_named-NoEmptyText n (text s r) p = (p.0, remove_named-NoEmptyText n r p.1)
remove_named-NoEmptyText n (child h r) p = elim (Bool-cases (text_eq (name h) n)) [
  | inl e ↦ rw e p.1
  | inr e ↦ rw e (p.0, remove_named-NoEmptyText n r p.1)
]

remove_first-HasNoEmptyText :
    (h : Hash) (n : Text) → HasNoEmptyText h → HasNoEmptyText (remove_first h n).1
unfolding remove_first
remove_first-HasNoEmptyText (element k is) n p = elim (Option-cases (scan n is)) [
  | inl e ↦ rw e p
  | inr (c, e) ↦ rw e (remove_named-NoEmptyText n is p)
]

-- What SetText, Add, AddClone and RemoveFirst make of an element without empty text tokens has none
-- either, whatever strings they are given, and what AddClone adds may hold some.
edits-HasNoEmptyText :
    (h x : Hash) (n : Text) (ss : List Text)
    → HasNoEmptyText h
    → HasNoEmptyText (set_text h ss)
      × HasNoEmptyText (add h n ss)
      × HasNoEmptyText (add_clone h x)
      × HasNoEmptyText (remove_first h n).1
unfolding add add_clone
edits-HasNoEmptyText h x n ss p = (
  set_text-HasNoEmptyText h ss p,
  add_with_ownership-HasNoEmptyText h _ p (set_text-HasNoEmptyText (element n nil) ss tt),
  add_with_ownership-HasNoEmptyText h (clone x) p (clone-HasNoEmptyText x),
  remove_first-HasNoEmptyText h n p,
)
