-- ===== src/Xml/Hash/Edit.antt =====
-- `SetText`, `Add`, `FirstOrAdd` and `RemoveFirst` of go-susi/xml/xml_hash.go: what they change.
use mathlib.Core.Option
use limux_gosa.Base.{
  Bool, true, false, none, some, List, [], ◌∷◌, ◌++◌, map, map-append, ◌≡◌, refl, ap, ◌∙◌, sym, inl,
  inr, arith, drop, Bool-cases, Option-cases, if◌then◌else◌, append-nil, append_assoc, ◌≢◌,
}
use limux_gosa.Base.Text.{Text, text_eq, text_eq_iff, text_eq_refl}
use limux_gosa.Xml.Hash.Find.{named-scan}
use limux_gosa.Xml.Hash.{
  Hash, element, Items, nil, text, child, name, items, Cursor, scan, first, children, named, get,
  content, append_text, append_child, append_string, append_strings, drop_text, set_text,
  text_fragments, join, update_first, set_field, remove_named, remove_first, add,
}

-- Joining without a separator is concatenation.
join-append : (ss ts : List Text) → join [] (ss ++ ts) ≡ join [] ss ++ join [] ts
unfolding join
join-append [] ts = refl
join-append (s ∷ []) [] = sym (append-nil s)
join-append (s ∷ []) (t ∷ ts) = refl
join-append (s ∷ s' ∷ ss) ts = ap (◌++◌ s) (join-append (s' ∷ ss) ts) ∙ sym (append_assoc s _ _)

fragments-append_text :
    (is : Items) (s : Text) → text_fragments (append_text is s) ≡ text_fragments is ++ s ∷ []
unfolding append_text text_fragments
fragments-append_text nil s = refl
fragments-append_text (text t r) s = ap (◌∷◌ t) (fragments-append_text r s)
fragments-append_text (child h r) s = fragments-append_text r s

children-append_text : (is : Items) (s : Text) → children (append_text is s) ≡ children is
unfolding append_text children
children-append_text nil s = refl
children-append_text (text t r) s = children-append_text r s
children-append_text (child h r) s = ap (◌∷◌ h) (children-append_text r s)

-- `AppendString` extends the text by the string, empty or not.
pub joined-append_string :
    (is : Items) (s : Text)
    → join [] (text_fragments (append_string is s)) ≡ join [] (text_fragments is) ++ s
unfolding append_string
joined-append_string is [] = sym (append-nil _)
joined-append_string is (c ∷ s) =
    rw fragments-append_text
      (join-append (text_fragments is) ((c ∷ s) ∷ []) ∙ (unfold join in refl))

pub join-cons : (s : Text) (ss : List Text) → join [] (s ∷ ss) ≡ s ++ join [] ss
unfolding join
join-cons s [] = sym (append-nil s)
join-cons s (t ∷ ss) = refl

joined-append_strings :
    (ss : List Text) (is : Items)
    → join [] (text_fragments (append_strings is ss)) ≡ join [] (text_fragments is) ++ join [] ss
unfolding append_strings
joined-append_strings [] is = (unfold join in sym (append-nil _))
joined-append_strings (s ∷ ss) is =
    rw (joined-append_strings ss (append_string is s), joined-append_string is s, join-cons s ss)
      (append_assoc _ s (join [] ss))

children-append_strings :
    (ss : List Text) (is : Items) → children (append_strings is ss) ≡ children is
unfolding append_strings append_string
children-append_strings [] is = refl
children-append_strings ([] ∷ ss) is = children-append_strings ss is
children-append_strings ((c ∷ s) ∷ ss) is =
    children-append_strings ss (append_text is (c ∷ s)) ∙ children-append_text is (c ∷ s)

fragments-drop_text : (is : Items) → text_fragments (drop_text is) ≡ []
unfolding text_fragments drop_text
fragments-drop_text nil = refl
fragments-drop_text (text s r) = fragments-drop_text r
fragments-drop_text (child h r) = fragments-drop_text r

children-drop_text : (is : Items) → children (drop_text is) ≡ children is
unfolding children drop_text
children-drop_text nil = refl
children-drop_text (text s r) = children-drop_text r
children-drop_text (child h r) = ap (◌∷◌ h) (children-drop_text r)

pub content-set_text : (h : Hash) (ss : List Text) → content (set_text h ss) ≡ join [] ss
unfolding content set_text
content-set_text (element n is) ss =
    rw (joined-append_strings ss (drop_text is), fragments-drop_text is) (unfold join in refl)

-- SetText gives the element the concatenation of the strings as its text, whatever text it had,
-- and leaves its name and its child elements as they were.
set_text_lem :
    (h : Hash) (ss : List Text)
    → (content (set_text h ss) ≡ join [] ss)
      × (children (items (set_text h ss)) ≡ children (items h))
      × (name (set_text h ss) ≡ name h)
unfolding set_text
set_text_lem (element n is) ss = (
  content-set_text (element n is) ss,
  children-append_strings ss (drop_text is) ∙ children-drop_text is,
  refl,
)

pub name-set_text : (h : Hash) (ss : List Text) → name (set_text h ss) ≡ name h
name-set_text h ss = (set_text_lem h ss).2

pub named-append_child :
    (n : Text) (is : Items) (x : Hash)
    → named n (append_child is x) ≡ named n is ++ (if text_eq (name x) n then x ∷ [] else [])
unfolding named append_child
named-append_child n nil x = refl
named-append_child n (text s r) x = named-append_child n r x
named-append_child n (child h r) x = ground (arith, named-append_child n r x)

pub children-append_child :
    (is : Items) (x : Hash) → children (append_child is x) ≡ children is ++ x ∷ []
unfolding children append_child
children-append_child nil x = refl
children-append_child (text s r) x = children-append_child r x
children-append_child (child h r) x = ap (◌∷◌ h) (children-append_child r x)

pub fragments-append_child :
    (is : Items) (x : Hash) → text_fragments (append_child is x) ≡ text_fragments is
unfolding text_fragments append_child
fragments-append_child nil x = refl
fragments-append_child (text s r) x = ap (◌∷◌ s) (fragments-append_child r x)
fragments-append_child (child h r) x = fragments-append_child r x

pub get_one : (h : Hash) (n : Text) → get h (n ∷ []) ≡ map content (named n (items h))
unfolding get
get_one h n = append-nil (map content (named n (items h)))

pub content_lem : (h : Hash) → content h ≡ join [] (text_fragments (items h))
unfolding content
content_lem h = refl

map-content_if :
    (b : Bool) (x : Hash)
    → map content (if b then x ∷ [] else []) ≡ (if b then content x ∷ [] else [])
map-content_if true x = refl
map-content_if false x = refl

-- Add puts a child behind the children of its name, with the given text; the text of the element
-- and its children of other names stay as they were.
pub add_lem :
    (h : Hash) (n : Text) (ss : List Text) (m : Text)
    → (get (add h n ss) (m ∷ []) ≡ get h (m ∷ []) ++ (if text_eq n m then join [] ss ∷ [] else []))
      × (content (add h n ss) ≡ content h)
unfolding add
add_lem (element k is) n ss m =
    let x = set_text (element n nil) ss in
    (
      rw (
        get_one,
        get_one,
        named-append_child m is x,
        map-append,
        name-set_text,
        map-content_if,
        content-set_text,
      ),
      rw (content_lem, content_lem, fragments-append_child is x),
    )

-- `update_first` on the named children: the first is changed, and nothing else.
named-update_first_self :
    (n : Text) (f : Hash → Hash) (is : Items)
    → ((x : Hash) → name (f x) ≡ name x)
    → scan n is ≢ none
    → (x : Hash) × (named n (update_first n f is) ≡ f x ∷ drop 1 (named n is)) × (name x ≡ n)
unfolding named update_first scan
named-update_first_self n f nil keep p = absurd (p refl)
named-update_first_self n f (text s r) keep p = named-update_first_self n f r keep p
named-update_first_self n f (child h r) keep p = elim (Bool-cases (text_eq (name h) n)) [
  | inl e ↦ (h, rw (e, keep h, e), (text_eq_iff (name h) n).0 e)
  | inr e ↦ let (x, q, k) = named-update_first_self n f r keep (rw e at p) in (x, rw (e, e) q, k)
]

named-update_first_ne :
    (n m : Text) (f : Hash → Hash) (is : Items)
    → ((x : Hash) → name (f x) ≡ name x)
    → n ≢ m
    → named m (update_first n f is) ≡ named m is
unfolding named update_first
named-update_first_ne n m f nil keep ne = refl
named-update_first_ne n m f (text s r) keep ne = named-update_first_ne n m f r keep ne
named-update_first_ne n m f (child h r) keep ne = ground (
  arith,
  named-update_first_ne n m f r keep ne,
  keep h,
  text_eq_iff (name h) n,
  text_eq_iff (name h) m,
)

drop-map-content : (xs : List Hash) → map content (drop 1 xs) ≡ drop 1 (map content xs)
drop-map-content [] = refl
drop-map-content (x ∷ xs) = refl

fragments-update_first :
    (n : Text) (f : Hash → Hash) (is : Items)
    → text_fragments (update_first n f is) ≡ text_fragments is
unfolding text_fragments update_first
fragments-update_first n f nil = refl
fragments-update_first n f (text s r) = ap (◌∷◌ s) (fragments-update_first n f r)
fragments-update_first n f (child h r) = ground (arith, fragments-update_first n f r)

abbrev changed : Text → Hash → Hash
changed s c = set_text c (s ∷ [])

module _ (k : Text) (is : Items) (n s : Text) where
  set_field-new :
      scan n is ≡ none
      → set_field (element k is) n s
        ≡ element k (append_child is (set_text (element n nil) (s ∷ [])))
  unfolding set_field
  set_field-new e = rw e

  set_field-old :
      (c : Cursor)
      → scan n is ≡ some c
      → set_field (element k is) n s ≡ element k (update_first n (changed s) is)
  unfolding set_field
  set_field-old c e = rw e

  name-set_field : name (set_field (element k is) n s) ≡ k
  name-set_field = elim (Option-cases (scan n is)) [
    | inl e ↦ rw (set_field-new e)
    | inr (c, e) ↦ rw (set_field-old c e)
  ]

  get-set_field_self :
      get (set_field (element k is) n s) (n ∷ []) ≡ s ∷ drop 1 (get (element k is) (n ∷ []))
  get-set_field_self = elim (Option-cases (scan n is)) [
    | inl e ↦
        rw
          (
            set_field-new e,
            get_one,
            get_one,
            named-append_child n is (set_text (element n nil) (s ∷ [])),
            named-scan n is e,
            name-set_text,
            text_eq_refl n,
            content-set_text,
          )
          (ap (λ t. t ∷ []) (unfold join in refl))
    | inr (c, e) ↦
        let keep = λ (x : Hash). name-set_text x (s ∷ []) in
        let (x, q, p) = named-update_first_self n (changed s) is keep (λ w. cc (w, e)) in
        rw (set_field-old c e, get_one, get_one, q, ← drop-map-content, content-set_text)
          (ap (λ t. t ∷ map content (drop 1 (named n is))) (unfold join in refl))
  ]

  get-set_field_ne :
      (m : Text) → n ≢ m → get (set_field (element k is) n s) (m ∷ []) ≡ get (element k is) (m ∷ [])
  get-set_field_ne m ne = elim (Option-cases (scan n is)) [
    | inl e ↦
        rw
          (
            set_field-new e,
            get_one,
            get_one,
            named-append_child m is (set_text (element n nil) (s ∷ [])),
            name-set_text,
          )
          (elim (Bool-cases (text_eq n m)) [
            | inl q ↦ absurd (ne ((text_eq_iff n m).0 q))
            | inr q ↦ rw (q, append-nil)
          ])
    | inr (c, e) ↦
        let keep = λ (x : Hash). name-set_text x (s ∷ []) in
        rw (set_field-old c e, get_one, get_one, named-update_first_ne n m (changed s) is keep ne)
  ]

-- FirstOrAdd followed by SetText replaces the text of the first child of the name, or adds one; the
-- texts of the further children of the name and those of other names stay, and so does the element's name.
pub set_field_lem :
    (h : Hash) (n s m : Text)
    → (get (set_field h n s) (m ∷ [])
        ≡ (if text_eq n m then s ∷ drop 1 (get h (m ∷ [])) else get h (m ∷ [])))
      × (name (set_field h n s) ≡ name h)
set_field_lem (element k is) n s m = (
  elim (Bool-cases (text_eq n m)) [
    | inl e ↦ rw (e, ← (text_eq_iff n m).0 e) (get-set_field_self k is n s)
    | inr e ↦ rw e (get-set_field_ne k is n s m (λ q. cc (e, (text_eq_iff n m).1 q)))
  ],
  name-set_field k is n s,
)

named-remove_named :
    (n m : Text) (is : Items)
    → named m (remove_named n is) ≡ (if text_eq n m then drop 1 (named m is) else named m is)
unfolding named remove_named
named-remove_named n m nil = ground arith
named-remove_named n m (text s r) = named-remove_named n m r
named-remove_named n m (child h r) = ground (
  arith,
  named-remove_named n m r,
  text_eq_iff (name h) n,
  text_eq_iff (name h) m,
  text_eq_iff n m,
)

get-remove_named :
    (k n m : Text) (is : Items)
    → get (element k (remove_named n is)) (m ∷ [])
      ≡ (if text_eq n m then drop 1 (get (element k is) (m ∷ [])) else get (element k is) (m ∷ []))
get-remove_named k n m is =
    rw (get_one, get_one, named-remove_named n m is)
      (elim (Bool-cases (text_eq n m)) [ inl q ↦ rw (q, drop-map-content) | inr q ↦ rw q ])

remove_none :
    (k n m : Text) (is : Items)
    → scan n is ≡ none
    → get (element k is) (m ∷ [])
      ≡ (if text_eq n m then drop 1 (get (element k is) (m ∷ [])) else get (element k is) (m ∷ []))
remove_none k n m is e = elim (Bool-cases (text_eq n m)) [
  | inl q ↦ rw (q, get_one, ← (text_eq_iff n m).0 q, named-scan n is e)
  | inr q ↦ rw q
]

-- RemoveFirst returns the first child of the name, the one that First finds, and takes just that
-- one out: the texts of the others of the name and of all other names stay, in order.
pub remove_first_lem :
    (h : Hash) (n m : Text)
    → (get (remove_first h n).1 (m ∷ [])
        ≡ (if text_eq n m then drop 1 (get h (m ∷ [])) else get h (m ∷ [])))
      × ((remove_first h n).0 ≡ Option.map (λ c. c.here) (first h n))
unfolding remove_first
remove_first_lem (element k is) n m = elim (Option-cases (scan n is)) [
  | inl e ↦ rw e (remove_none k n m is e, refl)
  | inr (c, e) ↦ rw e (get-remove_named k n m is, refl)
]
