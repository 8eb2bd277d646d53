-- ===== src/Servers/Keys.antt =====
-- The keys that go-susi/db/serverdb.go and go-susi/db/clientdb.go know of an address with a port.
use limux_gosa.Base.{
  Bool, true, ◌&&◌, List, [], ◌∷◌, ◌++◌, any, map, keep, if◌then◌else◌, some, ◌≡◌, refl, arith, ap,
  ◌∙◌, inl, inr, Bool-cases,
}
use limux_gosa.Base.Text.{Text, codes, text_eq, to_lower}
use limux_gosa.Xml.Hash.{Hash, Items, nil, text, child, name, items, children, named, clone, get}
use limux_gosa.Xml.Hash.CloneFields.{name-clone, get-clone}
use limux_gosa.Xml.Filter.{filter_simple, simple_accepts}
use limux_gosa.Xml.Select.Laws.{query_lem}
use limux_gosa.Xml.Db.{Db}
use limux_gosa.Xml.Db
use limux_gosa.Xml.Select
use limux_gosa.Xml.Db.Laws.{items_of}
use limux_gosa.Servers.{has_colon, entries_at, keys_of}

-- Whether an entry has this text in this column, letter case aside.
abbrev pub has_text : Text → Text → Hash → Bool
has_text column v x = any (λ w. text_eq (to_lower w) (to_lower v)) (get x (column ∷ []))

-- The keys of the entries with this address in this column, in order.
abbrev pub known_keys : Text → Text → List Hash → List Text
known_keys column addr [] = []
known_keys column addr (x ∷ xs) =
    if has_text column addr x && text_eq (name x) (codes "xml")
    then get x (codes "key" ∷ []) ++ known_keys column addr xs
    else known_keys column addr xs

pub filter_simple_lem :
    (column v : Text) (x : Hash) → filter_simple (column ∷ v ∷ []) (some x) ≡ has_text column v x
unfolding filter_simple simple_accepts
filter_simple_lem column v x = ground arith

abbrev is_named : Text → Hash → Bool
is_named n x = text_eq (name x) n

named-keep : (n : Text) (is : Items) → named n is ≡ keep (is_named n) (children is)
unfolding named children
named-keep n nil = refl
named-keep n (text s r) = named-keep n r
named-keep n (child h r) = elim (Bool-cases (text_eq (name h) n)) [
  | inl e ↦ rw (e, named-keep n r) refl
  | inr e ↦ rw (e, named-keep n r) refl
]

keys-known :
    (column addr : Text) (xs : List Hash)
    → keys_of (
        keep
          (is_named (codes "xml"))
          (map clone (keep (λ x. filter_simple (column ∷ addr ∷ []) (some x)) xs)))
      ≡ known_keys column addr xs
unfolding keys_of
keys-known column addr [] = refl
keys-known column addr (x ∷ xs) =
    let rest = keys-known column addr xs in
    rw (filter_simple_lem column addr x) (elim (Bool-cases (has_text column addr x)) [
      | inr e ↦ rw e rest
      | inl e ↦
          rw (e, name-clone x)
            (elim (Bool-cases (text_eq (name x) (codes "xml"))) [
              | inl f ↦ rw (f, get-clone x (codes "key"), rest, keys_of) refl
              | inr f ↦ rw f rest
            ])
    ])

pub keys_of_lem :
    (db : Db) (column addr : Text)
    → has_colon addr ≡ true
    → keys_of (named (codes "xml") (items (Db.query db (entries_at column addr))))
      ≡ known_keys column addr (items_of db)
unfolding entries_at Db.query Select.query
keys_of_lem db column addr colon =
    let f = filter_simple (column ∷ addr ∷ []) in
    rw colon (
      ap keys_of (
        named-keep (codes "xml") (items (Db.query db f))
        ∙ ap (keep (is_named (codes "xml"))) (query_lem f db.hash).0)
      ∙ keys-known column addr (items_of db))
