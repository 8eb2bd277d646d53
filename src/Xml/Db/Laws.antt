-- ===== src/Xml/Db/Laws.antt =====
-- What the operations of go-susi/xml/xml_db.go do to the items.
use limux_gosa.Base.{
  Bool, true, false, not, ◌||◌, some, List, [], ◌∷◌, ◌++◌, map, append-nil, append_assoc, ◌≡◌, refl,
  sym, ap, ◌∙◌, arith, if◌then◌else◌, keep, any,
}
use limux_gosa.Xml.Hash.{Hash, element, items, children, clone, add_clone, add_with_ownership}
use limux_gosa.Xml.Hash.Edit.{children-append_child}
use limux_gosa.Xml.Filter.{Filter}
use limux_gosa.Xml.Select.{stateless}
use limux_gosa.Xml.Select
use limux_gosa.Xml.Select.Laws.{remove_lem}
use limux_gosa.Xml.Db.{Db, persist_job, add_clones, replace, has_child}

children-add_clone :
    (h x : Hash) → children (items (add_clone h x)) ≡ children (items h) ++ clone x ∷ []
unfolding add_clone add_with_ownership
children-add_clone (element n is) x = children-append_child is (clone x)

pub children-add_clones :
    (xs : List Hash) (h : Hash)
    → children (items (add_clones h xs)) ≡ children (items h) ++ map clone xs
unfolding add_clones
children-add_clones [] h = sym (append-nil (children (items h)))
children-add_clones (x ∷ xs) h =
    children-add_clones xs (add_clone h x)
    ∙ rw (children-add_clone h x) (append_assoc (children (items h)) (clone x ∷ []) (map clone xs))

pub hash-persist_job : (db : Db) → (persist_job db).hash ≡ db.hash
unfolding persist_job
hash-persist_job db = ground arith

-- The items of a database.
abbrev pub items_of : Db → List Hash
items_of db = children (items db.hash)

has_child_keep :
    (f : Filter) (xs : List Hash)
    → (elim (keep (λ x. f (some x)) xs) [ [] ↦ false | _ ↦ true ]) ≡ any (λ x. f (some x)) xs
has_child_keep f [] = refl
has_child_keep f (x ∷ xs) = ground (arith, has_child_keep f xs)

module _ (db : Db) (f : Filter) (must_match : Bool) (xs : List Hash) where
  has_child_removed :
      has_child (Select.remove (stateless f) tt db.hash).0 ≡ any (λ x. f (some x)) (items_of db)
  has_child_removed = rw ((remove_lem f db.hash).0, has_child) (has_child_keep f (items_of db))

  added :
      (b : Bool) (h : Hash)
      → children (items (if b then add_clones h xs else h))
        ≡ children (items h) ++ (if b then map clone xs else [])
  added true h = children-add_clones xs h
  added false h = sym (append-nil (children (items h)))

  -- Replace takes the items that the filter accepts out and returns them, and adds copies of the given
  -- items behind the others, unless a match is demanded and no item was accepted: then the items stay.
  pub replace_lem :
      (children (items (replace db f must_match xs).0) ≡ keep (λ x. f (some x)) (items_of db))
      × (items_of (replace db f must_match xs).1
          ≡ keep (λ x. not (f (some x))) (items_of db)
            ++ (if not must_match || any (λ x. f (some x)) (items_of db) then map clone xs else []))
  unfolding replace
  replace_lem =
      let (r, k, _, _) = remove_lem f db.hash in
      let matched : Bool = not must_match || any (λ x. f (some x)) (items_of db) in
      (
        r,
        rw (hash-persist_job, has_child_removed)
            (added matched (Select.remove (stateless f) tt db.hash).1
              ∙ ap (λ l. l ++ (if matched then map clone xs else [])) k),
      )
