-- ===== src/Audit/PropTree.antt =====
-- The search tree of element names in go-susi/db/audit.go: `makePropTree` and `IndexOf`.
pub mod Tags
pub mod Step
pub mod Insert
pub mod Laws
use limux_gosa.Base.{
  ℕ, zero, suc, ◌+◌, Bool, true, false, Option, none, some, List, [], ◌∷◌, ◌++◌, ◌==◌, any,
  if◌then◌else◌,
}
use limux_gosa.Base.Text.{Text, text_eq}

-- `elementTree`; the array of 256 links is a list in which the newest entry for a byte stands first.
mutual
  pub data ElementTree : Type 0 where
    node : Text → ℕ → Links → ElementTree

  pub data Links : Type 0 where
    nil : Links
    link : ℕ → ElementTree → Links → Links

abbrev pub name_of : ElementTree → Text
name_of (node n i l) = n

abbrev pub position_of : ElementTree → ℕ
position_of (node n i l) = i

abbrev pub links_of : ElementTree → Links
links_of (node n i l) = l

-- `etree.link[c]`
unfoldable pub find : ℕ → Links → Option ElementTree
find c nil = none
find c (link d t l) = let rest = find c l in if c == d then some t else rest

-- An index, -1, or the panic where the name ends first.
pub data Position : Type 0 where
  found : ℕ → Position
  missing : Position
  panicked : Position

-- The loop of `IndexOf`, with what is left of the name.
unfoldable pub find_index : Text → Text → Links → Position
unfolding find
find_index name [] l = panicked
find_index name (c ∷ s) l = elim (find c l) [
  | none ↦ missing
  | some t ↦
      if text_eq (name_of t) []
      then find_index name s (links_of t)
      else if text_eq (name_of t) name
      then found (position_of t)
      else missing
]

-- `name[len(name)-1] == '>'`, and the name is not empty.
unfoldable pub closes : Text → Bool
closes [] = false
closes (c ∷ []) = c == b'>'
closes (c ∷ d ∷ s) = closes (d ∷ s)

-- `IndexOf`
unfoldable pub index_of : Links → Text → Position
unfolding find_index closes
index_of tree name = if closes name then find_index name name tree else missing

unfoldable pub byte_after : ℕ → Text → Option ℕ
byte_after k [] = none
byte_after zero (c ∷ s) = some c
byte_after (suc k) (c ∷ s) = byte_after k s

-- The extra step: the links of a node whose leaf has moved below it, for the byte behind position k.
unfoldable pub split_leaf : ℕ → ElementTree → Option Links
unfolding byte_after
split_leaf k (node n i l) = elim (byte_after (suc k) n) [
  | none ↦ none
  | some a ↦ some (link a (node n i nil) l)
]

-- A node without a name on the way, where the rest of the way succeeds.
unfoldable pub on_way : ℕ → Links → Option Links → Option Links
on_way c l none = none
on_way c l (some below) = some (link c (node [] 0 below) l)

-- The loop of `makePropTree` that inserts a name, with what is left of it behind position k; none is a panic.
unfoldable pub insert_name : Text → ℕ → ℕ → Text → Links → Option Links
unfolding find split_leaf on_way
insert_name name p k [] l = none
insert_name name p k (c ∷ s) l = elim (find c l) [
  | none ↦ some (link c (node name p nil) l)
  | some t ↦
      if text_eq (name_of t) []
      then on_way c l (insert_name name p (suc k) s (links_of t))
      else if text_eq (name_of t) name
      then some l
      else elim (split_leaf k t) [
        | none ↦ none
        | some below ↦ on_way c l (insert_name name p (suc k) s below)
      ]
]

-- `strings.Contains(name,">")`
abbrev pub has_close : Text → Bool
has_close name = any (λ c. c == b'>') name

-- One round of the loop of `makePropTree`: an empty name and one with a `>` are passed over.
unfoldable pub add_name : Text → ℕ → Links → Option Links
unfolding insert_name
add_name name p l =
    let tag = name ++ b'>' ∷ [] in
    if text_eq name [] then some l else if has_close name then some l else insert_name tag p 0 tag l

-- The loop of `makePropTree` over the names from position p on.
unfoldable pub add_names : List Text → ℕ → Links → Option Links
unfolding add_name
add_names [] p l = some l
add_names (name ∷ names) p l = elim (add_name name p l) [
  | none ↦ none
  | some l' ↦ add_names names (suc p) l'
]

-- `makePropTree`; none is a panic.
unfoldable pub make_prop_tree : List Text → Option Links
unfolding add_names
make_prop_tree props = add_names props 0 nil
