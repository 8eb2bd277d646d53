-- ===== src/Xml/Hash.antt =====
-- go-susi/xml/xml_hash.go: `Hash` and its operations, on the sequence of tokens between a start
-- tag and its end tag. A text token is `text`, and a start tag with all tokens up to its end tag
-- is `child`; so following `succ` from a token is going to the tail of `Items`, and following
-- `link().succ()` from a start tag is skipping the `child`.
pub mod Find
pub mod Edit
pub mod Copy
pub mod CloneFields
use limux_gosa.Base.{
  ℕ, zero, suc, Bool, true, false, Option, none, some, List, [], ◌∷◌, ◌++◌, map, ◌||◌,
  if◌then◌else◌,
}
use limux_gosa.Base.Text.{Text, text_eq}

mutual
  pub data Hash : Type 0 where
    element : Text → Items → Hash

  pub data Items : Type 0 where
    nil : Items
    text : Text → Items → Items
    child : Hash → Items → Items

-- `Name`
abbrev pub name : Hash → Text
name (element n is) = n

-- The tokens behind the start tag, up to the end tag.
abbrev pub items : Hash → Items
items (element n is) = is

abbrev pub with_items : Hash → Items → Hash
with_items (element n _) is = element n is

-- `Rename`
abbrev pub rename : Hash → Text → Hash
rename (element _ is) n = element n is

-- Linking a token in front of the end tag.
unfoldable pub append_text : Items → Text → Items
append_text nil s = text s nil
append_text (text t r) s = text t (append_text r s)
append_text (child h r) s = child h (append_text r s)

unfoldable pub append_child : Items → Hash → Items
append_child nil x = child x nil
append_child (text t r) x = text t (append_child r x)
append_child (child h r) x = child h (append_child r x)

-- `AppendString`
unfoldable pub append_string : Items → Text → Items
append_string is [] = is
append_string is (c ∷ s) = append_text is (c ∷ s)

unfoldable pub append_strings : Items → List Text → Items
append_strings is [] = is
append_strings is (s ∷ ss) = append_strings (append_string is s) ss

-- The loop of `SetText` that takes the old text tokens out.
unfoldable pub drop_text : Items → Items
drop_text nil = nil
drop_text (text _ r) = drop_text r
drop_text (child h r) = child h (drop_text r)

-- `SetText`: no strings for a call without arguments, one for a string, many for a `[]string`.
unfoldable pub set_text : Hash → List Text → Hash
unfolding append_strings append_string append_text drop_text
set_text h ss = with_items h (append_strings (drop_text (items h)) ss)

-- `AddWithOwnership`
unfoldable pub add_with_ownership : Hash → Hash → Hash
unfolding append_child
add_with_ownership h x = with_items h (append_child (items h) x)

-- `NewHash` with its contents: names of nested elements, and a text last.
unfoldable pub new_hash : Text → List Text → Hash
new_hash n [] = element n nil
new_hash n (s ∷ []) = set_text (element n nil) (s ∷ [])
new_hash n (c ∷ d ∷ rest) = element n (child (new_hash c (d ∷ rest)) nil)

-- `Add`
unfoldable pub add : Hash → Text → List Text → Hash
unfolding new_hash add_with_ownership
add h subtag ss = add_with_ownership h (set_text (new_hash subtag []) ss)

-- A start tag, and the tokens behind its end tag, in which `Next` looks for siblings.
pub record Cursor : Type 0 where
  pub here : Hash
  pub after : Items

-- The scan of `First` and `Next` over siblings.
unfoldable pub scan : Text → Items → Option Cursor
scan n nil = none
scan n (text _ r) = scan n r
scan n (child h r) = if text_eq (name h) n then some (record { here = h; after = r }) else scan n r

-- `First`
abbrev pub first : Hash → Text → Option Cursor
first h n = scan n (items h)

-- `Next`
abbrev pub next : Cursor → Option Cursor
next c = scan (name c.here) c.after

-- `FirstChild`, and the `Next` of its iterator, one after the other.
unfoldable pub children : Items → List Hash
children nil = []
children (text _ r) = children r
children (child h r) = h ∷ children r

-- The children of one name, in order.
unfoldable pub named : Text → Items → List Hash
named n nil = []
named n (text _ r) = named n r
named n (child h r) = let rest = named n r in if text_eq (name h) n then h ∷ rest else rest

-- `TextFragments`
unfoldable pub text_fragments : Items → List Text
text_fragments nil = []
text_fragments (text s r) = s ∷ text_fragments r
text_fragments (child _ r) = text_fragments r

-- `strings.Join`
unfoldable pub join : Text → List Text → Text
join sep [] = []
join sep (s ∷ []) = s
join sep (s ∷ t ∷ rest) = s ++ (sep ++ join sep (t ∷ rest))

-- `Text` without arguments.
unfoldable pub content : Hash → Text
unfolding text_fragments join
content h = join [] (text_fragments (items h))

-- `Get`
unfoldable pub get : Hash → List Text → List Text
unfolding named content
get h [] = []
get h (n ∷ ns) = map content (named n (items h)) ++ get h ns

-- The three bytes of U+241E, the separator of `Text`.
abbrev pub separator : Text
separator = 0xe2 ∷ 0x90 ∷ 0x9e ∷ []

-- `Text` with arguments.
unfoldable pub text_of : Hash → List Text → Text
unfolding get join
text_of h ns = join separator (get h ns)

-- `h.Text(n)`, as most callers write it.
unfoldable pub field : Hash → Text → Text
unfolding text_of
field h n = text_of h (n ∷ [])

unfoldable pub mem_text : Text → List Text → Bool
mem_text n [] = false
mem_text n (m ∷ ms) = text_eq m n || mem_text n ms

-- `Subtags`: the keys that the loop puts into a map, here in the order of their last element. The order
-- of the result is not determined by the source.
unfoldable pub distinct : List Text → List Text
unfolding mem_text
distinct [] = []
distinct (n ∷ ns) = let rest = distinct ns in if mem_text n rest then rest else n ∷ rest

unfoldable pub subtags : Hash → List Text
unfolding children distinct
subtags h = distinct (map name (children (items h)))

-- What a write through the pointer `h.First(n)` does to `h`: the child is changed in its place.
unfoldable pub update_first : Text → (Hash → Hash) → Items → Items
update_first n f nil = nil
update_first n f (text s r) = text s (update_first n f r)
update_first n f (child h r) =
    let rest = update_first n f r in if text_eq (name h) n then child (f h) r else child h rest

-- A change `f` through the pointer that `h.FirstOrAdd(n)` returns, by what `First` has found.
change_found : Option Cursor → Hash → Text → (Hash → Hash) → Hash
change_found none h n f = with_items h (append_child (items h) (f (new_hash n [])))
change_found (some _) h n f = with_items h (update_first n f (items h))

unfoldable pub at_first_or_add : Hash → Text → (Hash → Hash) → Hash
unfolding change_found new_hash
at_first_or_add h n f = change_found (first h n) h n f

-- `h.FirstOrAdd(n).SetText(s)`
unfoldable pub set_field : Hash → Text → Text → Hash
unfolding at_first_or_add
set_field h n s = at_first_or_add h n (λ c. set_text c (s ∷ []))

unfoldable pub remove_named : Text → Items → Items
remove_named n nil = nil
remove_named n (text s r) = text s (remove_named n r)
remove_named n (child h r) =
    let rest = remove_named n r in if text_eq (name h) n then r else child h rest

-- `RemoveFirst`: the child taken out, and what is left.
take_found : Option Cursor → Hash → Text → Option Hash × Hash
take_found none h n = (none, h)
take_found (some c) h n = (some c.here, with_items h (remove_named n (items h)))

unfoldable pub remove_first : Hash → Text → Option Hash × Hash
unfolding take_found
remove_first h n = take_found (first h n) h n

-- `Clone`: the loop appends a copy of each token to a fresh element.
unfoldable mutual
  unfolding append_string append_text append_child

  pub clone : Hash → Hash
  clone (element n is) = element n (clone_onto is nil)

  pub clone_onto : Items → Items → Items
  clone_onto nil acc = acc
  clone_onto (text s r) acc = clone_onto r (append_string acc s)
  clone_onto (child h r) acc = clone_onto r (append_child acc (clone h))

-- `AddClone`
unfoldable pub add_clone : Hash → Hash → Hash
unfolding clone add_with_ownership
add_clone h x = add_with_ownership h (clone x)
