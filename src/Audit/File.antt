-- ===== src/Audit/File.antt =====
-- go-susi/db/audit.go: `auditScanFile`, which makes a row of each entry of an audit file.
pub mod Tag
pub mod Rows
use limux_gosa.Base.{
  ℕ, zero, suc, ◌+◌, ◌-◌, Bool, true, false, ◌&&◌, Option, none, some, List, [], ◌∷◌, ◌++◌, ◌==◌,
  ltb, leb, length, take, drop, if◌then◌else◌,
}
use limux_gosa.Base.Text.{starts_with, Text, codes, text_eq}
use limux_gosa.Audit.{until, before}
use limux_gosa.Audit.PropTree.{
  ElementTree, Links, Position, found, missing, panicked, name_of, position_of, links_of, find,
  index_of,
}

-- Where the walk through the tree ends: without a link, at a node with a name, or at the end of the file.
pub data Lookup : Type 0 where
  absent : Lookup
  leaf : ElementTree → Lookup
  ended : Lookup

-- The loop over the links, for the bytes from position k on.
unfoldable pub look_up : Text → Links → Lookup
unfolding find
look_up [] l = ended
look_up (c ∷ s) l = elim (find c l) [
  | none ↦ absent
  | some t ↦
      let deeper = look_up s (links_of t) in if text_eq (name_of t) [] then deeper else leaf t
]

-- `entry[i] = value`; an index of the tree is that of a name, for which a row has a field.
unfoldable pub set_at : ℕ → Text → List Text → List Text
set_at i v [] = []
set_at zero v (w ∷ row) = v ∷ row
set_at (suc i) v (w ∷ row) = w ∷ set_at i v row

-- `for data[i] <= '<' { i++ }`: the byte in front of the place, and what follows.
unfoldable pub skip_to_tag : ℕ → Text → ℕ × Text
skip_to_tag prev [] = (prev, [])
skip_to_tag prev (c ∷ s) = let rest = skip_to_tag c s in if leb c b'<' then rest else (prev, c ∷ s)

-- The byte in front of the next `>`.
unfoldable pub byte_before_close : ℕ → Text → ℕ
byte_before_close prev [] = prev
byte_before_close prev (c ∷ s) =
    let rest = byte_before_close c s in if c == b'>' then prev else rest

-- What is left behind a tag that is not requested; `prev` is the byte in front of it.
unfoldable pub skip_unrequested : ℕ → Text → Text
unfolding byte_before_close
skip_unrequested prev s =
    let close = until b'>' s in
    if byte_before_close prev s == b'/'
    then until b'<' close
    else until b'<' (drop 1 (until b'<' close))

-- What is left behind so many bytes, and the byte in front of it.
unfoldable pub advance : ℕ → ℕ → Text → ℕ × Text
advance prev zero s = (prev, s)
advance prev (suc k) [] = (prev, [])
advance prev (suc k) (c ∷ s) = advance c k s

-- The place and the value of a tag that is requested, with what is behind it and the byte in front of that;
-- else what is behind the tag.
pub data Child : Type 0 where
  value : ℕ → Text → ℕ → Text → Child
  skipped : Text → Child
  panic : Child

-- The test for `<empty/>`.
unfoldable pub is_empty_tag : Text → Text → Bool
is_empty_tag name s = starts_with (take (length name - 1) name ++ b'/' ∷ b'>' ∷ []) s

-- A node with a name, and the file from the tag on.
unfoldable pub read_leaf : ℕ → ElementTree → Text → Child
unfolding is_empty_tag skip_unrequested before
read_leaf prev t s =
    let n = length (name_of t) in
    if ltb (length s) n
    then panic
    else if starts_with (name_of t) s
    then (let (before_rest, rest) = advance 0 (n + 2) (until b'<' (drop n s)) in
        value (position_of t) (before b'<' (drop n s)) before_rest rest)
    else if ltb n (length s)
    then (if is_empty_tag (name_of t) s
        then value (position_of t) [] b'>' (drop (suc n) s)
        else skipped (skip_unrequested prev s))
    else panic

-- One tag in an entry.
unfoldable pub read_child : ℕ → Links → Text → Child
unfolding look_up read_leaf skip_unrequested
read_child prev tree s = elim (look_up s tree) [
  | absent ↦ skipped (skip_unrequested prev s)
  | ended ↦ panic
  | leaf t ↦ read_leaf prev t s
]

-- The loop over the tags of an entry: the row and what is behind `</entry>`, or a panic. `prev` is the byte
-- in front.
unfoldable pub read_entry : ℕ → Links → ℕ → Text → List Text → Option (List Text × Text)
unfolding skip_to_tag read_child set_at
read_entry zero tree prev s row = none
read_entry (suc fuel) tree prev s row =
    let (before_tag, tag) = skip_to_tag prev s in
    elim (text_eq tag []) [
      | true ↦ none
      | false ↦ elim (before_tag == b'/') [
        | true ↦ some (row, drop 6 tag)
        | false ↦ elim (read_child before_tag tree tag) [
          | panic ↦ none
          | value i v p rest ↦ read_entry fuel tree p rest (set_at i v row)
          | skipped rest ↦ read_entry fuel tree 0 rest row
        ]
      ]
    ]

-- `if index >= 0 { entry[index] = value }`
unfoldable pub set_known : Position → Text → List Text → List Text
unfolding set_at
set_known (found i) v row = set_at i v row
set_known missing v row = row
set_known panicked v row = row

abbrev pub blank_row : ℕ → List Text
blank_row zero = []
blank_row (suc n) = [] ∷ blank_row n

-- The row an entry starts with.
unfoldable pub new_row : Links → ℕ → Text → Text → Text → Text → List Text
unfolding index_of set_known
new_row tree size mac ip host lastaudit = set_known (index_of tree (codes "lastaudit>")) lastaudit (
    set_known (index_of tree (codes "hostname>")) host (
      set_known (index_of tree (codes "ipaddress>")) ip
        (set_known (index_of tree (codes "macaddress>")) mac (blank_row size))))

-- An entry, if one begins here; nothing where the scan ends.
unfoldable pub entry_at : Links → List Text → Text → Option (List Text × Text)
unfolding read_entry
entry_at tree row tag =
    if starts_with (codes "entry>") tag
    then read_entry (suc (length tag)) tree b'>' (drop 6 tag) row
    else none

-- The loop over the entries: the rows for which `auditScanFunc` is called. Each round takes bytes of the
-- file, so that a fuel above their number is enough; a panic ends the loop.
unfoldable pub scan_entries : ℕ → Links → List Text → Text → List (List Text)
unfolding skip_to_tag entry_at
scan_entries zero tree row s = []
scan_entries (suc fuel) tree row s = elim (entry_at tree row (skip_to_tag 0 s).1) [
  | none ↦ []
  | some (filled, rest) ↦ filled ∷ scan_entries fuel tree row rest
]

-- `auditScanFile`, for the file from the place of its first entry on.
unfoldable pub audit_scan_file : Links → ℕ → Text → Text → Text → Text → Text → List (List Text)
unfolding new_row scan_entries
audit_scan_file tree size mac ip host lastaudit s =
    scan_entries (suc (length s)) tree (new_row tree size mac ip host lastaudit) s
