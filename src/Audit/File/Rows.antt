-- ===== src/Audit/File/Rows.antt =====
-- The rows that `auditScanFile` of go-susi/db/audit.go makes of a file whose elements are all requested.
use limux_gosa.Base.{
  ℕ, zero, suc, ◌+◌, ◌<◌, ◌≤◌, length-append, eq_of_some, Bool, true, false, not, ◌&&◌, some, List,
  [], ◌∷◌, ◌++◌, ◌==◌, leb, length, drop, ◌≡◌, refl, sym, ap, ◌∙◌, arith, all, map,
}
use limux_gosa.Base.Text.{Text, codes, text_eq}
use limux_gosa.Audit.PropTree.{
  Links, Position, found, missing, panicked, find_index, index_of, make_prop_tree,
}
use limux_gosa.Audit.PropTree.Laws.{first_index, make_prop_tree_lem, closes-snoc}
use limux_gosa.Audit.File.{
  skip_to_tag, value, read_child, set_at, set_known, blank_row, read_entry, entry_at, scan_entries,
  new_row, audit_scan_file,
}
use limux_gosa.Audit.File.Tag.{last_of, and_cases, skip_to_tag-append, read_child-element}

abbrev pub tag_of : Text → Text
tag_of name = name ++ b'>' ∷ []

-- The white space in front of the start tag of an element, its name and its text.
abbrev pub Element : Type 0
Element = Text × Text × Text

-- The white space in front of an entry, its elements, and the white space in front of its end tag.
abbrev pub Entry : Type 0
Entry = Text × List Element × Text

abbrev pub elements_of : Entry → List Element
elements_of (_, es, _) = es

abbrev pub element_onto : Element → Text → Text
element_onto (gap, name, v) rest =
    gap ++ (b'<' ∷ (tag_of name ++ (v ++ (b'<' ∷ b'/' ∷ (tag_of name ++ rest)))))

unfoldable pub elements_onto : List Element → Text → Text
elements_onto [] rest = rest
elements_onto (e ∷ es) rest = element_onto e (elements_onto es rest)

abbrev pub entry_onto : Entry → Text → Text
entry_onto (gap, es, below) rest =
    gap ++ (b'<' ∷ (codes "entry>" ++ elements_onto es (below ++ (codes "</entry>" ++ rest))))

-- What follows the head of an audit file: the entries, white space and the end tag.
unfoldable pub entries_text : List Entry → Text → Text
unfolding elements_onto
entries_text [] gap = gap ++ codes "</audit>"
entries_text (e ∷ entries) gap = entry_onto e (entries_text entries gap)

abbrev pub is_found : Position → Bool
is_found (found i) = true
is_found missing = false
is_found panicked = false

abbrev pub begins_above : ℕ → Text → Bool
begins_above d [] = false
begins_above d (c ∷ s) = not (leb c d)

abbrev pub is_blank : Text → Bool
is_blank gap = all (λ d. leb d b'<') gap

-- An element that is requested, of a name that begins with no white space, and with no `<` in its text.
unfoldable pub is_requested : List Text → Element → Bool
unfolding first_index
is_requested props (gap, name, v) =
    is_blank gap
    && (begins_above b'<' name
        && (is_found (first_index props 0 (tag_of name)) && all (λ d. not (d == b'<')) v))

abbrev pub is_readable : List Text → Entry → Bool
is_readable props (gap, es, below) = is_blank gap && (all (is_requested props) es && is_blank below)

-- Each element's text at the place of its name in the list of the names requested.
unfoldable pub fill : List Text → List Element → List Text → List Text
unfolding first_index set_known
fill props [] row = row
fill props ((gap, name, v) ∷ es) row =
    fill props es (set_known (first_index props 0 (tag_of name)) v row)

-- The tag that comes next.
skip-name :
    (p : ℕ) (name rest : Text)
    → begins_above b'<' name ≡ true
    → skip_to_tag p (tag_of name ++ rest) ≡ (p, tag_of name ++ rest)
unfolding skip_to_tag
skip-name p [] rest h = cc h
skip-name p (c ∷ name) rest h = ground arith

-- A round of the loop over the tags of an entry, for a tag that is requested.
read_entry-value :
    (fuel : ℕ) (tree : Links) (prev : ℕ) (s tag : Text) (row : List Text) (i : ℕ) (v : Text)
    (last : ℕ) (rest : Text)
    → skip_to_tag prev s ≡ (b'<', tag)
    → text_eq tag [] ≡ false
    → read_child b'<' tree tag ≡ value i v last rest
    → read_entry (suc fuel) tree prev s row ≡ read_entry fuel tree last rest (set_at i v row)
unfolding read_entry
read_entry-value fuel tree prev s tag row i v last rest a b c =
    let read : read_child (skip_to_tag prev s).0 tree (skip_to_tag prev s).1 ≡ value i v last rest =
      rw a c in
    rw (a, b, a, read, read_entry)

-- The end of an entry.
read_entry-end :
    (fuel : ℕ) (tree : Links) (prev : ℕ) (s tag : Text) (row : List Text)
    → skip_to_tag prev s ≡ (b'/', tag)
    → text_eq tag [] ≡ false
    → read_entry (suc fuel) tree prev s row ≡ some (row, drop 6 tag)
unfolding read_entry
read_entry-end fuel tree prev s tag row a b = rw (a, b, a, a, read_entry)

not_empty : (name rest : Text) → text_eq (tag_of name ++ rest) [] ≡ false
unfolding text_eq
not_empty [] rest = refl
not_empty (c ∷ name) rest = refl

skip_end :
    (rest : Text) → skip_to_tag b'<' (codes "/entry>" ++ rest) ≡ (b'/', codes "entry>" ++ rest)
unfolding skip_to_tag
skip_end rest = refl

skip_start :
    (rest : Text) → skip_to_tag b'<' (codes "entry>" ++ rest) ≡ (b'<', codes "entry>" ++ rest)
unfolding skip_to_tag
skip_start rest = refl

length-elements_onto :
    (es : List Element) (rest : Text) → length es + length rest ≤ length (elements_onto es rest)
unfolding elements_onto
length-elements_onto [] rest = omega arith
length-elements_onto ((gap, name, v) ∷ es) rest =
    let after : Text =
      tag_of name ++ (v ++ (b'<' ∷ b'/' ∷ (tag_of name ++ elements_onto es rest))) in
    omega (
      arith,
      length-append gap (b'<' ∷ after),
      length-append (tag_of name) (v ++ (b'<' ∷ b'/' ∷ (tag_of name ++ elements_onto es rest))),
      length-append v (b'<' ∷ b'/' ∷ (tag_of name ++ elements_onto es rest)),
      length-append (tag_of name) (elements_onto es rest),
      length-elements_onto es rest,
    )

scan_entries-some :
    (fuel : ℕ) (tree : Links) (row : List Text) (s tag : Text) (filled : List Text) (rest : Text)
    → (skip_to_tag 0 s).1 ≡ tag
    → entry_at tree row tag ≡ some (filled, rest)
    → scan_entries (suc fuel) tree row s ≡ filled ∷ scan_entries fuel tree row rest
unfolding scan_entries
scan_entries-some fuel tree row s tag filled rest a b =
    let here : entry_at tree row (skip_to_tag 0 s).1 ≡ some (filled, rest) = rw a b in
    rw (here, scan_entries)

entry_at-entry :
    (tree : Links) (row : List Text) (body : Text)
    → entry_at tree row (codes "entry>" ++ body)
      ≡ read_entry (suc (length (codes "entry>" ++ body))) tree b'>' body row
unfolding entry_at
entry_at-entry tree row body = refl

found_place : (q : Position) → is_found q ≡ true → (i : ℕ) × (q ≡ found i)
found_place (found i) h = (i, refl)
found_place missing h = cc h
found_place panicked h = cc h

module _ (props : List Text) (tree : Links)
    (same : (name : Text)
      → find_index (tag_of name) (tag_of name) tree ≡ first_index props 0 (tag_of name)) where
  read_element :
      (fuel prev : ℕ) (gap name v rest : Text) (row : List Text)
      → is_requested props (gap, name, v) ≡ true
      → (p : ℕ) × (read_entry (suc fuel) tree prev (element_onto (gap, name, v) rest) row
          ≡ read_entry fuel tree p rest (set_known (first_index props 0 (tag_of name)) v row))
  unfolding is_requested
  read_element fuel prev gap name v rest row h =
      let (blank, h0) =
        and_cases (is_blank gap)
          (begins_above b'<' name
            && (is_found (first_index props 0 (tag_of name)) && all (λ d. not (d == b'<')) v))
          h in
      let (above, h') =
        and_cases (begins_above b'<' name)
          (is_found (first_index props 0 (tag_of name)) && all (λ d. not (d == b'<')) v) h0 in
      let (known, plain) =
        and_cases (is_found (first_index props 0 (tag_of name))) (all (λ d. not (d == b'<')) v)
          h' in
      let (i, e) = found_place (first_index props 0 (tag_of name)) known in
      let after : Text = v ++ (b'<' ∷ b'/' ∷ (tag_of name ++ rest)) in
      (
        last_of b'/' (tag_of name),
        read_entry-value fuel tree prev (element_onto (gap, name, v) rest) (tag_of name ++ after)
              row i v (last_of b'/' (tag_of name)) rest
              (skip_to_tag-append prev gap (tag_of name ++ after) blank
                ∙ skip-name b'<' name after above)
              (not_empty name after)
              (read_child-element (tag_of name) b'<' tree i v rest (same name ∙ e) plain)
            ∙ rw e (unfold set_known in refl),
      )

  read_elements :
      (es : List Element) (below : Text) (fuel prev : ℕ) (rest : Text) (row : List Text)
      → all (is_requested props) es ≡ true
      → is_blank below ≡ true
      → length es < fuel
      → read_entry fuel tree prev (elements_onto es (below ++ (codes "</entry>" ++ rest))) row
        ≡ some (fill props es row, rest)
  unfolding elements_onto fill
  read_elements es below zero prev rest row h b g = absurd (ground arith)
  read_elements [] below (suc fuel) prev rest row h b g =
      read_entry-end fuel tree prev (below ++ (codes "</entry>" ++ rest)) (codes "entry>" ++ rest)
        row (skip_to_tag-append prev below (codes "/entry>" ++ rest) b ∙ skip_end rest)
        (unfold text_eq in refl)
  read_elements ((gap, name, v) ∷ es) below (suc fuel) prev rest row h b g =
      let (now, later) =
        and_cases (is_requested props (gap, name, v)) (all (is_requested props) es) h in
      let more : Text = elements_onto es (below ++ (codes "</entry>" ++ rest)) in
      let (p, e) = read_element fuel prev gap name v more row now in
      e
      ∙ read_elements es below fuel p rest (set_known (first_index props 0 (tag_of name)) v row)
          later b (omega arith)

  scan_entry :
      (fuel : ℕ) (gap below : Text) (es : List Element) (rest : Text) (row : List Text)
      → is_readable props (gap, es, below) ≡ true
      → scan_entries (suc fuel) tree row (entry_onto (gap, es, below) rest)
        ≡ fill props es row ∷ scan_entries fuel tree row rest
  unfolding scan_entries
  scan_entry fuel gap below es rest row h =
      let (blank, h') =
        and_cases (is_blank gap) (all (is_requested props) es && is_blank below) h in
      let (all_requested, b) = and_cases (all (is_requested props) es) (is_blank below) h' in
      let body : Text = elements_onto es (below ++ (codes "</entry>" ++ rest)) in
      let tag : skip_to_tag 0 (entry_onto (gap, es, below) rest) ≡ (b'<', codes "entry>" ++ body) =
        skip_to_tag-append 0 gap (codes "entry>" ++ body) blank ∙ skip_start body in
      let enough : length es < suc (length (codes "entry>" ++ body)) =
        omega (arith, length-elements_onto es (below ++ (codes "</entry>" ++ rest))) in
      scan_entries-some fuel tree row (entry_onto (gap, es, below) rest) (codes "entry>" ++ body)
        (fill props es row) rest (ap (λ q. q.1) tag)
        (entry_at-entry tree row body
          ∙ read_elements es below (suc (length (codes "entry>" ++ body))) b'>' rest row
              all_requested b enough)

  scan_lem :
      (entries : List Entry) (gap : Text) (fuel : ℕ) (row : List Text)
      → all (is_readable props) entries ≡ true
      → is_blank gap ≡ true
      → length entries < fuel
      → scan_entries fuel tree row (entries_text entries gap)
        ≡ map (λ e. fill props (elements_of e) row) entries
  unfolding entries_text scan_entries
  scan_lem entries gap zero row h b g = absurd (ground arith)
  scan_lem [] gap (suc fuel) row h b g =
      rw (skip_to_tag-append 0 gap (codes "/audit>") b, scan_entries)
  scan_lem ((front, es, below) ∷ entries) gap (suc fuel) row h b g =
      let (now, later) =
        and_cases (is_readable props (front, es, below)) (all (is_readable props) entries) h in
      scan_entry fuel front below es (entries_text entries gap) row now
      ∙ ap (λ rows. fill props es row ∷ rows) (scan_lem entries gap fuel row later b (omega arith))

length-entries_text :
    (entries : List Entry) (gap : Text) → length entries ≤ length (entries_text entries gap)
unfolding entries_text
length-entries_text [] gap = omega arith
length-entries_text ((front, es, below) ∷ entries) gap =
    let end : Text = codes "</entry>" ++ entries_text entries gap in
    let body : Text = elements_onto es (below ++ end) in
    omega (
      arith,
      length-entries_text entries gap,
      length-append front (b'<' ∷ (codes "entry>" ++ body)),
      length-append (codes "entry>") body,
      length-elements_onto es (below ++ end),
      length-append below end,
      length-append (codes "</entry>") (entries_text entries gap),
    )

-- The row an entry starts with, by the places of the names requested.
unfoldable pub start_row : List Text → Text → Text → Text → Text → List Text
unfolding first_index set_known
start_row props mac ip host lastaudit =
    set_known (first_index props 0 (codes "lastaudit>")) lastaudit (
      set_known (first_index props 0 (codes "hostname>")) host (
        set_known (first_index props 0 (codes "ipaddress>")) ip
          (set_known (first_index props 0 (codes "macaddress>")) mac (blank_row (length props)))))

find_index-index_of :
    (tree : Links) (name : Text)
    → find_index (tag_of name) (tag_of name) tree ≡ index_of tree (tag_of name)
unfolding index_of
find_index-index_of tree name = rw (closes-snoc name)

-- With the tree that `makePropTree` makes of the names that are requested, `auditScanFile` makes a row of
-- each entry of a file, and no other row: the fields of the head at the places of their names, and over
-- them the text of each element at the place of the first name that reads as the element's. Each element
-- has a start and an end tag, is requested, and has no `<` in its text; what stands in front of each of the
-- other tags are bytes up to `<`, such as white space.
pub audit_scan_file_lem :
    (props : List Text) (tree : Links) (mac ip host lastaudit : Text) (entries : List Entry)
    (gap : Text)
    → make_prop_tree props ≡ some tree
    → all (is_readable props) entries ≡ true
    → is_blank gap ≡ true
    → audit_scan_file tree (length props) mac ip host lastaudit (entries_text entries gap)
      ≡ map (λ e. fill props (elements_of e) (start_row props mac ip host lastaudit)) entries
unfolding audit_scan_file new_row start_row
audit_scan_file_lem props tree mac ip host lastaudit entries gap made readable blank =
    let (tree', made', same') = make_prop_tree_lem props in
    let is_same : tree' ≡ tree = eq_of_some (sym made' ∙ made) in
    let same : (name : Text) → index_of tree name ≡ first_index props 0 name =
      λ name. ap (λ l. index_of l name) (sym is_same) ∙ same' name in
    rw
      (
        same (codes "lastaudit>"),
        same (codes "hostname>"),
        same (codes "ipaddress>"),
        same (codes "macaddress>"),
      )
      (scan_lem props tree (λ name. find_index-index_of tree name ∙ same (tag_of name)) entries gap
        (suc (length (entries_text entries gap))) (start_row props mac ip host lastaudit) readable
        blank (omega (arith, length-entries_text entries gap)))
