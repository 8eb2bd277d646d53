-- ===== src/Audit/Tests.antt =====
-- Runs of go-susi/db/audit.go.
use limux_gosa.Base.{true, false, some, List, [], ◌∷◌, ◌&&◌, leb, map, ◌≡◌, refl}
use limux_gosa.Base.Text.{Text, codes, text_eq}
use limux_gosa.Audit.{
  count_digits, is_mac, is_audit, is_in_timestamp_range, newest_audits, at, find_first_entry,
  contains_text,
}
use limux_gosa.Audit.PropTree.{Links, make_prop_tree, index_of}
use limux_gosa.Audit.PropTree.Laws.{first_index, make_prop_tree_lem}
use limux_gosa.Audit.Range.{time_value, is_in_timestamp_range_lem}
use limux_gosa.Audit.File.{audit_scan_file}
use limux_gosa.Audit.File.Rows.{
  Entry, elements_of, entries_text, fill, start_row, is_requested, audit_scan_file_lem,
}

abbrev names : List Text
names = codes "aaa" ∷ codes "aab" ∷ codes "ill>egal" ∷ [] ∷ codes "hostname" ∷ codes "aaa" ∷ []

mac_run : is_mac (codes "aa:bb:0c:99:00:ff") && is_audit (codes "audit_2016_12312_3595_9") ≡ true
unfolding is_mac is_audit text_eq
mac_run = refl

-- The names of both forms of the time.
newest_run :
    newest_audits
      (codes "20160101000000")
      (codes "20161231235959")
      (codes "audit_20150101000000"
        ∷ codes "audit_20160101_000000"
        ∷ codes "other"
        ∷ codes "audit_20170101000000"
        ∷ [])
      []
      []
    ≡ (codes "audit_20160101_000000", codes "audit_20170101000000")
unfolding newest_audits text_eq
newest_run = refl

first_entry_run :
    find_first_entry
      (codes " <audit><a></a><ipaddress>1.2.3.4</ipaddress><hostname>Grutsch</hostname><entry>")
    ≡ record {
      start = at (codes "entry>");
      ipaddress = codes "1.2.3.4";
      hostname = codes "Grutsch";
    }
unfolding find_first_entry text_eq
first_entry_run = refl

contains_run : contains_text (codes "bc") (codes "abcd") ≡ true
unfolding contains_text
contains_run = refl

-- A text at the very end of the file is not found.
contains_end_run : contains_text (codes "cd") (codes "abcd") ≡ false
unfolding contains_text
contains_end_run = refl

make_prop_tree_example :
    (tree : Links) × (make_prop_tree names ≡ some tree)
    × ((name : Text) → index_of tree name ≡ first_index names 0 name)
make_prop_tree_example = make_prop_tree_lem names

is_in_timestamp_range_example :
    is_in_timestamp_range
      (codes "audit_2016_0101_000000")
      (codes "20151231235959")
      (codes "2016_01_01_000000")
    ≡ leb (time_value 0 (codes "20151231235959")) (time_value 0 (codes "2016_0101_000000"))
      && leb (time_value 0 (codes "2016_0101_000000")) (time_value 0 (codes "2016_01_01_000000"))
is_in_timestamp_range_example =
    is_in_timestamp_range_lem (codes "audit_2016_0101_000000") (codes "20151231235959")
      (codes "2016_01_01_000000") 14 (unfold count_digits in refl) (unfold count_digits in refl)
      (unfold count_digits in refl)

abbrev tree_of_names : Links
tree_of_names = (make_prop_tree_lem names).0

abbrev indent : Text
indent = 10 ∷ 32 ∷ 32 ∷ []

-- Entries as they are written, with deeper white space in front of the elements.
abbrev file_entries : List Entry
file_entries =
    (indent, (10 ∷ indent, codes "aab", codes "b") ∷ ([], codes "aaa", codes "a") ∷ [], indent)
    ∷ (10 ∷ [], (indent, codes "aaa", codes "x>y") ∷ (indent, codes "hostname", codes "h") ∷ [], [])
    ∷ []

rows_run :
    map
      (λ e.
        fill names
          (elements_of e)
          (start_row names (codes "m") (codes "i") (codes "host") (codes "l")))
      file_entries
    ≡ (codes "a" ∷ codes "b" ∷ [] ∷ [] ∷ codes "host" ∷ [] ∷ [])
      ∷ (codes "x>y" ∷ [] ∷ [] ∷ [] ∷ codes "h" ∷ [] ∷ [])
      ∷ []
unfolding fill start_row text_eq
rows_run = refl

audit_scan_file_example :
    audit_scan_file tree_of_names 6
      (codes "m")
      (codes "i")
      (codes "host")
      (codes "l")
      (entries_text file_entries (10 ∷ []))
    ≡ map
        (λ e.
          fill names
            (elements_of e)
            (start_row names (codes "m") (codes "i") (codes "host") (codes "l")))
        file_entries
unfolding text_eq
audit_scan_file_example =
    audit_scan_file_lem names tree_of_names (codes "m") (codes "i") (codes "host") (codes "l")
      file_entries (10 ∷ []) (make_prop_tree_lem names).1 (unfold is_requested in refl) refl
