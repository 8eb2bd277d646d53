-- ===== src/Audit.antt =====
-- go-susi/db/audit.go: the search of a machine's directory for its newest audit, and the head of an audit
-- file.
pub mod PropTree
pub mod Range
pub mod File
pub mod Tests
use limux_gosa.Base.{
  ℕ, zero, suc, ◌+◌, ◌-◌, Bool, true, false, not, ◌&&◌, ◌||◌, Option, none, some, List, [], ◌∷◌,
  ◌++◌, ◌==◌, ltb, leb, length, take, drop, drop_while, keep, if◌then◌else◌, Ordering,
}
use limux_gosa.Base.Text.{starts_with, Text, codes, text_eq, is_digit, compare_text}

is_hex : ℕ → Bool
is_hex c = is_digit c || (leb b'a' c && leb c b'f')

are_pairs : Text → Bool
are_pairs (a ∷ b ∷ []) = is_hex a && is_hex b
are_pairs (a ∷ b ∷ c ∷ s) = is_hex a && is_hex b && c == b':' && are_pairs s
are_pairs _ = false

-- `isMAC`
unfoldable pub is_mac : Text → Bool
unfolding are_pairs is_hex
is_mac s = length s == 17 && are_pairs s

-- One round of the loop of `isAudit`, for what the rest comes to.
unfoldable pub count_digit : ℕ → Option ℕ → Option ℕ
count_digit c none = none
count_digit c (some n) = if c == b'_' then some n else if is_digit c then some (suc n) else none

-- The loop of `isAudit`: the number of digits, if there are only digits and underscores.
unfoldable pub count_digits : Text → Option ℕ
unfolding count_digit
count_digits [] = some 0
count_digits (c ∷ s) = count_digit c (count_digits s)

-- `isAudit`
unfoldable pub is_audit : Text → Bool
unfolding count_digits
is_audit s =
    let has_time : Bool = elim (count_digits (drop 6 s)) [ none ↦ false | some n ↦ n == 14 ] in
    leb 20 (length s) && text_eq (take 6 s) (codes "audit_") && has_time

-- The first loop of `isInTimestampRange`: whether the bytes of s are not below those of the timestamp.
unfoldable pub not_below : Text → Text → Bool
not_below [] t = true
not_below (x ∷ s) [] = true
not_below (x ∷ s) (y ∷ t) = elim (x == b'_') [
  | true ↦ not_below s (y ∷ t)
  | false ↦ elim (y == b'_') [
    | true ↦ not_below (x ∷ s) t
    | false ↦ elim (x == y) [ true ↦ not_below s t | false ↦ ltb y x ]
  ]
]

-- The second loop.
unfoldable pub not_above : Text → Text → Bool
not_above [] t = true
not_above (x ∷ s) [] = true
not_above (x ∷ s) (y ∷ t) = elim (x == b'_') [
  | true ↦ not_above s (y ∷ t)
  | false ↦ elim (y == b'_') [
    | true ↦ not_above (x ∷ s) t
    | false ↦ elim (x == y) [ true ↦ not_above s t | false ↦ ltb x y ]
  ]
]

-- `isInTimestampRange`, for a name of at least six bytes.
unfoldable pub is_in_timestamp_range : Text → Text → Text → Bool
unfolding not_below not_above
is_in_timestamp_range s timestamp1 timestamp2 =
    not_below (drop 6 s) timestamp1 && not_above (drop 6 s) timestamp2

-- `auditFilenameToTimestamp`
unfoldable pub audit_filename_to_timestamp : Text → Text
audit_filename_to_timestamp = keep is_digit

-- `s > t` of strings
unfoldable pub is_after : Text → Text → Bool
unfolding compare_text
is_after s t = elim (compare_text s t) [
  | Ordering.gt ↦ true
  | Ordering.lt ↦ false
  | Ordering.eq ↦ false
]

-- The loop over the names in a machine's directory, with `best_auditname` and `last_auditname`.
unfoldable pub newest_audits : Text → Text → List Text → Text → Text → Text × Text
unfolding is_audit is_in_timestamp_range is_after
newest_audits ts1 ts2 [] best last = (best, last)
newest_audits ts1 ts2 (name ∷ names) best last =
    let best' =
      if is_audit name && is_after name best && is_in_timestamp_range name ts1 ts2
      then name
      else best in
    let last' = if is_audit name && is_after name last then name else last in
    newest_audits ts1 ts2 names best' last'

pub record AuditId : Type 0 where
  pub mac : Text
  pub ip : Text
  pub hostname : Text
  pub timestamp : Text

-- `AuditID{MAC:mac}`
abbrev pub only_mac : Text → AuditId
only_mac mac = record { mac = mac; ip = []; hostname = []; timestamp = [] }

-- `extractAuditID`
unfoldable pub extract_audit_id : Text → Text → AuditId
unfolding audit_filename_to_timestamp
extract_audit_id mac last = record (only_mac mac) { timestamp = audit_filename_to_timestamp last }

-- Where the first entry starts, by what is behind the byte at the index that is returned; -1 for a file
-- that ends too early, -2 for one that is no audit.
pub data Start : Type 0 where
  at : Text → Start
  corrupt : Start
  no_audit : Start

pub record Head : Type 0 where
  pub start : Start
  pub ipaddress : Text
  pub hostname : Text

-- `for data[i] != c { i++ }`
abbrev pub until : ℕ → Text → Text
until c = drop_while (λ d. not (d == c))

-- The bytes before the next `c`.
unfoldable pub before : ℕ → Text → Text
before c [] = []
before c (d ∷ s) = if d == c then [] else d ∷ before c s

-- What is behind an unknown tag.
abbrev pub skip_tag : Text → Text
skip_tag s = drop 1 (until b'>' (until b'<' s))

-- How many bytes the slice takes that is compared at a tag.
abbrev pub slice_length : ℕ → ℕ
slice_length c = if c == b'h' then 9 else if c == b'i' then 10 else if c == b'e' then 6 else 0

-- The loop over the tags. A slice or an index past the end is the panic that the function recovers from;
-- each round takes a byte, so that a fuel above the number of bytes is enough.
unfoldable pub find_entry : ℕ → Text → Text → Text → Head
unfolding before
find_entry zero s ip host = record { start = corrupt; ipaddress = ip; hostname = host }
find_entry (suc fuel) s ip host =
    let tag = drop_while (λ c. leb c b'<') s in
    elim tag [
      | [] ↦ record { start = corrupt; ipaddress = ip; hostname = host }
      | c ∷ r ↦
          if ltb (length (c ∷ r)) (slice_length c)
          then record { start = corrupt; ipaddress = ip; hostname = host }
          else if starts_with (codes "entry>") (c ∷ r)
          then record { start = at (c ∷ r); ipaddress = ip; hostname = host }
          else if starts_with (codes "hostname>") (c ∷ r)
          then (let value = drop 9 (c ∷ r) in
              elim (until b'<' value) [
                | [] ↦ record { start = corrupt; ipaddress = ip; hostname = host }
                | _ ↦ find_entry fuel (drop 11 (until b'<' value)) ip (before b'<' value)
              ])
          else if starts_with (codes "ipaddress>") (c ∷ r)
          then (let value = drop 10 (c ∷ r) in
              elim (until b'<' value) [
                | [] ↦ record { start = corrupt; ipaddress = ip; hostname = host }
                | _ ↦ find_entry fuel (drop 12 (until b'<' value)) (before b'<' value) host
              ])
          else find_entry fuel (skip_tag (c ∷ r)) ip host
    ]

-- Behind an optional `<?...?>` and white space; nothing is left where the code panics.
unfoldable pub skip_prolog : Text → Text
skip_prolog s =
    let body = if starts_with (codes "<?") s then drop 1 (until b'>' (drop 2 s)) else s in
    drop_while (λ c. leb c b' ') body

-- `findFirstEntry`; a slice past the end of the file is a panic.
unfoldable pub find_first_entry : Text → Head
unfolding skip_prolog find_entry
find_first_entry s =
    let body = skip_prolog s in
    if ltb (length body) 7
    then record { start = corrupt; ipaddress = []; hostname = [] }
    else if text_eq (take 7 body) (codes "<audit>")
    then find_entry (suc (length body)) (drop 7 body) [] []
    else record { start = no_audit; ipaddress = []; hostname = [] }

-- The loop that looks for a text in the file: it stops before the place where the text would end the file.
unfoldable pub contains_text : Text → Text → Bool
contains_text pat [] = false
contains_text pat (c ∷ s) =
    let later = contains_text pat s in
    if ltb (length pat) (length (c ∷ s)) then starts_with pat (c ∷ s) || later else false

-- What becomes of a machine: it counts as unknown, it is left out, or its entries are scanned from the
-- place that `findFirstEntry` has returned.
pub data Verdict : Type 0 where
  unknown : AuditId → Verdict
  no_match : AuditId → Verdict
  audited : Text → Text → Text → Text → Verdict

verdict_of : Text → Text → Text → Text → Option Text → Verdict
unfolding find_first_entry contains_text audit_filename_to_timestamp
verdict_of mac contains best last none = unknown (only_mac mac)
verdict_of mac contains best last (some file) =
    let head = find_first_entry file in
    let others = record (only_mac mac) { ip = head.ipaddress; hostname = head.hostname } in
    elim (head.start) [
      | corrupt ↦ unknown others
      | no_audit ↦ unknown others
      | at rest ↦
          if text_eq contains [] || contains_text contains file
          then audited head.ipaddress head.hostname (audit_filename_to_timestamp last) rest
          else no_match (record others { timestamp = audit_filename_to_timestamp best })
    ]

-- `auditScanDir` for the names in the directory, if it can be read, and the files below it.
unfoldable pub audit_scan_dir :
    Text → Text → Text → Text → Option (List Text) → (Text → Option Text) → Verdict
unfolding newest_audits extract_audit_id verdict_of
audit_scan_dir ts1 ts2 mac contains none file = unknown (only_mac mac)
audit_scan_dir ts1 ts2 mac contains (some names) file =
    let (best, last) = newest_audits ts1 ts2 names [] [] in
    if not (text_eq best [])
    then verdict_of mac contains best last (file best)
    else if text_eq last []
    then unknown (only_mac mac)
    else unknown (extract_audit_id mac last)

-- The results of `AuditScanSubdirs`, and what it has handed to `auditScanFile`.
pub record Scan : Type 0 where
  pub nonmatch : List AuditId
  pub noaudit : List AuditId
  pub unknowns : ℕ
  pub scanned : List (Text × Verdict)

unfoldable pub add_verdict : Bool → Text → Verdict → Scan → Scan
add_verdict returnothers mac (unknown id) s = record s {
  noaudit = if returnothers then s.noaudit ++ id ∷ [] else s.noaudit;
  unknowns = s.unknowns + 1;
}
add_verdict returnothers mac (no_match id) s = record s {
  nonmatch = if returnothers then s.nonmatch ++ id ∷ [] else s.nonmatch;
}
add_verdict returnothers mac (audited ip host last rest) s = record s {
  scanned = s.scanned ++ (mac, audited ip host last rest) ∷ [];
}

-- A directory entry: its name, whether it is a directory, and what is found in it.
pub record SubDir : Type 0 where
  pub name : Text
  pub is_dir : Bool
  pub names : Option (List Text)
  pub file : Text → Option Text

-- The loop of `AuditScanSubdirs` over the machines.
unfoldable pub audit_scan_subdirs : Text → Text → Text → Bool → List SubDir → Scan → Scan
unfolding is_mac audit_scan_dir add_verdict
audit_scan_subdirs ts1 ts2 contains returnothers [] s = s
audit_scan_subdirs ts1 ts2 contains returnothers (d ∷ ds) s =
    let v = audit_scan_dir ts1 ts2 d.name contains d.names d.file in
    audit_scan_subdirs ts1 ts2 contains returnothers ds
      (if d.is_dir && is_mac d.name then add_verdict returnothers d.name v s else s)
