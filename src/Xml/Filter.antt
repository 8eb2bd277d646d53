-- ===== src/Xml/Filter.antt =====
-- go-susi/xml/xml_filter.go: the filters and the where expressions that build them.
-- A `HashFilter` is its method `Accepts`, on an item that may be nil (`none`).
pub mod Likeness
pub mod Match
pub mod Meaning
pub mod Order
use limux_gosa.Base.{
  ℕ, Bool, true, false, not, ◌&&◌, ◌||◌, Option, none, some, List, [], ◌∷◌, ◌++◌, map, ◌==◌, any,
  all, Ordering, if◌then◌else◌,
}
use limux_gosa.Base.Int.{ℤ, pos, negsuc, compare_ℤ}
use limux_gosa.Base.Text.{Text, codes, text_eq, lower, to_lower, compare_text, parse_int}
use limux_gosa.Xml.Hash.{Hash, name, items, get, field, named, subtags}

abbrev pub Filter : Type 0
Filter = Option Hash → Bool

-- `FilterAll` and `FilterNone`
unfoldable pub filter_all : Filter
filter_all none = false
filter_all (some h) = true

unfoldable pub filter_none : Filter
filter_none item = false

-- The loops of `filterand.Accepts` and `filteror.Accepts`.
abbrev accepted_by_all : List Filter → Option Hash → Bool
accepted_by_all [] item = true
accepted_by_all (f ∷ fs) item =
    let rest = accepted_by_all fs item in if not (f item) then false else rest

abbrev accepted_by_one : List Filter → Option Hash → Bool
accepted_by_one [] item = false
accepted_by_one (f ∷ fs) item = let rest = accepted_by_one fs item in if f item then true else rest

-- `FilterAnd`
unfoldable pub filter_and : List Filter → Filter
filter_and fs none = false
filter_and fs (some h) = accepted_by_all fs (some h)

-- `FilterOr`
unfoldable pub filter_or : List Filter → Filter
filter_or fs none = false
filter_or fs (some h) = accepted_by_one fs (some h)

-- `FilterNot`
unfoldable pub filter_not : Filter → Filter
filter_not f none = false
filter_not f (some h) = not (f (some h))

-- The regular expressions that the file builds: anchored at both ends, case-insensitive, a sequence of
-- quoted characters, `.` and `.*`.
pub data Piece : Type 0 where
  literal : ℕ → Piece
  any_char : Piece
  any_chars : Piece

-- `regexp.QuoteMeta`
abbrev pub quote_meta : Text → List Piece
quote_meta = map literal

-- `replaceLikeMetaChars`, on a quoted text: neither "%" nor "_" is escaped by the quoting.
like_piece : ℕ → Piece
like_piece c = if c == b'%' then any_chars else if c == b'_' then any_char else literal c

unfoldable pub like_meta : Text → List Piece
unfolding like_piece
like_meta = map like_piece

-- `.*` takes any number of characters but newlines, and `rest` matches what is behind.
some_suffix : (Text → Bool) → Text → Bool
some_suffix rest [] = rest []
some_suffix rest (c ∷ t) = rest (c ∷ t) || (not (c == b'\n') && some_suffix rest t)

-- `MatchString` of such an expression.
unfoldable pub match_string : List Piece → Text → Bool
unfolding some_suffix lower
match_string [] [] = true
match_string [] (c ∷ t) = false
match_string (literal c ∷ p) [] = false
match_string (literal c ∷ p) (d ∷ t) = lower c == lower d && match_string p t
match_string (any_char ∷ p) [] = false
match_string (any_char ∷ p) (d ∷ t) = not (d == b'\n') && match_string p t
match_string (any_chars ∷ p) t = some_suffix (match_string p) t

-- `FilterRegexp`
unfoldable pub filter_regexp : Text → List Piece → Filter
filter_regexp column re none = false
filter_regexp column re (some h) = any (match_string re) (get h (column ∷ []))

abbrev pub ord_eq : Ordering → Ordering → Bool
ord_eq Ordering.lt Ordering.lt = true
ord_eq Ordering.eq Ordering.eq = true
ord_eq Ordering.gt Ordering.gt = true
ord_eq _ _ = false

-- `math.MinInt64` stands for a compare value that is no number.
abbrev min_int64 : ℤ
min_int64 = negsuc 9223372036854775807

unfoldable pub compare_number : Text → ℤ
unfolding parse_int
compare_number v = elim (parse_int v) [ none ↦ min_int64 | some n ↦ n ]

-- How `filterrel.Accepts` compares one value of the column: as numbers where both are, and else as
-- lower-case bytes.
unfoldable pub compare_value : Text → Text → Ordering
unfolding compare_number
compare_value value v =
    let by_bytes = compare_text (to_lower value) (to_lower v) in
    elim (compare_ℤ (compare_number v) min_int64) [
      | Ordering.eq ↦ by_bytes
      | _ ↦ elim (parse_int value) [ none ↦ by_bytes | some n ↦ compare_ℤ n (compare_number v) ]
    ]

-- `FilterRel`
unfoldable pub filter_rel : Text → Text → Ordering → Ordering → Filter
unfolding compare_value
filter_rel column v accept1 accept2 none = false
filter_rel column v accept1 accept2 (some h) =
    any (λ value. let cmp = compare_value value v in ord_eq accept1 cmp || ord_eq accept2 cmp)
      (get h (column ∷ []))

-- The loop of `filtersimple.Accepts` over the pairs; a last name without a value is not read.
unfoldable pub simple_accepts : List Text → Hash → Bool
simple_accepts [] h = true
simple_accepts (tag ∷ []) h = true
simple_accepts (tag ∷ v ∷ rest) h =
    any (λ value. text_eq (to_lower value) (to_lower v)) (get h (tag ∷ [])) && simple_accepts rest h

-- `FilterSimple`
unfoldable pub filter_simple : List Text → Filter
unfolding simple_accepts
filter_simple pairs none = false
filter_simple pairs (some h) = simple_accepts pairs h

pub data WhereError : Type 0 where
  wrong_wrapper wrong_connector many_columns no_column wrong_operator : WhereError

pub data Result {ℓ} (A : Type ℓ) : Type ℓ where
  ok : A → Result A
  err : WhereError → Result A

infixl 5 ◌>>=◌
abbrev pub ◌>>=◌ {ℓ κ} : {A : Type ℓ} {B : Type κ} → Result A → (A → Result B) → Result B
ok a >>= f = f a
err e >>= f = err e

-- The loop over `phrase.Subtags()`, with the column found so far.
unfoldable pub find_column : Text → List Text → Result Text
find_column column [] = ok column
find_column column (tag ∷ tags) =
    let rest = find_column column tags in
    let found = find_column tag tags in
    if text_eq tag (codes "operator")
    then rest
    else if text_eq column []
    then found
    else err many_columns

-- The switch over the operator.
unfoldable pub operator_filter : Text → Text → Text → Result Filter
unfolding filter_regexp filter_not filter_rel like_meta
operator_filter op column v =
    if text_eq op (codes "eq")
    then ok (filter_regexp column (quote_meta v))
    else if text_eq op (codes "ne")
    then ok (filter_not (filter_regexp column (quote_meta v)))
    else if text_eq op (codes "ge")
    then ok (filter_rel column v Ordering.gt Ordering.eq)
    else if text_eq op (codes "gt")
    then ok (filter_rel column v Ordering.gt Ordering.gt)
    else if text_eq op (codes "le")
    then ok (filter_rel column v Ordering.lt Ordering.eq)
    else if text_eq op (codes "lt")
    then ok (filter_rel column v Ordering.lt Ordering.lt)
    else if text_eq op (codes "like")
    then ok (filter_regexp column (like_meta v))
    else if text_eq op (codes "unlike")
    then ok (filter_not (filter_regexp column (like_meta v)))
    else err wrong_operator

-- `if s == "" { s = default }`, behind `strings.ToLower`.
abbrev pub or_default : Text → Text → Text
or_default s default = let t = to_lower s in if text_eq t [] then default else t

-- One round of the loop over the phrases.
unfoldable pub phrase_filter : Hash → Result Filter
unfolding find_column operator_filter
phrase_filter phrase = do
  column ← find_column [] (subtags phrase)
  if text_eq column []
      then err no_column
      else operator_filter (or_default (field phrase (codes "operator")) (codes "eq")) column
          (field phrase column)

unfoldable pub phrase_filters : List Hash → Result (List Filter)
unfolding phrase_filter
phrase_filters [] = ok []
phrase_filters (p ∷ ps) = do f ← phrase_filter p; fs ← phrase_filters ps; ok (f ∷ fs)

-- One round of the loop over the clauses.
unfoldable pub clause_filter : Hash → Result Filter
unfolding phrase_filters filter_and filter_or
clause_filter clause =
    let connector = or_default (field clause (codes "connector")) (codes "and") in
    if not (text_eq connector (codes "and")) && not (text_eq connector (codes "or"))
    then err wrong_connector
    else do
      phrases ← phrase_filters (named (codes "phrase") (items clause))
      ok (if text_eq connector (codes "and") then filter_and phrases else filter_or phrases)

unfoldable pub clause_filters : List Hash → Result (List Filter)
unfolding clause_filter
clause_filters [] = ok []
clause_filters (c ∷ cs) = do f ← clause_filter c; fs ← clause_filters cs; ok (f ∷ fs)

-- `WhereFilter`
unfoldable pub where_filter : Hash → Result Filter
unfolding clause_filters
where_filter w =
    if not (text_eq (name w) (codes "where"))
    then err wrong_wrapper
    else do fs ← clause_filters (named (codes "clause") (items w)); ok (filter_and fs)
