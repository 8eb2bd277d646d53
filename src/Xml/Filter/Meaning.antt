-- ===== src/Xml/Filter/Meaning.antt =====
-- What a where expression of go-susi/xml/xml_filter.go means, without the filters that it is built of.
use limux_gosa.Base.{
  Bool, not, Option, none, some, List, [], ◌∷◌, map, ◌≡◌, ◌≢◌, if◌then◌else◌, any, all, Ordering,
}
use limux_gosa.Base.Text.{Text, codes, text_eq, to_lower}
use limux_gosa.Xml.Hash.{Hash, name, items, get, field, named, subtags}
use limux_gosa.Xml.Filter.{
  Filter, filter_and, filter_or, filter_not, filter_regexp, filter_rel, quote_meta, like_meta,
  or_default,
}
use limux_gosa.Xml.Filter.Likeness.{likes}
use limux_gosa.Xml.Filter.Order.{is_below, is_at_most}

pub data Operator : Type 0 where
  equal_to unequal_to at_least above at_most below like unlike : Operator

abbrev operator_of : Text → Option Operator
operator_of t =
    if text_eq t (codes "eq")
    then some equal_to
    else if text_eq t (codes "ne")
    then some unequal_to
    else if text_eq t (codes "ge")
    then some at_least
    else if text_eq t (codes "gt")
    then some above
    else if text_eq t (codes "le")
    then some at_most
    else if text_eq t (codes "lt")
    then some below
    else if text_eq t (codes "like")
    then some like
    else if text_eq t (codes "unlike")
    then some unlike
    else none

-- When the values of a column are in the relation to `v`: for all but "ne" and "unlike" one of them has to
-- be; these two hold if none is equal, or alike. Numbers are compared as numbers, and other texts as bytes,
-- letter case aside; "like" reads the pattern as it is written.
abbrev relates : Operator → Text → List Text → Bool
relates equal_to v values = any (λ x. text_eq (to_lower v) (to_lower x)) values
relates unequal_to v values = not (any (λ x. text_eq (to_lower v) (to_lower x)) values)
relates at_least v values = any (λ x. not (is_below x v)) values
relates above v values = any (λ x. not (is_at_most x v)) values
relates at_most v values = any (λ x. is_at_most x v) values
relates below v values = any (λ x. is_below x v) values
relates like v values = any (likes v) values
relates unlike v values = not (any (likes v) values)

abbrev other_tags : List Text → List Text
other_tags [] = []
other_tags (t ∷ ts) = if text_eq t (codes "operator") then other_tags ts else t ∷ other_tags ts

-- A phrase read off its element: the operator, the column and the value to compare with.
pub record Phrase : Type 0 where
  pub operator : Operator
  pub column : Text
  pub value : Text

pub record ReadsPhrase (h : Hash) (p : Phrase) : Type 0 where
  pub names_operator :
      operator_of (or_default (field h (codes "operator")) (codes "eq")) ≡ some p.operator
  pub one_column : other_tags (subtags h) ≡ p.column ∷ []
  pub column_named : p.column ≢ []
  pub has_value : field h p.column ≡ p.value

pub data ReadsPhrases : List Hash → List Phrase → Type 0 where
  nil : ReadsPhrases [] []
  cons :
      {h : Hash} {p : Phrase} {hs : List Hash} {ps : List Phrase}
      → ReadsPhrase h p
      → ReadsPhrases hs ps
      → ReadsPhrases (h ∷ hs) (p ∷ ps)

pub record Clause : Type 0 where
  pub is_or : Bool
  pub phrases : List Phrase

abbrev connector_text : Bool → Text
connector_text b = if b then codes "or" else codes "and"

pub record ReadsClause (h : Hash) (c : Clause) : Type 0 where
  pub names_connector :
      or_default (field h (codes "connector")) (codes "and") ≡ connector_text c.is_or
  pub has_phrases : ReadsPhrases (named (codes "phrase") (items h)) c.phrases

pub data ReadsClauses : List Hash → List Clause → Type 0 where
  nil : ReadsClauses [] []
  cons :
      {h : Hash} {c : Clause} {hs : List Hash} {cs : List Clause}
      → ReadsClause h c
      → ReadsClauses hs cs
      → ReadsClauses (h ∷ hs) (c ∷ cs)

-- The element is a where expression of these clauses.
pub record ReadsWhere (w : Hash) (cs : List Clause) : Type 0 where
  pub is_where : name w ≡ codes "where"
  pub has_clauses : ReadsClauses (named (codes "clause") (items w)) cs

abbrev pub phrase_holds : Hash → Phrase → Bool
phrase_holds item p = relates p.operator p.value (get item (p.column ∷ []))

abbrev pub clause_holds : Hash → Clause → Bool
clause_holds item c =
    if c.is_or then any (phrase_holds item) c.phrases else all (phrase_holds item) c.phrases

-- The filter of an operator.
abbrev filter_of : Operator → Text → Text → Filter
filter_of equal_to c v = filter_regexp c (quote_meta v)
filter_of unequal_to c v = filter_not (filter_regexp c (quote_meta v))
filter_of at_least c v = filter_rel c v Ordering.gt Ordering.eq
filter_of above c v = filter_rel c v Ordering.gt Ordering.gt
filter_of at_most c v = filter_rel c v Ordering.lt Ordering.eq
filter_of below c v = filter_rel c v Ordering.lt Ordering.lt
filter_of like c v = filter_regexp c (like_meta v)
filter_of unlike c v = filter_not (filter_regexp c (like_meta v))

abbrev phrase_meaning : Phrase → Filter
phrase_meaning p = filter_of p.operator p.column p.value

abbrev clause_meaning : Clause → Filter
clause_meaning c =
    if c.is_or
    then filter_or (map phrase_meaning c.phrases)
    else filter_and (map phrase_meaning c.phrases)
