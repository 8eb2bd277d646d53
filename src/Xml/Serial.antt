-- ===== src/Xml/Serial.antt =====
-- go-susi/xml/xml_hash.go: what WriteTo writes, and StringToHash over the tokens that the decoder of
-- encoding/xml delivers.
pub mod Laws
pub mod Escape
pub mod Tests
use limux_gosa.Base.{
  ℕ, Bool, true, false, not, ◌||◌, Option, none, some, List, [], ◌∷◌, ◌++◌, ◌==◌, if◌then◌else◌,
}
use limux_gosa.Base.Text.{Text, codes}
use limux_gosa.Xml.Hash.{
  Hash, element, Items, nil, text, child, name, items, content, new_hash, set_text, add,
  add_with_ownership,
}

-- A byte in the strings of `escape`.
abbrev pub entity : ℕ → Text
entity c =
    if c == 34
    then codes "&quot;"
    else if c == 39
    then codes "&apos;"
    else if c == b'&'
    then codes "&amp;"
    else if c == b'<'
    then codes "&lt;"
    else if c == b'>'
    then codes "&gt;"
    else c ∷ []

-- `escape`, with its strings joined.
unfoldable pub escape : Text → Text
escape [] = []
escape (c ∷ s) = entity c ++ escape s

-- The loop of `WriteTo` between a start tag and its end tag, and what comes then.
unfoldable pub write_items : Items → Text → Text
unfolding escape
write_items nil rest = rest
write_items (text s is) rest = escape s ++ write_items is rest
write_items (child (element n js) is) rest =
    codes "<"
    ++ (n
        ++ (codes ">" ++ write_items js (codes "</" ++ (n ++ (codes ">" ++ write_items is rest)))))

-- `WriteTo`, for a writer that takes everything.
unfoldable pub write_to : Hash → Text
unfolding write_items
write_to h = write_items (child h nil) []

-- `encxml.Token`; `other` is a comment, a directive or a processing instruction.
pub data Token : Type 0 where
  start_element : Text → List (Text × Text) → Token
  end_element : Token
  char_data : Text → Token
  other : Token

-- The elements that are open, the innermost first; the top-level element when it is closed; and whether
-- there is an error.
pub record Parser : Type 0 where
  pub path : List Hash
  pub xml : Option Hash
  pub failed : Bool

-- The loop over the attributes.
unfoldable pub add_attributes : Hash → List (Text × Text) → Hash
unfolding add
add_attributes h [] = h
add_attributes h ((n, value) ∷ attributes) = add_attributes (add h n (value ∷ [])) attributes

abbrev is_some : Option Hash → Bool
is_some none = false
is_some (some h) = true

-- A start tag. An element is added to its parent when its end tag comes; until then nothing else changes
-- the parent.
unfoldable pub open_element : Text → List (Text × Text) → Parser → Parser
unfolding add_attributes new_hash
open_element n attributes p =
    let opened = record p { path = add_attributes (new_hash n []) attributes ∷ p.path } in
    elim (p.path) [ [] ↦ record opened { failed = p.failed || is_some p.xml } | _ ↦ opened ]

-- The element that is closed is the second argument.
unfoldable pub close_onto : List Hash → Hash → Parser → Parser
unfolding add_with_ownership
close_onto [] h p = record p { path = []; xml = some h }
close_onto (parent ∷ path) h p = record p { path = add_with_ownership parent h ∷ path }

-- An end tag.
unfoldable pub close_element : Parser → Parser
unfolding close_onto
close_element p = elim (p.path) [ [] ↦ p | h ∷ path ↦ close_onto path h p ]

-- `path[depth].SetText(path[depth].Text() + string(token))`
unfoldable pub read_text : Text → Parser → Parser
unfolding content set_text
read_text s p = elim (p.path) [
  | [] ↦ record p { failed = true }
  | h ∷ path ↦ record p { path = set_text h ((content h ++ s) ∷ []) ∷ path }
]

-- The switch over the type of a token.
unfoldable pub read_token : Token → Parser → Parser
unfolding open_element close_element read_text
read_token (start_element n attributes) p = open_element n attributes p
read_token end_element p = close_element p
read_token (char_data s) p = read_text s p
read_token other p = record p { failed = true }

-- The loop over the tokens.
unfoldable pub read_tokens : List Token → Parser → Parser
unfolding read_token
read_tokens [] p = p
read_tokens (t ∷ tokens) p = read_tokens tokens (read_token t p)

-- The top-level element, where elements are still open at the end.
unfoldable pub outermost : Hash → List Hash → Hash
unfolding add_with_ownership
outermost h [] = h
outermost h (parent ∷ path) = outermost (add_with_ownership parent h) path

-- What is returned after the loop, with whether there is an error.
unfoldable pub result_of : Bool → Parser → Hash × Bool
unfolding outermost new_hash
result_of eof p =
    let failed = p.failed || not eof in
    elim (p.path) [
      | h ∷ path ↦ (outermost h path, failed)
      | [] ↦ elim (p.xml) [ none ↦ (new_hash (codes "xml") [], failed) | some h ↦ (h, failed) ]
    ]

-- `StringToHash`, for the tokens and whether the decoder has then returned `io.EOF`.
unfoldable pub string_to_hash : List Token → Bool → Hash × Bool
unfolding read_tokens result_of
string_to_hash tokens eof =
    result_of eof (read_tokens tokens (record { path = []; xml = none; failed = false }))
