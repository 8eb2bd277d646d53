-- ===== src/Xml/Serial/Tests.antt =====
-- Runs of WriteTo and StringToHash of go-susi/xml/xml_hash.go.
use limux_gosa.Base.{true, false, [], ◌∷◌, length, all, ◌≡◌, refl}
use limux_gosa.Base.Text.{codes}
use limux_gosa.Xml.Hash.{Hash, element, nil, text, child}
use limux_gosa.Xml.Serial.{write_to, escape, start_element, end_element, char_data, string_to_hash}
use limux_gosa.Xml.Serial.Laws.{view, tokens_onto, string_to_hash_lem}
use limux_gosa.Xml.Serial.Escape.{unescape, is_plain, escape_lem}

-- Text in front of a child and behind it.
abbrev mixed : Hash
mixed = element (codes "xml") (
    text (codes "a<") (child (element (codes "key") (text (codes "b") nil)) (text (codes "c") nil)))

write_to_run : write_to mixed ≡ codes "<xml>a&lt;<key>b</key>c</xml>"
unfolding write_to
write_to_run = refl

-- The text moves behind the child, and attributes become children.
string_to_hash_run : string_to_hash (tokens_onto (child mixed nil) []) true ≡ (
  element
      (codes "xml")
      (child (element (codes "key") (text (codes "b") nil)) (text (codes "a<c") nil)),
  false,
)
unfolding string_to_hash tokens_onto
string_to_hash_run = refl

attribute_run :
    string_to_hash
      (start_element (codes "foo") ((codes "bar", codes "bla") ∷ []) ∷ end_element ∷ [])
      true
    ≡ (element (codes "foo") (child (element (codes "bar") (text (codes "bla") nil)) nil), false)
unfolding string_to_hash
attribute_run = refl

-- Two top-level elements, text outside of them, and no element at all.
two_elements_run :
    (string_to_hash
      (start_element (codes "a") [] ∷ end_element ∷ start_element (codes "b") [] ∷ end_element ∷ [])
      true).1
    ≡ true
unfolding string_to_hash
two_elements_run = refl

stray_text_run :
    string_to_hash (char_data (codes "a") ∷ []) true ≡ (element (codes "xml") nil, true)
unfolding string_to_hash
stray_text_run = refl

string_to_hash_example :
    (view (string_to_hash (tokens_onto (child mixed nil) []) true).0 ≡ view mixed)
    × ((string_to_hash (tokens_onto (child mixed nil) []) true).1 ≡ false)
string_to_hash_example = string_to_hash_lem mixed

escape_example :
    (unescape (length (codes "a<\"b")) (escape (codes "a<\"b")) ≡ codes "a<\"b")
    × (all is_plain (escape (codes "a<\"b")) ≡ true)
escape_example = escape_lem (codes "a<\"b")
