-- ===== src/Xml/Serial/Laws.antt =====
-- What StringToHash of go-susi/xml/xml_hash.go makes of the tokens of an element.
use limux_gosa.Base.{
  Bool, true, false, Option, none, List, [], ◌∷◌, ◌++◌, ◌≡◌, refl, sym, ap, ◌∙◌, append-nil,
  append_assoc,
}
use limux_gosa.Base.Text.{Text}
use limux_gosa.Xml.Hash.{
  Hash, element, Items, nil, text, child, name, items, content, text_fragments, join, new_hash,
  set_text, append_text, append_string, append_strings, drop_text, append_child, add_with_ownership,
}
use limux_gosa.Xml.Hash.Edit.{content-set_text, name-set_text, join-cons, fragments-append_child}
use limux_gosa.Xml.Serial.{
  Token, start_element, end_element, char_data, read_tokens, result_of, string_to_hash,
}

-- An element as its name, its text and its children, whatever stands between them in which order.
mutual
  pub data Tree : Type 0 where
    node : Text → Text → Trees → Tree

  pub data Trees : Type 0 where
    empty : Trees
    more : Tree → Trees → Trees

abbrev pub join_trees : Trees → Trees → Trees
join_trees empty us = us
join_trees (more t ts) us = more t (join_trees ts us)

abbrev joined : Items → Text
joined is = join [] (text_fragments is)

unfoldable pub views : Items → Trees
unfolding text_fragments join
views nil = empty
views (text s is) = views is
views (child (element n js) is) = more (node n (join [] (text_fragments js)) (views js)) (views is)

unfoldable pub view : Hash → Tree
unfolding views
view h = node (name h) (content h) (views (items h))

-- The tokens of an element without attributes, in front of others.
unfoldable pub tokens_onto : Items → List Token → List Token
tokens_onto nil rest = rest
tokens_onto (text s is) rest = char_data s ∷ tokens_onto is rest
tokens_onto (child (element n js) is) rest =
    start_element n [] ∷ tokens_onto js (end_element ∷ tokens_onto is rest)

views-append_text : (is : Items) (s : Text) → views (append_text is s) ≡ views is
unfolding views append_text
views-append_text nil s = refl
views-append_text (text t is) s = views-append_text is s
views-append_text (child (element n js) is) s =
    ap (more (node n (joined js) (views js))) (views-append_text is s)

views-drop_text : (is : Items) → views (drop_text is) ≡ views is
unfolding views drop_text
views-drop_text nil = refl
views-drop_text (text t is) = views-drop_text is
views-drop_text (child (element n js) is) =
    ap (more (node n (joined js) (views js))) (views-drop_text is)

views-append_string : (is : Items) (s : Text) → views (append_string is s) ≡ views is
unfolding append_string
views-append_string is [] = refl
views-append_string is (c ∷ s) = views-append_text is (c ∷ s)

views-set_text : (h : Hash) (s : Text) → views (items (set_text h (s ∷ []))) ≡ views (items h)
unfolding set_text append_strings
views-set_text (element n is) s = views-append_string (drop_text is) s ∙ views-drop_text is

views-append_child :
    (is : Items) (x : Hash)
    → views (append_child is x) ≡ join_trees (views is) (more (view x) empty)
unfolding views view append_child content
views-append_child nil (element n js) = refl
views-append_child (text t is) x = views-append_child is x
views-append_child (child (element n js) is) x =
    ap (more (node n (joined js) (views js))) (views-append_child is x)

join_trees-empty : (ts : Trees) → join_trees ts empty ≡ ts
join_trees-empty empty = refl
join_trees-empty (more t ts) = ap (more t) (join_trees-empty ts)

join_trees_assoc : (a b c : Trees) → join_trees (join_trees a b) c ≡ join_trees a (join_trees b c)
join_trees_assoc empty b c = refl
join_trees_assoc (more t ts) b c = ap (more t) (join_trees_assoc ts b c)

content-set_one : (h : Hash) (s : Text) → content (set_text h (s ∷ [])) ≡ s
content-set_one h s = content-set_text h (s ∷ []) ∙ (unfold join in refl)

name-add_with_ownership : (h x : Hash) → name (add_with_ownership h x) ≡ name h
unfolding add_with_ownership
name-add_with_ownership (element n is) x = refl

content-add_with_ownership : (h x : Hash) → content (add_with_ownership h x) ≡ content h
unfolding content add_with_ownership
content-add_with_ownership (element n is) x = ap (join []) (fragments-append_child is x)

views-add_with_ownership :
    (h x : Hash)
    → views (items (add_with_ownership h x)) ≡ join_trees (views (items h)) (more (view x) empty)
unfolding add_with_ownership
views-add_with_ownership (element n is) x = views-append_child is x

-- An element that began empty.
view-new_hash :
    (n : Text) (js : Items) (x : Hash)
    → name x ≡ name (new_hash n [])
    → content x ≡ content (new_hash n []) ++ joined js
    → views (items x) ≡ join_trees (views (items (new_hash n []))) (views js)
    → view x ≡ node n (joined js) (views js)
unfolding view views new_hash content text_fragments join
view-new_hash n js x a b c = cc (a, b, c)

view-element : (n : Text) (is : Items) → view (element n is) ≡ node n (joined is) (views is)
unfolding view content
view-element n is = refl

-- What the element that is open comes to.
abbrev Extends : Hash → Items → Hash → Type 0
Extends h is h' =
    (name h' ≡ name h)
    × (content h' ≡ content h ++ joined is)
    × (views (items h') ≡ join_trees (views (items h)) (views is))

Extends-nil : (h : Hash) → Extends h nil h
unfolding views text_fragments join
Extends-nil h = (refl, sym (append-nil (content h)), sym (join_trees-empty (views (items h))))

Extends-text :
    (h h' : Hash) (s : Text) (is : Items)
    → Extends (set_text h ((content h ++ s) ∷ [])) is h'
    → Extends h (text s is) h'
unfolding views text_fragments
Extends-text h h' s is (a, b, c) =
    let kept : content (set_text h ((content h ++ s) ∷ [])) ≡ content h ++ s =
      content-set_one h (content h ++ s) in
    (
      a ∙ name-set_text h ((content h ++ s) ∷ []),
      b
          ∙ ap (λ t. t ++ joined is) kept
          ∙ append_assoc (content h) s (joined is)
          ∙ ap (λ t. content h ++ t) (sym (join-cons s (text_fragments is))),
      c ∙ ap (λ t. join_trees t (views is)) (views-set_text h (content h ++ s)),
    )

Extends-child :
    (h h' x : Hash) (n : Text) (js is : Items)
    → Extends (new_hash n []) js x
    → Extends (add_with_ownership h x) is h'
    → Extends h (child (element n js) is) h'
unfolding views text_fragments
Extends-child h h' x n js is (a, b, c) (d, e, f) = (
  d ∙ name-add_with_ownership h x,
  e ∙ ap (λ t. t ++ joined is) (content-add_with_ownership h x),
  f
      ∙ ap (λ t. join_trees t (views is))
          (views-add_with_ownership h x
            ∙ ap (λ t. join_trees (views (items h)) (more t empty)) (view-new_hash n js x a b c))
      ∙ join_trees_assoc (views (items h)) (more (node n (joined js) (views js)) empty) (views is),
)

-- The tokens of a part of an element go to the element that is open, in front of those that follow.
read_items :
    (is : Items) (h : Hash) (path : List Hash) (xml : Option Hash) (failed : Bool)
    (rest : List Token)
    → (h' : Hash) × Extends h is h'
      × (read_tokens (tokens_onto is rest) (record { path = h ∷ path; xml = xml; failed = failed })
          ≡ read_tokens rest (record { path = h' ∷ path; xml = xml; failed = failed }))
unfolding tokens_onto read_tokens
read_items nil h path xml failed rest = (h, Extends-nil h, refl)
read_items (text s is) h path xml failed rest =
    let (h', e, r) = read_items is (set_text h ((content h ++ s) ∷ [])) path xml failed rest in
    (h', Extends-text h h' s is e, r)
read_items (child (element n js) is) h path xml failed rest =
    let (x, e, r) =
      read_items js (new_hash n []) (h ∷ path) xml failed (end_element ∷ tokens_onto is rest) in
    let (h', f, q) = read_items is (add_with_ownership h x) path xml failed rest in
    (h', Extends-child h h' x n js is e f, r ∙ q)

-- StringToHash makes of the tokens of an element, as far as no element has attributes, one that has the
-- same name, the same text and the same children in the same order, and so has each of them; the text may
-- stand elsewhere between the children. There is no error if the decoder came to the end.
pub string_to_hash_lem :
    (h : Hash)
    → (view (string_to_hash (tokens_onto (child h nil) []) true).0 ≡ view h)
      × ((string_to_hash (tokens_onto (child h nil) []) true).1 ≡ false)
unfolding string_to_hash tokens_onto
string_to_hash_lem (element n is) =
    let (x, (a, b, c), r) = read_items is (new_hash n []) [] none false (end_element ∷ []) in
    let result : string_to_hash (tokens_onto (child (element n is) nil) []) true ≡ (x, false) =
      ap (result_of true) r in
    (
      ap (λ q. view q.0) result ∙ view-new_hash n is x a b c ∙ sym (view-element n is),
      ap (λ q. q.1) result,
    )
