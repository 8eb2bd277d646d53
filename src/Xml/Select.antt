-- ===== src/Xml/Select.antt =====
-- `Query` and `Remove` of go-susi/xml/xml_hash.go, over a filter that may carry state from one item to
-- the next, and `LimitFilter` of go-susi/security/util.go, which is such a filter.
pub mod Laws
use limux_gosa.Base.{ℕ, Bool, true, false, Option, none, some, List, [], ◌∷◌, if◌then◌else◌}
use limux_gosa.Base.Int.{ℤ, pos, negsuc, ltb_ℤ, pred_ℤ, leb_ℤ}
use limux_gosa.Xml.Hash.{Hash, Items, nil, text, child, element, name, items, append_child, clone}
use limux_gosa.Xml.Filter.{Filter}

-- A filter object: what `Accepts` returns, and what it leaves in the object.
abbrev pub Accepts : Type 0 → Type 0
Accepts S = S → Hash → Bool × S

-- A filter without state.
abbrev pub stateless : Filter → Accepts (Unit {0})
stateless f s h = (f (some h), s)

module _ {S : Type 0} (accepts : Accepts S) where
  -- The loop of `Query`, with the children of the result so far.
  unfoldable pub query_from : S → Items → Items → Items × S
  query_from s nil acc = (acc, s)
  query_from s (text _ r) acc = query_from s r acc
  query_from s (child h r) acc =
      let (accepted, s') = accepts s h in
      query_from s' r (if accepted then append_child acc (clone h) else acc)

  -- `Query`
  unfoldable pub query : S → Hash → Hash × S
  unfolding query_from
  query s h = let (found, s') = query_from s (items h) nil in (element (name h) found, s')

  -- The loop of `Remove`: what stays, and the removed children.
  unfoldable pub remove_from : S → Items → Items → Items × Items × S
  remove_from s nil acc = (nil, acc, s)
  remove_from s (text t r) acc =
      let (kept, removed, s') = remove_from s r acc in (text t kept, removed, s')
  remove_from s (child h r) acc =
      let (accepted, s1) = accepts s h in
      let (kept, removed, s2) = remove_from s1 r (if accepted then append_child acc h else acc) in
      ((if accepted then kept else child h kept), removed, s2)

  -- `Remove`: the removed items under an element of the receiver's name, and the receiver.
  unfoldable pub remove : S → Hash → Hash × Hash × S
  unfolding remove_from
  remove s h =
      let (kept, removed, s') = remove_from s (items h) nil in
      (element (name h) removed, element (name h) kept, s')

-- `limitFilter.Accepts`; the state is `max`.
unfoldable pub limit_accepts : Filter → Accepts ℤ
limit_accepts f m h =
    if ltb_ℤ m (pos 0)
    then (false, m)
    else if f (some h)
    then (if ltb_ℤ (pred_ℤ m) (pos 0) then (false, pred_ℤ m) else (true, pred_ℤ m))
    else (false, m)

-- `LimitFilter`: without a limit the filter is used as it is.
unfoldable pub limit_filter : Filter → ℤ → Accepts ℤ
unfolding limit_accepts
limit_filter f limit = if leb_ℤ limit (pos 0) then (λ m h. (f (some h), m)) else limit_accepts f
