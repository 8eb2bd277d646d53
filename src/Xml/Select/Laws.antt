-- ===== src/Xml/Select/Laws.antt =====
-- What `Query`, `Remove` and `LimitFilter` select (go-susi/xml/xml_hash.go, go-susi/security/util.go).
use limux_gosa.Base.{
  ℕ, zero, suc, ◌<◌, Bool, true, false, not, some, [], ◌∷◌, ◌++◌, map, append-nil, append_assoc,
  ◌≡◌, refl, ap, sym, ◌∙◌, arith, keep, take, leb, inl, inr, Bool-cases,
}
use limux_gosa.Base.Int.{pos, negsuc}
use limux_gosa.Xml.Hash.{
  Hash, Items, nil, text, child, name, items, append_child, clone, children, content,
  text_fragments,
}
use limux_gosa.Xml.Hash.Edit.{children-append_child, content_lem}
use limux_gosa.Xml.Filter.{Filter}
use limux_gosa.Xml.Select.{
  stateless, query_from, query, remove_from, remove, limit_accepts, limit_filter,
}

module _ (f : Filter) where
  abbrev passes : Hash → Bool
  passes x = f (some x)

  abbrev fails : Hash → Bool
  fails x = not (f (some x))

  query_from_lem :
      (is acc : Items)
      → children (query_from (stateless f) tt is acc).0
        ≡ children acc ++ map clone (keep passes (children is))
  unfolding query_from children
  query_from_lem nil acc = sym (append-nil (children acc))
  query_from_lem (text t r) acc = query_from_lem r acc
  query_from_lem (child h r) acc = elim (Bool-cases (f (some h))) [
    | inl e ↦
        rw (e, query_from)
          (query_from_lem r (append_child acc (clone h))
            ∙ rw (children-append_child acc (clone h))
                (append_assoc (children acc) (clone h ∷ []) (map clone (keep passes (children r)))))
    | inr e ↦ rw (e, query_from) (query_from_lem r acc)
  ]

  removed_lem :
      (is acc : Items)
      → children (remove_from (stateless f) tt is acc).1 ≡ children acc ++ keep passes (children is)
  unfolding remove_from children
  removed_lem nil acc = sym (append-nil (children acc))
  removed_lem (text t r) acc = removed_lem r acc
  removed_lem (child h r) acc = elim (Bool-cases (f (some h))) [
    | inl e ↦ rw e (
        removed_lem r (append_child acc h)
        ∙ rw (children-append_child acc h)
            (append_assoc (children acc) (h ∷ []) (keep passes (children r))))
    | inr e ↦ rw e (removed_lem r acc)
  ]

  kept_lem :
      (is acc : Items)
      → (children (remove_from (stateless f) tt is acc).0 ≡ keep fails (children is))
        × (text_fragments (remove_from (stateless f) tt is acc).0 ≡ text_fragments is)
  unfolding remove_from children text_fragments
  kept_lem nil acc = (refl, refl)
  kept_lem (text t r) acc = let (p, q) = kept_lem r acc in (p, ap (◌∷◌ t) q)
  kept_lem (child h r) acc = elim (Bool-cases (f (some h))) [
    | inl e ↦ rw e (kept_lem r (append_child acc h))
    | inr e ↦ rw e (let (p, q) = kept_lem r acc in (ap (◌∷◌ h) p, q))
  ]

  -- Query returns an element of the same name that holds copies of just the accepted children, in
  -- order.
  pub query_lem :
      (h : Hash)
      → (children (items (query (stateless f) tt h).0)
          ≡ map clone (keep passes (children (items h))))
        × (name (query (stateless f) tt h).0 ≡ name h)
  unfolding query
  query_lem h = (unfold children in query_from_lem (items h) nil, refl)

  -- Remove splits the children: the accepted ones are in the result, the others stay in the element,
  -- each in their order, and the element keeps its own text.
  pub remove_lem :
      (h : Hash)
      → (children (items (remove (stateless f) tt h).0) ≡ keep passes (children (items h)))
        × (children (items (remove (stateless f) tt h).1) ≡ keep fails (children (items h)))
        × (content (remove (stateless f) tt h).1 ≡ content h)
        × (name (remove (stateless f) tt h).0 ≡ name h)
  unfolding remove
  remove_lem h =
      let (p, q) = kept_lem (items h) nil in
      (unfold children in removed_lem (items h) nil, p, rw (content_lem, content_lem, q), refl)

  limit_negative : (k : ℕ) (h : Hash) → limit_accepts f (negsuc k) h ≡ (false, negsuc k)
  unfolding limit_accepts
  limit_negative k h = refl

  limit_reject :
      (n : ℕ) (h : Hash) → f (some h) ≡ false → limit_accepts f (pos n) h ≡ (false, pos n)
  unfolding limit_accepts
  limit_reject n h e = ground arith

  limit_pass :
      (n : ℕ) (h : Hash) → f (some h) ≡ true → limit_accepts f (pos (suc n)) h ≡ (true, pos n)
  unfolding limit_accepts
  limit_pass n h e = ground arith

  limit_reached : (h : Hash) → f (some h) ≡ true → limit_accepts f (pos zero) h ≡ (false, negsuc 0)
  unfolding limit_accepts
  limit_reached h e = ground arith

  -- Once the limit is used up, nothing more is accepted.
  exhausted_lem :
      (k : ℕ) (is acc : Items)
      → children (query_from (limit_accepts f) (negsuc k) is acc).0 ≡ children acc
  unfolding query_from
  exhausted_lem k nil acc = refl
  exhausted_lem k (text t r) acc = exhausted_lem k r acc
  exhausted_lem k (child h r) acc = rw (limit_negative k h, query_from) (exhausted_lem k r acc)

  take-none : (n : ℕ) → take {A = Hash} n [] ≡ []
  take-none zero = refl
  take-none (suc n) = refl

  limited_lem :
      (n : ℕ) (is acc : Items)
      → children (query_from (limit_accepts f) (pos n) is acc).0
        ≡ children acc ++ map clone (take n (keep passes (children is)))
  unfolding query_from children
  limited_lem n nil acc = rw (take-none n) (sym (append-nil (children acc)))
  limited_lem n (text t r) acc = limited_lem n r acc
  limited_lem zero (child h r) acc = elim (Bool-cases (f (some h))) [
    | inl e ↦
        rw (limit_reached h e, query_from) (exhausted_lem 0 r acc ∙ sym (append-nil (children acc)))
    | inr e ↦ rw (limit_reject zero h e, query_from) (limited_lem zero r acc)
  ]
  limited_lem (suc n) (child h r) acc = elim (Bool-cases (f (some h))) [
    | inl e ↦
        rw (limit_pass n h e, e, query_from)
          (limited_lem n r (append_child acc (clone h))
            ∙ rw (children-append_child acc (clone h)) (
                append_assoc (children acc) (clone h ∷ [])
                  (map clone (take n (keep passes (children r))))))
    | inr e ↦ rw (limit_reject (suc n) h e, e, query_from) (limited_lem (suc n) r acc)
  ]

  limit_filter_pos : (n : ℕ) → limit_filter f (pos (suc n)) ≡ limit_accepts f
  limit_filter_pos n = let e : leb (suc n) 0 ≡ false = ground arith in (unfold limit_filter in rw e)

  -- A query through LimitFilter with a positive limit returns copies of the first accepted children, at
  -- most as many as the limit.
  pub query-limit_filter :
      (n : ℕ) (h : Hash)
      → 0 < n
      → children (items (query (limit_filter f (pos n)) (pos n) h).0)
        ≡ map clone (take n (keep passes (children (items h))))
  unfolding query
  query-limit_filter zero h p = elim p [ ]
  query-limit_filter (suc n) h p =
      rw (limit_filter_pos n) (unfold children in limited_lem (suc n) (items h) nil)
