-- ===== src/Jobs/Counterparts.antt =====
-- Which old jobs `JobsSyncAll` of go-susi/db/jobdb.go leaves in its message.
use limux_gosa.Base.{
  Bool, true, not, ◌||◌, List, [], ◌∷◌, some, keep, any, ◌≡◌, refl, sym, ap, ◌∙◌, arith,
}
use limux_gosa.Xml.Hash.{Hash, items, children}
use limux_gosa.Xml.Select.{stateless}
use limux_gosa.Xml.Select
use limux_gosa.Xml.Select.Laws.{remove_lem}
use limux_gosa.Jobs.Sync.{same_action, drop_counterparts}

-- Whether one of the jobs is for the action and the machine of the item.
abbrev pub has_counterpart : List Hash → Hash → Bool
has_counterpart jobs x = any (λ job. same_action job (some x)) jobs

keep-all : (xs : List Hash) → keep (λ x. true) xs ≡ xs
keep-all [] = refl
keep-all (x ∷ xs) = ap (◌∷◌ x) (keep-all xs)

keep-keep :
    (p q : Hash → Bool) (xs : List Hash)
    → keep (λ x. not (q x)) (keep (λ x. not (p x)) xs) ≡ keep (λ x. not (p x || q x)) xs
keep-keep p q [] = refl
keep-keep p q (x ∷ xs) = ground (arith, keep-keep p q xs)

-- The first loop of `syncall` takes out of the message the children for which a local job has the same
-- headertag and macaddress, and just those.
drop_counterparts_lem :
    (jobs : List Hash) (fju : Hash)
    → children (items (drop_counterparts jobs fju))
      ≡ keep (λ x. not (has_counterpart jobs x)) (children (items fju))
unfolding drop_counterparts
drop_counterparts_lem [] fju = sym (keep-all (children (items fju)))
drop_counterparts_lem (job ∷ jobs) fju =
    drop_counterparts_lem jobs (Select.remove (stateless (same_action job)) tt fju).1
    ∙ ap (keep (λ x. not (has_counterpart jobs x))) (remove_lem (same_action job) fju).1
    ∙ keep-keep (λ x. same_action job (some x)) (has_counterpart jobs) (children (items fju))
