-- ===== src/Jobs/Partition.antt =====
-- `JobsModify` of go-susi/db/jobdb.go treats local jobs and those of other servers apart.
use limux_gosa.Base.{
  false, ◌&&◌, ◌||◌, some, [], ◌∷◌, ◌++◌, ◌≡◌, ap, ◌∙◌, append_assoc, arith, inl, inr, Bool-cases,
  if◌then◌else◌,
}
use limux_gosa.Base.Text.{codes, text_eq}
use limux_gosa.Xml.Hash.{Hash, clone, field}
use limux_gosa.Xml.Filter.{Filter, filter_and, filter_not, filter_none}
use limux_gosa.Jobs.{
  Request, remove_jobs, modify_jobs, forward_jobs, JobDb, is_local, stops_periodic, jobs_modify,
  jobs_modify_local,
}

-- The jobs that a request takes out, changes, or has changed by their servers.
unfoldable pub changes : Request → Filter
changes (remove_jobs f stop) = f
changes (modify_jobs f update) = f
changes (forward_jobs f update) = f
changes _ = filter_none

-- The two requests of a call.
abbrev pub local_request : Filter → Hash → JobDb → Request
local_request f update j =
    if text_eq (field update (codes "status")) (codes "done")
    then remove_jobs (filter_and (is_local j ∷ f ∷ [])) (stops_periodic update)
    else modify_jobs (filter_and (is_local j ∷ f ∷ [])) (clone update)

abbrev pub foreign_request : Filter → Hash → JobDb → Request
foreign_request f update j =
    forward_jobs (filter_and (filter_not (is_local j) ∷ f ∷ [])) (clone update)

local_changes :
    (f : Filter) (update : Hash) (j : JobDb)
    → changes (local_request f update j) ≡ filter_and (is_local j ∷ f ∷ [])
unfolding changes
local_changes f update j =
    elim (Bool-cases (text_eq (field update (codes "status")) (codes "done"))) [
      | inl e ↦ rw e
      | inr e ↦ rw e
    ]

split_lem :
    (l f : Filter) (x : Hash)
    → ((filter_and (l ∷ f ∷ []) (some x) || filter_and (filter_not l ∷ f ∷ []) (some x))
        ≡ f (some x))
      × ((filter_and (l ∷ f ∷ []) (some x) && filter_and (filter_not l ∷ f ∷ []) (some x)) ≡ false)
unfolding filter_and filter_not
split_lem l f x = ground arith

modify_local_requests :
    (f : Filter) (update : Hash) (j : JobDb)
    → (jobs_modify_local (filter_and (is_local j ∷ f ∷ [])) update j).requests
      ≡ j.requests ++ local_request f update j ∷ []
unfolding jobs_modify_local
modify_local_requests f update j =
    elim (Bool-cases (text_eq (field update (codes "status")) (codes "done"))) [
      | inl e ↦ rw e
      | inr e ↦ rw e
    ]

-- JobsModify puts two requests behind those that wait, one for the local jobs that the filter accepts
-- and one for those of other servers: each accepted job is in the reach of just one of them, and no other
-- job is.
pub jobs_modify_partition :
    (f : Filter) (update : Hash) (j : JobDb) (x : Hash)
    → ((jobs_modify f update j).requests
        ≡ j.requests ++ local_request f update j ∷ foreign_request f update j ∷ [])
      × ((changes (local_request f update j) (some x)
            || changes (foreign_request f update j) (some x))
          ≡ f (some x))
      × ((changes (local_request f update j) (some x)
            && changes (foreign_request f update j) (some x))
          ≡ false)
unfolding jobs_modify
jobs_modify_partition f update j x =
    let (e, d) = split_lem (is_local j) f x in
    (
      ap (λ rs. rs ++ foreign_request f update j ∷ []) (modify_local_requests f update j)
          ∙ append_assoc j.requests (local_request f update j ∷ [])
              (foreign_request f update j ∷ []),
      rw (local_changes f update j) (unfold changes in e),
      rw (local_changes f update j) (unfold changes in d),
    )
