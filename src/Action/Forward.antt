-- ===== src/Action/Forward.antt =====
-- Where a job could not be forwarded, by go-susi/action/process_act.go.
use limux_gosa.Base.{true, false, none, [], ◌∷◌, ◌++◌, drop, ◌≡◌, refl, ap, ◌∙◌}
use limux_gosa.Base.Text.{codes, text_eq, decimal}
use limux_gosa.Xml.Hash.{Hash, clone, field, text_of, join, separator, get, set_field}
use limux_gosa.Xml.Hash.CloneFields.{field-clone}
use limux_gosa.Jobs.{add_job, JobDb, job_add_local}
use limux_gosa.Jobs.Fields.{get-set_field_same, get-set_field_other}
use limux_gosa.Action.{
  World, Known, Forwarding, stays_here, forward_target, forward, forward_failed, forwarded,
}

forward_failed-progress :
    (job : Hash)
    → drop 1 (get job (codes "progress" ∷ [])) ≡ []
    → field (forward_failed job) (codes "progress") ≡ codes "forward-failed"
unfolding forward_failed field text_of
forward_failed-progress job single =
    let failed =
      set_field (set_field job (codes "result") (codes "none")) (codes "progress")
        (codes "forward-failed") in
    let e : get failed (codes "progress" ∷ []) ≡ codes "forward-failed" ∷ [] =
      get-set_field_same (set_field job (codes "result") (codes "none")) (codes "progress")
        (codes "forward-failed")
      ∙ ap (λ xs. codes "forward-failed" ∷ drop 1 xs)
          (get-set_field_other job (codes "result") (codes "none") (codes "progress")
            (unfold text_eq in refl))
      ∙ ap (λ xs. codes "forward-failed" ∷ xs) single in
    rw (
      get-set_field_other failed (codes "status") (codes "waiting") (codes "progress")
          (unfold text_eq in refl),
      e,
    )

progress-job_add_local :
    (job : Hash) (j : JobDb)
    → field (clone (job_add_local job j).1) (codes "progress") ≡ field job (codes "progress")
unfolding job_add_local field text_of
progress-job_add_local job j =
    let id = decimal j.next_id in
    field-clone (set_field (set_field job (codes "id") id) (codes "original_id") id)
      (codes "progress")
    ∙ ap (join separator) (
        get-set_field_other (set_field job (codes "id") id) (codes "original_id") id
          (codes "progress") (unfold text_eq in refl)
        ∙ get-set_field_other job (codes "id") id (codes "progress") (unfold text_eq in refl))

forward_target-failed_job :
    (k : Known) (job : Hash)
    → field job (codes "progress") ≡ codes "forward-failed"
    → forward_target k job ≡ none
unfolding forward_target stays_here
forward_target-failed_job k job h =
    let stays : stays_here job ≡ true = rw h (unfold text_eq in refl) in rw (stays, forward_target)

pub forward-stays :
    (k : Known) (job : Hash) (w : World)
    → forward_target k job ≡ none
    → forward k job w ≡ (false, w)
unfolding forward
forward-stays k job w h = rw (h, forward)

forward-failed_job :
    (k : Known) (job : Hash) (w : World)
    → field job (codes "progress") ≡ codes "forward-failed"
    → forward k job w ≡ (false, w)
forward-failed_job k job w h = forward-stays k job w (forward_target-failed_job k job h)

requests-job_add_local :
    (job : Hash) (j : JobDb)
    → (job_add_local job j).0.requests ≡ j.requests ++ add_job (clone (job_add_local job j).1) ∷ []
unfolding job_add_local
requests-job_add_local job j = refl

-- Where a job with one progress element at most could not be sent, one job is handed to the job database as
-- a request to add it, and that job is never forwarded, whatever is known of the clients and the servers
-- by then.
pub forwarded_lem :
    (f : Forwarding) (w : World)
    → drop 1 (get f.job_clone (codes "progress" ∷ [])) ≡ []
    → (job : Hash) × ((forwarded false f w).jobs.requests ≡ w.jobs.requests ++ add_job job ∷ [])
      × ((k : Known) (later : World) → forward k job later ≡ (false, later))
unfolding forwarded
forwarded_lem f w single =
    let failed = forward_failed f.job_clone in
    let job = clone (job_add_local failed w.jobs).1 in
    (
      job,
      requests-job_add_local failed w.jobs,
      λ k later.
          forward-failed_job k job later
            (progress-job_add_local failed w.jobs ∙ forward_failed-progress f.job_clone single),
    )
