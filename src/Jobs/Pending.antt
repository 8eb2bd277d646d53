-- ===== src/Jobs/Pending.antt =====
-- The jobs that go-susi/db/jobdb.go puts into PendingActions, and their status.
use limux_gosa.Base.{
  some, ℕ, Bool, true, false, List, [], ◌∷◌, ◌++◌, map, ◌≡◌, sym, subst, drop, keep, inl, inr,
  Bool-cases, ◌⊎◌, All,
}
use limux_gosa.Base.Text.{Text, codes, text_eq, text_eq_iff}
use limux_gosa.Xml.Hash.{Hash, items, children, clone, get, field, set_field}
use limux_gosa.Xml.Hash.CloneFields.{get-clone, field-clone}
use limux_gosa.Xml.Db.{replace}
use limux_gosa.Xml.Db
use limux_gosa.Xml.Db.Laws.{items_of}
use limux_gosa.Jobs.Message.{new_updates}
use limux_gosa.Jobs.{
  Request, query_jobs, add_job, remove_jobs, modify_jobs, remove_foreign_jobs,
  add_or_modify_foreign_job, update_name, sync_all, forward_jobs, JobDb, updatable_fields, push,
}
use limux_gosa.Jobs.Local.{
  done_job, edit_fields, launch_job, wake_job, start_job, store_job, modify_loop,
}
use limux_gosa.Jobs.Foreign.{run_remove_foreign}
use limux_gosa.Jobs.Run.{run}
use limux_gosa.Jobs.Fields.{get-set_field_same, get-done_status}
use limux_gosa.Jobs.Laws.{pending-run_remove}
use limux_gosa.Jobs.Kept.{
  pending-edit_fields, pending-store_job, pending-run_add, pending-run_foreign, pending-run_sync,
  pending-run_forward, pending-run_update_name, pending-run_modify,
}

-- The first status of a job is "done" or "processing", or its status is "wakeup".
abbrev pub HasActionStatus : Hash → Type 0
HasActionStatus job =
    ((more : List Text) × (get job (codes "status" ∷ []) ≡ codes "done" ∷ more))
    ⊎ ((more : List Text) × (get job (codes "status" ∷ []) ≡ codes "processing" ∷ more))
    ⊎ (field job (codes "status") ≡ codes "wakeup")

abbrev pub IsActions : List Hash → Type 0
IsActions = All HasActionStatus

All-append_lem : (xs ys : List Hash) → IsActions xs → IsActions ys → IsActions (xs ++ ys)
All-append_lem [] ys p q = q
All-append_lem (x ∷ xs) ys (p, ps) q = (p, All-append_lem xs ys ps q)

clone-HasActionStatus : (job : Hash) → HasActionStatus job → HasActionStatus (clone job)
clone-HasActionStatus job p =
    rw (get-clone job (codes "status"), field-clone job (codes "status")) p

done_jobs-IsActions :
    (stop : Bool) (xs : List Hash) → IsActions (map (λ x. clone (done_job stop x)) xs)
done_jobs-IsActions stop [] = tt
done_jobs-IsActions stop (x ∷ xs) = (
  clone-HasActionStatus (done_job stop x)
      (inl (drop 1 (get x (codes "status" ∷ [])), get-done_status stop x)),
  done_jobs-IsActions stop xs,
)

push-IsActions :
    (j : JobDb) (job : Hash)
    → IsActions j.pending
    → HasActionStatus job
    → IsActions (push j (clone job)).pending
push-IsActions j job p s =
    All-append_lem j.pending (clone job ∷ []) p (clone-HasActionStatus job s, tt)

launch_job-IsActions :
    (job : Hash) (j : JobDb) → IsActions j.pending → IsActions (launch_job job j).1.pending
unfolding launch_job
launch_job-IsActions job j p =
    elim (Bool-cases (text_eq (field job (codes "status")) (codes "launch"))) [
      | inl e ↦
          rw e
            let job' = set_field job (codes "status") (codes "processing") in
              push-IsActions j job' p (
                inr (
                  inl (
                    drop 1 (get job (codes "status" ∷ [])),
                    get-set_field_same job (codes "status") (codes "processing"),
                  )))
      | inr e ↦ rw e p
    ]

wake_job-IsActions :
    (job : Hash) (j : JobDb) → IsActions j.pending → IsActions (wake_job (job, j)).1.pending
unfolding wake_job
wake_job-IsActions job j p =
    elim (Bool-cases (text_eq (field job (codes "status")) (codes "wakeup"))) [
      | inl e ↦ rw e (
          push-IsActions j job p
            (inr (inr ((text_eq_iff (field job (codes "status")) (codes "wakeup")).0 e))))
      | inr e ↦ rw e p
    ]

start_job-IsActions :
    (b : Bool) (job : Hash) (j : JobDb)
    → IsActions j.pending
    → IsActions (start_job b job j).1.pending
unfolding start_job
start_job-IsActions false job j p = p
start_job-IsActions true job j p =
    wake_job-IsActions (launch_job job j).0 (launch_job job j).1 (launch_job-IsActions job j p)

modify_loop-IsActions :
    (update : Hash) (xs : List Hash) (n : ℕ) (fju : Hash) (j : JobDb)
    → IsActions j.pending
    → IsActions (modify_loop update xs n fju j).2.pending
unfolding modify_loop
modify_loop-IsActions update [] n fju j p = p
modify_loop-IsActions update (x ∷ xs) n fju j p =
    let e =
      edit_fields update updatable_fields
        (record { job = x; send_fju = true; status_changed = false; state = j }) in
    let s = start_job e.status_changed e.job e.state in
    let (n', fju', j') = store_job e.send_fju s n fju in
    let edited : IsActions e.state.pending =
      subst IsActions
        (sym (
          pending-edit_fields update updatable_fields
            (record { job = x; send_fju = true; status_changed = false; state = j })))
        p in
    modify_loop-IsActions update xs n' fju' j' (
      subst IsActions (sym (pending-store_job e.send_fju s n fju))
        (start_job-IsActions e.status_changed e.job e.state edited))

-- Whatever request is carried out, PendingActions gets only jobs that are to be acted on: the first status
-- of each is "done" or "processing", or its status is "wakeup".
pub run-IsActions : (r : Request) (j : JobDb) → IsActions j.pending → IsActions (run r j).pending
unfolding run run_remove_foreign
run-IsActions (query_jobs f) j p = p
run-IsActions (add_job job) j p = subst IsActions (sym (pending-run_add job j)) p
run-IsActions (remove_jobs f stop) j p =
    let selected = keep (λ x. f (some x)) (items_of j.db) in
    subst IsActions (sym (pending-run_remove f stop j)) (
      All-append_lem j.pending (map (λ x. clone (done_job stop x)) selected) p
        (done_jobs-IsActions stop selected))
run-IsActions (modify_jobs f update) j p =
    let found = children (items (Db.query j.db f)) in
    subst IsActions (sym (pending-run_modify f update j))
      (modify_loop-IsActions update found 1 new_updates j p)
run-IsActions (remove_foreign_jobs f) j p = p
run-IsActions (add_or_modify_foreign_job f m job) j p =
    subst IsActions (sym (pending-run_foreign f m job j)) p
run-IsActions (update_name f job) j p = subst IsActions (sym (pending-run_update_name f job j)) p
run-IsActions (sync_all fju) j p = subst IsActions (sym (pending-run_sync fju j)) p
run-IsActions (forward_jobs f update) j p = subst IsActions (sym (pending-run_forward f update j)) p
