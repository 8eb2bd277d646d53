-- ===== src/Jobs/Kept.antt =====
-- The parts of the requests of go-susi/db/jobdb.go that leave PendingActions as it is.
use limux_gosa.Base.{
  Option, none, some, suc, ℕ, Bool, true, false, ◌&&◌, ◌||◌, List, [], ◌∷◌, ◌++◌, ◌≡◌, refl, ◌∙◌,
  ltb, inl, inr, Bool-cases, Option-cases, if◌then◌else◌,
}
use limux_gosa.Base.Text.{Text, codes, text_eq, decimal}
use limux_gosa.Xml.Hash.{
  Items, nil, text, child, name, Hash, items, children, rename, named, field, first, content,
  set_field,
}
use limux_gosa.Xml.Filter.{Filter, filter_simple}
use limux_gosa.Xml.Db.{replace}
use limux_gosa.Xml.Db
use limux_gosa.Jobs.Message.{update_message, new_updates, address_updates}
use limux_gosa.Jobs.{
  JobDb, take_id, updatable_fields, send, schedule, same_id, jobs_modify_local, jobs_remove_local,
}
use limux_gosa.Jobs.Local.{
  run_add, look_up_name, named_job, Edit, edit_field, edit_fields, request_removal, store_job,
  modify_loop, send_answers, run_modify, is_install_or_update, to_remove, groom_update,
}
use limux_gosa.Jobs.Foreign.{
  modify_or_add, add_foreign, modify_foreign, update_fields, name_message, name_job, name_jobs,
  run_foreign, run_update_name,
}
use limux_gosa.Jobs.Sync.{has_prefix, drop_counterparts, finish_olds, run_sync}
use limux_gosa.Jobs.Forward.{Batch, forward_loop, send_batches, run_forward}

pending-if :
    (b : Bool) (x y : JobDb) (p : List Hash)
    → x.pending ≡ p
    → y.pending ≡ p
    → (if b then x else y).pending ≡ p
pending-if true x y p e f = e
pending-if false x y p e f = f

pending-look_up_name :
    (job : Hash) (m : Text) (j : JobDb) → (look_up_name job m j).pending ≡ j.pending
unfolding look_up_name
pending-look_up_name job m j =
    pending-if (text_eq (field job (codes "plainname")) (codes "none"))
      (record j { lookups = j.lookups ++ m ∷ [] }) j j.pending refl refl

pending-jobs_modify_local :
    (f : Filter) (update : Hash) (j : JobDb) → (jobs_modify_local f update j).pending ≡ j.pending
unfolding jobs_modify_local
pending-jobs_modify_local f update j =
    elim (Bool-cases (text_eq (field update (codes "status")) (codes "done"))) [
      | inl e ↦ rw e
      | inr e ↦ rw e
    ]

pending-request_removal : (job : Hash) (j : JobDb) → (request_removal job j).pending ≡ j.pending
unfolding request_removal
pending-request_removal job j =
    let f = to_remove j.server job in
    pending-if (is_install_or_update job)
      (jobs_remove_local f false (jobs_modify_local f groom_update j)) j j.pending
      (unfold jobs_remove_local in pending-jobs_modify_local f groom_update j) refl

pending-edit_field : (n x : Text) (e : Edit) → (edit_field n x e).state.pending ≡ e.state.pending
unfolding edit_field
pending-edit_field n x e =
    let job' = set_field e.job n x in
    let launches = text_eq n (codes "status") && text_eq x (codes "launch") in
    let requested = if launches then request_removal job' e.state else e.state in
    let p : requested.pending ≡ e.state.pending =
      pending-if launches (request_removal job' e.state) e.state e.state.pending
        (pending-request_removal job' e.state) refl in
    pending-if (text_eq n (codes "timestamp") || text_eq n (codes "tminus"))
      (schedule requested job') requested e.state.pending p p

pub pending-edit_fields :
    (update : Hash) (ns : List Text) (e : Edit)
    → (edit_fields update ns e).state.pending ≡ e.state.pending
unfolding edit_fields
pending-edit_fields update [] e = refl
pending-edit_fields update (n ∷ ns) e = elim (Option-cases (first update n)) [
  | inl q ↦ rw (q, edit_fields) (pending-edit_fields update ns e)
  | inr (x, q) ↦
      rw (q, edit_fields)
        (pending-edit_fields update ns (edit_field n (content x.here) e)
          ∙ pending-edit_field n (content x.here) e)
]

pub pending-store_job :
    (b : Bool) (s : Hash × JobDb) (n : ℕ) (fju : Hash)
    → (store_job b s n fju).2.pending ≡ s.1.pending
unfolding store_job
pending-store_job false (job, j) n fju = refl
pending-store_job true (job, j) n fju = refl

pending-send_answers :
    (n : ℕ) (fju : Hash) (j : JobDb) → (send_answers (n, fju, j)).pending ≡ j.pending
unfolding send_answers
pending-send_answers n fju j =
    pending-if (ltb 1 n) (send j (address_updates j.server [] fju)) j j.pending refl refl

pending-modify_foreign :
    (update : Hash) (xs : List Hash) (j : JobDb) → (modify_foreign update xs j).pending ≡ j.pending
unfolding modify_foreign
pending-modify_foreign update [] j = refl
pending-modify_foreign update (x ∷ xs) j =
    let job = update_message (update_fields update updatable_fields x) in
    pending-modify_foreign update xs
      (record j { db = (replace j.db (same_id job) true (job ∷ [])).1 })

pending-name_job : (n : Text) (x : Hash) (j : JobDb) → (name_job n x j).pending ≡ j.pending
unfolding name_job
pending-name_job n x j =
    let job = set_field x (codes "plainname") n in
    let stored = record j { db = (replace j.db (same_id job) true (job ∷ [])).1 } in
    pending-if (text_eq (field x (codes "plainname")) n) j
      (if text_eq (field job (codes "siserver")) j.server
        then send stored (name_message j.server job)
        else stored)
      j.pending refl
      (pending-if (text_eq (field job (codes "siserver")) j.server)
        (send stored (name_message j.server job)) stored j.pending refl refl)

pending-name_jobs : (n : Text) (xs : List Hash) (j : JobDb) → (name_jobs n xs j).pending ≡ j.pending
unfolding name_jobs
pending-name_jobs n [] j = refl
pending-name_jobs n (x ∷ xs) j = pending-name_jobs n xs (name_job n x j) ∙ pending-name_job n x j

pub pending-run_add : (job : Hash) (j : JobDb) → (run_add job j).pending ≡ j.pending
unfolding run_add
pending-run_add job j =
    pending-look_up_name (named_job job) (field (named_job job) (codes "macaddress")) j

pending-add_foreign :
    (m : Text) (job : Hash) (j : JobDb) → (add_foreign m job j).pending ≡ j.pending
unfolding add_foreign
pending-add_foreign m job j =
    let renamed = rename job (codes "job") in
    let original = set_field renamed (codes "original_id") (field renamed (codes "id")) in
    let job' = named_job (set_field original (codes "id") (decimal j.next_id)) in
    pending-look_up_name job' m (record (take_id j) { unthrottled = j.unthrottled ++ m ∷ [] })

pending-foreign_found :
    (found : List Hash) (m : Text) (job : Hash) (j : JobDb)
    → (modify_or_add found m job j).pending ≡ j.pending
unfolding modify_or_add
pending-foreign_found [] m job j = pending-add_foreign m job j
pending-foreign_found (x ∷ xs) m job j = pending-modify_foreign job (x ∷ xs) j

pub pending-run_foreign :
    (f : Filter) (m : Text) (job : Hash) (j : JobDb) → (run_foreign f m job j).pending ≡ j.pending
unfolding run_foreign
pending-run_foreign f m job j =
    pending-foreign_found (named (codes "job") (items (Db.query j.db f))) m job j

pending-finish_olds : (is : Items) (n : ℕ) (j : JobDb) → (finish_olds is n j).2.pending ≡ j.pending
unfolding finish_olds
pending-finish_olds nil n j = refl
pending-finish_olds (text t r) n j = pending-finish_olds r n j
pending-finish_olds (child h r) n j =
    let b = has_prefix (name h) (codes "answer") in
    pending-finish_olds r (if b then suc n else n) (if b then take_id j else j)
    ∙ pending-if b (take_id j) j j.pending refl refl

pub pending-run_sync : (fju : Hash) (j : JobDb) → (run_sync fju j).pending ≡ j.pending
unfolding run_sync
pending-run_sync fju j =
    let mine =
      children (items (Db.query j.db (filter_simple (codes "siserver" ∷ j.server ∷ [])))) in
    pending-finish_olds (items (drop_counterparts mine fju)) 1 j

pending-send_batches :
    (bs : Option (List Batch)) (j : JobDb) → (send_batches bs j).pending ≡ j.pending
unfolding send_batches
pending-send_batches none j = refl
pending-send_batches (some []) j = refl
pending-send_batches (some (b ∷ bs)) j = refl

pub pending-run_forward :
    (f : Filter) (update : Hash) (j : JobDb) → (run_forward f update j).pending ≡ j.pending
unfolding run_forward
pending-run_forward f update j =
    pending-send_batches (forward_loop update (children (items (Db.query j.db f))) []) j

pub pending-run_update_name :
    (f : Filter) (job : Hash) (j : JobDb) → (run_update_name f job j).pending ≡ j.pending
unfolding run_update_name
pending-run_update_name f job j =
    pending-name_jobs (field job (codes "plainname"))
      (named (codes "job") (items (Db.query j.db f))) j

pub pending-run_modify :
    (f : Filter) (update : Hash) (j : JobDb)
    → (run_modify f update j).pending
      ≡ (modify_loop update (children (items (Db.query j.db f))) 1 new_updates j).2.pending
unfolding run_modify
pending-run_modify f update j =
    let (n, fju, j') = modify_loop update (children (items (Db.query j.db f))) 1 new_updates j in
    pending-send_answers n fju j'
