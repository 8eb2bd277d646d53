-- ===== src/Jobs/Local.antt =====
-- The requests on local jobs in go-susi/db/jobdb.go: the bodies of `addjob`, `deljob` and
-- `modifylocaljobs`.
use limux_gosa.Base.{
  ℕ, suc, Bool, true, false, not, ◌&&◌, ◌||◌, none, some, List, [], ◌∷◌, ◌++◌, ltb, if◌then◌else◌,
}
use limux_gosa.Base.Text.{Text, codes, text_eq}
use limux_gosa.Xml.Hash.{
  Hash, items, children, clone, content, field, first, set_field, remove_first, rename, add,
  new_hash, add_with_ownership,
}
use limux_gosa.Xml.Filter.{filter_simple, filter_and, filter_or, filter_not, Filter}
use limux_gosa.Xml.Db.{Db, add_items, replace}
use limux_gosa.Xml.Db
use limux_gosa.Jobs.{
  JobDb, send, push, schedule, same_id, updatable_fields, jobs_modify_local, jobs_remove_local,
}
use limux_gosa.Jobs.Message.{update_message, rename_answer, new_updates, address_updates}

-- "none" where the job has no name yet.
unfoldable pub named_job : Hash → Hash
named_job job =
    if text_eq (field job (codes "plainname")) []
    then set_field job (codes "plainname") (codes "none")
    else job

-- A look-up is started where the name is not known.
unfoldable pub look_up_name : Hash → Text → JobDb → JobDb
look_up_name job macaddress j =
    if text_eq (field job (codes "plainname")) (codes "none")
    then record j { lookups = j.lookups ++ macaddress ∷ [] }
    else j

-- `addjob` of `JobAddLocal`
unfoldable pub run_add : Hash → JobDb → JobDb
unfolding named_job look_up_name
run_add job j =
    let named = named_job job in
    let macaddress = field named (codes "macaddress") in
    let looked = look_up_name named macaddress j in
    let full = update_message named in
    let added =
      schedule
        (record looked {
          unthrottled = looked.unthrottled ++ macaddress ∷ [];
          db = add_items looked.db (full ∷ []);
        })
        full in
    let answer = (remove_first (rename full (codes "answer1")) (codes "original_id")).1 in
    send added (add_with_ownership (address_updates j.server [] new_updates) answer)

-- What `deljob` makes of a removed job.
unfoldable pub done_job : Bool → Hash → Hash
done_job stop_periodic job =
    let done = set_field job (codes "status") (codes "done") in
    let stopped =
      if stop_periodic then set_field done (codes "periodic") (codes "none") else done in
    update_message (remove_first stopped (codes "original_id")).1

-- The loop of `deljob` over the removed jobs, with the count and the message so far.
unfoldable pub remove_loop : Bool → List Hash → ℕ → Hash → JobDb → ℕ × Hash × JobDb
remove_loop stop [] count fju j = (count, fju, j)
remove_loop stop (x ∷ xs) count fju j =
    let job = done_job stop x in
    remove_loop stop xs (suc count) (add_with_ownership fju (rename_answer count job))
      (push j (clone job))

-- A message is sent only where it has an answer.
unfoldable pub send_answers : ℕ × Hash × JobDb → JobDb
send_answers (count, fju, j) = if ltb 1 count then send j (address_updates j.server [] fju) else j

-- `deljob` of `JobsRemoveLocal`
unfoldable pub run_remove : Filter → Bool → JobDb → JobDb
unfolding send_answers
run_remove f stop j =
    let (removed, db) = Db.remove j.db f in
    send_answers (remove_loop stop (children (items removed)) 1 new_updates (record j { db = db }))

-- The local variables of the loop over the fields.
pub record Edit : Type 0 where
  pub job : Hash
  pub send_fju : Bool
  pub status_changed : Bool
  pub state : JobDb

abbrev pub is_install_or_update : Hash → Bool
is_install_or_update job =
    text_eq (field job (codes "headertag")) (codes "trigger_action_reinstall")
    || text_eq (field job (codes "headertag")) (codes "trigger_action_update")

-- The other install and update jobs of the machine that are processing.
unfoldable pub to_remove : Text → Hash → Filter
unfolding filter_and filter_or filter_not filter_simple
to_remove server job = filter_and (
    filter_simple (
      codes "siserver"
      ∷ server
      ∷ codes "macaddress"
      ∷ field job (codes "macaddress")
      ∷ codes "status"
      ∷ codes "processing"
      ∷ [])
    ∷ filter_or (
        filter_simple (codes "headertag" ∷ codes "trigger_action_reinstall" ∷ [])
        ∷ filter_simple (codes "headertag" ∷ codes "trigger_action_update" ∷ [])
        ∷ [])
    ∷ filter_not (same_id job)
    ∷ [])

-- `xml.NewHash("job","progress","groom")`
abbrev pub groom_update : Hash
groom_update = add (new_hash (codes "job") []) (codes "progress") (codes "groom" ∷ [])

-- The requests that the launch of an install or update job enqueues.
unfoldable pub request_removal : Hash → JobDb → JobDb
request_removal job j =
    let f = to_remove j.server job in
    if is_install_or_update job
    then jobs_remove_local f false (jobs_modify_local f groom_update j)
    else j

-- The field `name` of the update with the text `x`.
unfoldable pub edit_field : Text → Text → Edit → Edit
edit_field name x e =
    let is_status = text_eq name (codes "status") in
    let launches = is_status && text_eq x (codes "launch") in
    let is_internal =
      text_eq name (codes "progress")
      && (text_eq x (codes "forward") || text_eq x (codes "groom")) in
    let job' = set_field e.job name x in
    let requested = if launches then request_removal job' e.state else e.state in
    record {
      job = job';
      send_fju = not (not launches && is_internal) && e.send_fju;
      status_changed = e.status_changed || (is_status && not (text_eq x []));
      state =
          if text_eq name (codes "timestamp") || text_eq name (codes "tminus")
          then schedule requested job'
          else requested;
    }

-- The loop over `updatableFields`.
unfoldable pub edit_fields : Hash → List Text → Edit → Edit
edit_fields update [] e = e
edit_fields update (name ∷ names) e = elim (first update name) [
  | none ↦ edit_fields update names e
  | some x ↦ edit_fields update names (edit_field name (content x.here) e)
]

-- The test on "launch" and the one on "wakeup".
unfoldable pub launch_job : Hash → JobDb → Hash × JobDb
launch_job job j =
    let processing = set_field job (codes "status") (codes "processing") in
    if text_eq (field job (codes "status")) (codes "launch")
    then (processing, push j (clone processing))
    else (job, j)

unfoldable pub wake_job : Hash × JobDb → Hash × JobDb
wake_job (job, j) =
    if text_eq (field job (codes "status")) (codes "wakeup")
    then (job, push j (clone job))
    else (job, j)

unfoldable pub start_job : Bool → Hash → JobDb → Hash × JobDb
unfolding launch_job wake_job
start_job status_changed job j = if status_changed then wake_job (launch_job job j) else (job, j)

-- The rest of the loop body: the job goes back into the database, and into the message.
unfoldable pub store_job : Bool → Hash × JobDb → ℕ → Hash → ℕ × Hash × JobDb
store_job send_fju (job, j) count fju =
    let full = update_message job in
    let stored = record j { db = (replace j.db (same_id full) true (full ∷ [])).1 } in
    let answer = rename_answer count (remove_first full (codes "original_id")).1 in
    if send_fju then (suc count, add_with_ownership fju answer, stored) else (count, fju, stored)

-- The loop of `modifylocaljobs` over the jobs that the query has found.
unfoldable pub modify_loop : Hash → List Hash → ℕ → Hash → JobDb → ℕ × Hash × JobDb
modify_loop update [] count fju j = (count, fju, j)
modify_loop update (x ∷ xs) count fju j =
    let e =
      edit_fields update updatable_fields
        (record { job = x; send_fju = true; status_changed = false; state = j }) in
    let (count', fju', j') =
      store_job e.send_fju (start_job e.status_changed e.job e.state) count fju in
    modify_loop update xs count' fju' j'

-- `modifylocaljobs` of `JobsModifyLocal`
unfoldable pub run_modify : Filter → Hash → JobDb → JobDb
unfolding send_answers
run_modify f update j =
    send_answers (modify_loop update (children (items (Db.query j.db f))) 1 new_updates j)
