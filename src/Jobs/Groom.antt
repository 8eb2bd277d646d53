-- ===== src/Jobs/Groom.antt =====
-- `groomJobDB` of go-susi/db/jobdb.go, and what is done when the time of jobs has come.
use limux_gosa.Base.{
  Bool, false, ◌&&◌, ◌||◌, Option, none, some, Ordering, List, [], ◌∷◌, ◌++◌, take, if◌then◌else◌,
}
use limux_gosa.Base.Text.{Text, codes, text_eq}
use limux_gosa.Xml.Hash.{Hash, field, new_hash, add, mem_text}
use limux_gosa.Xml.Filter.{Filter, filter_simple, filter_and, filter_or, filter_rel}
use limux_gosa.Xml.Db.{column_values}
use limux_gosa.Jobs.{JobDb, same_id, is_local, jobs_modify_local, jobs_remove_local}
use limux_gosa.Jobs.Local.{is_install_or_update, groom_update}

-- `(faistate + "12345")[0:5]`
abbrev pub state_of : Text → Text
state_of faistate = take 5 (faistate ++ codes "12345")

-- Whether the state of the machine fits the job that is processing.
unfoldable pub fits_state : Hash → Text → Bool
fits_state job faistate =
    let state = state_of faistate in
    (text_eq (field job (codes "headertag")) (codes "trigger_action_reinstall")
      && (text_eq state (codes "reins") || text_eq state (codes "insta")))
    || (text_eq (field job (codes "headertag")) (codes "trigger_action_update")
        && (text_eq state (codes "updat") || text_eq state (codes "softu")))

-- `xml.NewHash("job", "status", "error")` with its result.
abbrev pub error_update : Hash
error_update =
    add (add (new_hash (codes "job") []) (codes "status") (codes "error" ∷ [])) (codes "result")
      (codes "Job has not launched. This is a bug. Please report." ∷ [])

-- A job that does not fit, if it is a local one.
unfoldable pub remove_inconsistent : Hash → JobDb → JobDb
remove_inconsistent job j =
    if text_eq (field job (codes "siserver")) j.server
    then jobs_remove_local (same_id job) false (jobs_modify_local (same_id job) groom_update j)
    else j

unfoldable pub mark_unlaunched : Hash → JobDb → JobDb
mark_unlaunched job j =
    if text_eq (field job (codes "siserver")) j.server
    then jobs_modify_local (same_id job) error_update j
    else j

-- What a running job comes to, by the data of its machine.
unfoldable pub check_running : Hash → Option Hash → JobDb → JobDb
check_running job none j = j
check_running job (some system) j =
    if fits_state job (field system (codes "faistate")) then j else remove_inconsistent job j

-- One round of the loop; `system` is `SystemGetAllDataForMAC`.
unfoldable pub groom_job : (Text → Option Hash) → Hash → JobDb → JobDb
unfolding check_running mark_unlaunched remove_inconsistent
groom_job system job j =
    if is_install_or_update job && text_eq (field job (codes "status")) (codes "processing")
    then check_running job (system (field job (codes "macaddress"))) j
    else mark_unlaunched job j

-- The jobs that `groomJobDB` asks for, and its loop over the reply.
abbrev pub older_than : Text → Filter
older_than timestamp = filter_rel (codes "timestamp") timestamp Ordering.lt Ordering.eq

unfoldable pub groom_jobs : (Text → Option Hash) → List Hash → JobDb → JobDb
unfolding groom_job
groom_jobs system [] j = j
groom_jobs system (job ∷ jobs) j = groom_jobs system jobs (groom_job system job j)

-- `util.AddTimestamp`, which may fail, on the present time and a `tminus`.
module _ (add_timestamp : Text → Text → Option Text) (now : Text) where
  -- The filter for one value of `tminus`.
  unfoldable pub tminus_filter : Text → Option Filter
  tminus_filter tminus = elim (add_timestamp now tminus) [
    | none ↦ none
    | some ts ↦ some (
        filter_and (
          filter_simple (codes "tminus" ∷ tminus ∷ [])
          ∷ filter_rel (codes "timestamp") ts Ordering.lt Ordering.eq
          ∷ []))
  ]

  add_filter : Option Filter → List Filter → List Filter
  add_filter none fs = fs
  add_filter (some f) fs = f ∷ fs

  -- The loop over the values, with those it has seen.
  unfoldable pub tminus_filters : List Text → List Text → List Filter
  unfolding tminus_filter add_filter
  tminus_filters seen [] = []
  tminus_filters seen (t ∷ ts) =
      let rest = tminus_filters seen ts in
      let more = add_filter (tminus_filter t) (tminus_filters (t ∷ seen) ts) in
      if mem_text t seen then rest else more

  -- `xml.NewHash("job","status",status)`
  abbrev pub to_status : Text → Hash
  to_status status = add (new_hash (codes "job") []) (codes "status") (status ∷ [])

  -- `case _ = <-processPendingActions`
  unfoldable pub process_pending : JobDb → JobDb
  unfolding tminus_filters
  process_pending j =
      let waiting = filter_simple (codes "status" ∷ codes "waiting" ∷ []) in
      let wakeup = filter_simple (codes "status" ∷ codes "wakeup" ∷ []) in
      let due = filter_rel (codes "timestamp") now Ordering.lt Ordering.eq in
      let launched =
        jobs_modify_local (filter_and (is_local j ∷ filter_or (waiting ∷ wakeup ∷ []) ∷ due ∷ []))
          (to_status (codes "launch")) j in
      let early = filter_or (tminus_filters [] (column_values j.db (codes "tminus"))) in
      jobs_modify_local (filter_and (is_local j ∷ waiting ∷ early ∷ []))
        (to_status (codes "wakeup")) launched
