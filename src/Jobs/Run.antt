-- ===== src/Jobs/Run.antt =====
-- The goroutine `handleJobDBRequests` of go-susi/db/jobdb.go, as far as it carries requests out.
use limux_gosa.Base.{Bool, true, false, List, [], ◌∷◌, ◌++◌}
use limux_gosa.Xml.Db
use limux_gosa.Jobs.{
  Request, query_jobs, add_job, remove_jobs, modify_jobs, remove_foreign_jobs,
  add_or_modify_foreign_job, update_name, sync_all, forward_jobs, JobDb,
}
use limux_gosa.Jobs.Local.{run_add, run_remove, run_modify}
use limux_gosa.Jobs.Forward.{run_forward}
use limux_gosa.Jobs.Sync.{run_sync}
use limux_gosa.Jobs.Foreign.{run_remove_foreign, run_foreign, run_update_name}

-- `request.Action(request)`
unfoldable pub run : Request → JobDb → JobDb
run (query_jobs f) j = record j { replies = j.replies ++ Db.query j.db f ∷ [] }
run (add_job job) j = run_add job j
run (remove_jobs f stop_periodic) j = run_remove f stop_periodic j
run (modify_jobs f update) j = run_modify f update j
run (remove_foreign_jobs f) j = run_remove_foreign f j
run (add_or_modify_foreign_job f macaddress job) j = run_foreign f macaddress job j
run (update_name f job) j = run_update_name f job j
run (sync_all fju) j = run_sync fju j
run (forward_jobs f update) j = run_forward f update j

-- The next request, unless the program has ended.
handle_next : Bool → List Request → JobDb → JobDb
handle_next true rs j = j
handle_next false [] j = j
handle_next false (r ∷ rs) j = run r (record j { requests = rs })

-- `case request = <-jobDBRequests`; on an empty channel it waits.
unfoldable pub handle_request : JobDb → JobDb
unfolding handle_next
handle_request j = handle_next j.panicked j.requests j
