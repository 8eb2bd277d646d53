-- ===== src/Jobs/Tests.antt =====
-- Concrete runs of the job database, and the theorems applied to them.
use limux_gosa.Base.{
  List, ◌||◌, ◌&&◌, true, false, none, [], ◌∷◌, ◌++◌, ◌≡◌, refl, keep, drop, some, not,
}
use limux_gosa.Base.Text.{codes, decimal}
use limux_gosa.Xml.Hash.{Hash, new_hash, add, add_with_ownership, get}
use limux_gosa.Xml.Filter.{Filter, filter_simple}
use limux_gosa.Xml.Db.{new_db, init}
use limux_gosa.Xml.Db.Laws.{items_of}
use limux_gosa.Jobs.{JobDb, job_add_local, jobs_modify, modify_jobs}
use limux_gosa.Jobs.Local.{run_remove}
use limux_gosa.Jobs.Run.{run, handle_request}
use limux_gosa.Jobs.Laws.{AreDone, AreNumbered, broadcast, selected, run_remove_lem}
use limux_gosa.Jobs.Adding.{stored_job, job_add_local_lem}
use limux_gosa.Jobs.Clock.{Clock}
use limux_gosa.Jobs.Partition.{local_request, foreign_request, changes, jobs_modify_partition}
use limux_gosa.Jobs.Pending.{IsActions, run-IsActions}

abbrev pub wake : Hash
wake =
    add
      (add
        (add (add (new_hash (codes "job") []) (codes "id") (codes "1" ∷ [])) (codes "status")
          (codes "waiting" ∷ []))
        (codes "siserver") (codes "10.0.0.1:20081" ∷ []))
      (codes "macaddress") (codes "00:0c:29:50:a3:52" ∷ [])

abbrev pub lock : Hash
lock =
    add (add (new_hash (codes "job") []) (codes "id") (codes "2" ∷ [])) (codes "status")
      (codes "waiting" ∷ [])

abbrev pub two_jobs : JobDb
two_jobs = record {
  server = codes "10.0.0.1:20081";
  db =
      init (new_db (codes "jobdb") false none)
        (add_with_ownership (add_with_ownership (new_hash (codes "jobdb") []) wake) lock);
  next_id = 3;
  requests = [];
  replies = [];
  updates = [];
  pending = [];
  schedules = [];
  lookups = [];
  unthrottled = [];
  forwards = 0;
  ranged = λ messages. messages;
  panicked = false;
}

abbrev first_job : Filter
first_job = filter_simple (codes "id" ∷ codes "1" ∷ [])

abbrev launch : Hash
launch = add (new_hash (codes "job") []) (codes "status") (codes "launch" ∷ [])

run_remove_example :
    (done answered : List Hash) × (items_of (run_remove first_job true two_jobs).db
      ≡ keep (λ x. not (first_job (some x))) (items_of two_jobs.db))
    × ((run_remove first_job true two_jobs).pending ≡ done)
    × AreDone true (selected first_job true two_jobs) done
    × ((run_remove first_job true two_jobs).updates ≡ broadcast two_jobs.server answered)
    × AreDone true (selected first_job true two_jobs) answered
    × AreNumbered 1 answered
run_remove_example = run_remove_lem first_job true two_jobs

run-IsActions_example : IsActions (run (modify_jobs first_job launch) two_jobs).pending
run-IsActions_example = run-IsActions (modify_jobs first_job launch) two_jobs tt

job_add_local_example :
    (items_of (handle_request (job_add_local wake two_jobs).0).db
      ≡ items_of two_jobs.db ++ stored_job wake two_jobs ∷ [])
    × (get (stored_job wake two_jobs) (codes "id" ∷ [])
        ≡ decimal 3 ∷ drop 1 (get wake (codes "id" ∷ [])))
    × (get (stored_job wake two_jobs) (codes "original_id" ∷ [])
        ≡ decimal 3 ∷ drop 1 (get wake (codes "original_id" ∷ [])))
    × ((job_add_local wake two_jobs).0.next_id ≡ 4)
job_add_local_example = job_add_local_lem wake two_jobs refl refl

abbrev evening : Clock
evening = record { next_groom = 1445; backwards_jump = false }

jobs_modify_partition_example :
    ((jobs_modify first_job launch two_jobs).requests
      ≡ local_request first_job launch two_jobs ∷ foreign_request first_job launch two_jobs ∷ [])
    × ((changes (local_request first_job launch two_jobs) (some wake)
          || changes (foreign_request first_job launch two_jobs) (some wake))
        ≡ first_job (some wake))
    × ((changes (local_request first_job launch two_jobs) (some wake)
          && changes (foreign_request first_job launch two_jobs) (some wake))
        ≡ false)
jobs_modify_partition_example = jobs_modify_partition first_job launch two_jobs wake
