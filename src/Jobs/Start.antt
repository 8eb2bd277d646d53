-- ===== src/Jobs/Start.antt =====
-- `JobsInit`, `JobsShutdown` and `JobGUID` of go-susi/db/jobdb.go.
pub mod Fresh
pub mod Tests
use limux_gosa.Base.{
  ℕ, ◌+◌, ◌*◌, ◌%◌, ◌^◌, Bool, true, Option, none, some, List, [], ◌∷◌, ◌++◌, ltb, if◌then◌else◌,
}
use limux_gosa.Base.Text.{Text, codes, parse_uint, decimal}
use limux_gosa.Xml.Hash.{Hash, items, named, field}
use limux_gosa.Xml.Filter.{filter_all, filter_not}
use limux_gosa.Xml.Db.{Db, new_db, init, shutdown}
use limux_gosa.Xml.Db
use limux_gosa.Jobs.{JobDb, schedule, is_local}

-- The database at the start, for what `FileToHash` returns (`none` where it fails), unless a fresh one is
-- asked for.
unfoldable pub start_db : Bool → Option Hash → Db
start_db fresh none = new_db (codes "jobdb") true none
start_db fresh (some h) =
    if fresh
    then new_db (codes "jobdb") true (some h)
    else init (new_db (codes "jobdb") true (some h)) h

-- The loop that looks for the greatest number and schedules the jobs; `none` is the panic on an `id`
-- that is no number.
unfoldable pub count_jobs : List Hash → ℕ → JobDb → Option (ℕ × JobDb)
count_jobs [] count j = some (count, j)
count_jobs (job ∷ jobs) count j =
    let continue =
      λ (id : ℕ). count_jobs jobs (if ltb count id then id else count) (schedule j job) in
    elim (parse_uint (field job (codes "id"))) [ none ↦ none | some id ↦ continue id ]

unfoldable pub numbered : JobDb → Option (ℕ × JobDb) → JobDb
numbered j none = record j { panicked = true }
numbered j (some (count, j')) = record j' { next_id = (count + 1) % 2 ^ 64 }

-- `JobsInit`, for what `FileToHash` returns and a state whose other parts are empty.
unfoldable pub jobs_init : Bool → Option Hash → JobDb → JobDb
unfolding start_db count_jobs numbered
jobs_init fresh file j =
    let local = (Db.remove (start_db fresh file) (filter_not (is_local j))).1 in
    let started = record j { db = local } in
    numbered started
      (count_jobs (named (codes "job") (items (Db.query local filter_all))) 0 started)

-- `JobsShutdown`; the flag says that the storer has returned no error.
unfoldable pub jobs_shutdown : Bool → JobDb → JobDb
jobs_shutdown stores j = record j { db = shutdown stores j.db }

-- `JobGUID` for an IPv4 address and a port, which the standard library has read.
unfoldable pub job_guid : ℕ → ℕ → ℕ → ℕ → ℕ → ℕ → Text
job_guid a b c d port num =
    decimal num ++ decimal ((a + b * 2 ^ 8 + c * 2 ^ 16 + d * 2 ^ 24 + port * 2 ^ 32) % 2 ^ 64)
