-- ===== src/Jobs/Start/Tests.antt =====
-- A start of the job database from a file with a job of this server and one of another.
use limux_gosa.Base.{true, false, none, some, [], ◌∷◌, ◌≡◌, ◌≢◌, refl, arith, All, drop}
use limux_gosa.Base.Text.{codes}
use limux_gosa.Base.Text
use limux_gosa.Xml.Hash
use limux_gosa.Xml.Filter
use limux_gosa.Xml.Select
use limux_gosa.Xml.Db
use limux_gosa.Xml.Hash.{Hash, new_hash, field, get, add, add_with_ownership}
use limux_gosa.Xml.Db.{new_db}
use limux_gosa.Jobs.{JobDb, job_add_local}
use limux_gosa.Jobs.Start.{jobs_init, start_db, count_jobs, numbered}
use limux_gosa.Jobs.Start.Fresh.{all_jobs, jobs_init-IsFresh}
use limux_gosa.Jobs.Tests.{two_jobs, wake, lock}

abbrev file : Hash
file = add_with_ownership (add_with_ownership (new_hash (codes "jobdb") []) wake) lock

abbrev empty_jobs : JobDb
empty_jobs = record two_jobs { db = new_db (codes "jobdb") true none; next_id = 0 }

started :
    ((jobs_init false (some file) empty_jobs).panicked ≡ false)
    × ((jobs_init false (some file) empty_jobs).next_id ≡ 2)
    × ((jobs_init true (some file) empty_jobs).next_id ≡ 1)
unfolding jobs_init start_db count_jobs numbered Db.query Db.remove Select.query Select.query_from
    Select.remove Select.remove_from Hash.named new_db new_hash add add_with_ownership Hash.get
    Hash.set_text Hash.append_child Hash.append_string Hash.append_strings Hash.append_text
    Hash.content Hash.drop_text field Hash.join Hash.text_fragments Hash.text_of Hash.clone
    Filter.filter_all Filter.filter_not Filter.filter_simple Filter.simple_accepts Text.text_eq
    Text.lower Text.parse_uint Text.digits_onto Text.parse_digits Db.persist_job
started = (refl, refl, refl)

one_text : drop 1 (get lock (codes "id" ∷ [])) ≡ []
unfolding get Hash.set_text add new_hash Text.text_eq Hash.append_child Hash.append_string
    Hash.append_strings Hash.append_text Hash.content Hash.drop_text Hash.join Hash.text_fragments
    Text.lower
one_text = refl

jobs_init-IsFresh_example :
    All
      (λ x.
        field (job_add_local lock (jobs_init false (some file) empty_jobs)).1 (codes "id")
        ≢ field x (codes "id"))
      (all_jobs (jobs_init false (some file) empty_jobs))
jobs_init-IsFresh_example =
    jobs_init-IsFresh false (some file) empty_jobs lock one_text started.0
      (rw started.1 (omega arith))
