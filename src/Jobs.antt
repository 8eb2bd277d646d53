-- ===== src/Jobs.antt =====
-- go-susi/db/jobdb.go: the job database. Its functions put requests into a channel, and one goroutine
-- carries the requests out in that order; `JobDb` is what they work on, and what they send to others.
pub mod Message
pub mod Local
pub mod Foreign
pub mod Sync
pub mod Forward
pub mod Start
pub mod Groom
pub mod Clock
pub mod Run
pub mod Laws
pub mod Fields
pub mod Kept
pub mod Pending
pub mod Adding
pub mod Counterparts
pub mod Partition
pub mod Tests
use limux_gosa.Base.{
  ℕ, suc, ◌%◌, ◌^◌, Bool, true, false, ◌&&◌, ◌||◌, not, List, [], ◌∷◌, ◌++◌, if◌then◌else◌,
}
use limux_gosa.Base.Text.{Text, codes, text_eq, decimal}
use limux_gosa.Xml.Hash.{Hash, clone, field, get, new_hash, add, set_field}
use limux_gosa.Xml.Filter.{Filter, filter_simple, filter_and, filter_not}
use limux_gosa.Xml.Db.{Db}

-- `jobDBRequest`: the action, with what its closure has captured, the filter and the job.
pub data Request : Type 0 where
  query_jobs : Filter → Request
  add_job : Hash → Request
  remove_jobs : Filter → Bool → Request
  modify_jobs : Filter → Hash → Request
  remove_foreign_jobs : Filter → Request
  -- the text is the MAC address in the job that the caller has passed
  add_or_modify_foreign_job : Filter → Text → Hash → Request
  update_name : Filter → Hash → Request
  sync_all : Hash → Request
  forward_jobs : Filter → Hash → Request

pub record JobDb : Type 0 where
  -- `config.ServerSourceAddress`
  pub server : Text
  -- `jobDB`
  pub db : Db
  -- the number that `nextID` delivers next
  pub next_id : ℕ
  -- `jobDBRequests`, the oldest request first
  pub requests : List Request
  -- the replies to `JobsQuery`
  pub replies : List Hash
  -- `ForeignJobUpdates` and `PendingActions`, the newest last
  pub updates : List Hash
  pub pending : List Hash
  -- calls of `scheduleProcessPendingActions`, of the look-up of `JobsUpdateNameForMAC`, and of
  -- `ClientUnthrottle`
  pub schedules : List (Text × Text)
  pub lookups : List Text
  pub unthrottled : List Text
  -- calls of `MostRecentForwardModifyRequestTime.Put`
  pub forwards : ℕ
  -- the order in which Go ranges over the messages in a map
  pub ranged : List Hash → List Hash
  -- whether a request has ended the program
  pub panicked : Bool

-- `jobDBRequests <- ...`
abbrev pub enqueue : JobDb → Request → JobDb
enqueue j r = record j { requests = j.requests ++ r ∷ [] }

-- `ForeignJobUpdates <- ...`
abbrev pub send : JobDb → Hash → JobDb
send j fju = record j { updates = j.updates ++ fju ∷ [] }

-- `PendingActions.Push`
abbrev pub push : JobDb → Hash → JobDb
push j job = record j { pending = j.pending ++ job ∷ [] }

abbrev pub schedule : JobDb → Hash → JobDb
schedule j job = record j {
  schedules = j.schedules ++ (field job (codes "timestamp"), field job (codes "tminus")) ∷ [];
}

-- `<-nextID`, a `uint64`.
abbrev pub take_id : JobDb → JobDb
take_id j = record j { next_id = suc j.next_id % 2 ^ 64 }

-- `xml.FilterSimple("id", job.Text("id"))`
abbrev pub same_id : Hash → Filter
same_id job = filter_simple (codes "id" ∷ field job (codes "id") ∷ [])

-- `updatableFields`
abbrev pub updatable_fields : List Text
updatable_fields =
    codes "progress"
    ∷ codes "status"
    ∷ codes "periodic"
    ∷ codes "timestamp"
    ∷ codes "tminus"
    ∷ codes "result"
    ∷ []

-- `JobsQuery`
unfoldable pub jobs_query : Filter → JobDb → JobDb
jobs_query f j = enqueue j (query_jobs f)

-- `JobsRemoveLocal`
unfoldable pub jobs_remove_local : Filter → Bool → JobDb → JobDb
jobs_remove_local f stop_periodic j = enqueue j (remove_jobs f stop_periodic)

-- `stop_periodic`
unfoldable pub stops_periodic : Hash → Bool
stops_periodic update =
    let has_periodic : Bool = elim (get update (codes "periodic" ∷ [])) [ [] ↦ false | _ ↦ true ] in
    let periodic = field update (codes "periodic") in
    has_periodic && (text_eq periodic [] || text_eq periodic (codes "none"))

-- `JobsModifyLocal`
unfoldable pub jobs_modify_local : Filter → Hash → JobDb → JobDb
unfolding jobs_remove_local
jobs_modify_local f update j =
    if text_eq (field update (codes "status")) (codes "done")
    then jobs_remove_local f (stops_periodic update) j
    else enqueue j (modify_jobs f (clone update))

-- `JobsForwardModifyRequest`
unfoldable pub jobs_forward_modify_request : Filter → Hash → JobDb → JobDb
jobs_forward_modify_request f update j = enqueue j (forward_jobs f (clone update))

-- `xml.FilterSimple("siserver", config.ServerSourceAddress)`
abbrev pub is_local : JobDb → Filter
is_local j = filter_simple (codes "siserver" ∷ j.server ∷ [])

-- `JobsModify`
unfoldable pub jobs_modify : Filter → Hash → JobDb → JobDb
unfolding jobs_modify_local jobs_forward_modify_request
jobs_modify f update j =
    jobs_forward_modify_request (filter_and (filter_not (is_local j) ∷ f ∷ [])) update
      (jobs_modify_local (filter_and (is_local j ∷ f ∷ [])) update j)

-- `JobsRemove`
abbrev pub removal : Hash
removal =
    add (add (new_hash (codes "job") []) (codes "status") (codes "done" ∷ [])) (codes "periodic")
      (codes "none" ∷ [])

unfoldable pub jobs_remove : Filter → JobDb → JobDb
unfolding jobs_modify
jobs_remove f j = jobs_modify f removal j

-- `JobAddLocal`, which also gives the caller's job its number; the job is the second component.
unfoldable pub job_add_local : Hash → JobDb → JobDb × Hash
unfolding decimal
job_add_local job j =
    let id = decimal j.next_id in
    let numbered = set_field (set_field job (codes "id") id) (codes "original_id") id in
    (enqueue (take_id j) (add_job (clone numbered)), numbered)

-- `JobsRemoveForeign`
unfoldable pub jobs_remove_foreign : Filter → JobDb → JobDb
jobs_remove_foreign f j = enqueue j (remove_foreign_jobs f)

-- `JobsAddOrModifyForeign`
unfoldable pub jobs_add_or_modify_foreign : Filter → Hash → JobDb → JobDb
unfolding jobs_remove_foreign
jobs_add_or_modify_foreign f job j =
    if text_eq (field job (codes "status")) (codes "done")
    then jobs_remove_foreign f j
    else enqueue j (add_or_modify_foreign_job f (field job (codes "macaddress")) (clone job))
