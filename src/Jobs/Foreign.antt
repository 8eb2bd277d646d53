-- ===== src/Jobs/Foreign.antt =====
-- The requests on the jobs of other servers in go-susi/db/jobdb.go, and `updatename`.
use limux_gosa.Base.{true, none, some, List, [], ◌∷◌, ◌++◌, if◌then◌else◌}
use limux_gosa.Base.Text.{Text, codes, text_eq, decimal}
use limux_gosa.Xml.Hash.{
  Hash, items, named, clone, content, field, first, set_field, rename, add_with_ownership,
}
use limux_gosa.Xml.Filter.{Filter}
use limux_gosa.Xml.Db.{Db, add_items, replace}
use limux_gosa.Xml.Db
use limux_gosa.Jobs.{JobDb, send, take_id, same_id, updatable_fields}
use limux_gosa.Jobs.Message.{update_message, new_updates, address_updates}
use limux_gosa.Jobs.Local.{named_job, look_up_name}

-- `deljob` of `JobsRemoveForeign`
unfoldable pub run_remove_foreign : Filter → JobDb → JobDb
run_remove_foreign f j = record j { db = (Db.remove j.db f).1 }

-- The loop over `updatableFields` of `addmodify`.
unfoldable pub update_fields : Hash → List Text → Hash → Hash
update_fields update [] job = job
update_fields update (name ∷ names) job = elim (first update name) [
  | none ↦ update_fields update names job
  | some x ↦ update_fields update names (set_field job name (content x.here))
]

-- The loop over the jobs found.
unfoldable pub modify_foreign : Hash → List Hash → JobDb → JobDb
unfolding update_fields
modify_foreign update [] j = j
modify_foreign update (x ∷ xs) j =
    let job = update_message (update_fields update updatable_fields x) in
    modify_foreign update xs (record j { db = (replace j.db (same_id job) true (job ∷ [])).1 })

-- A new job, with its number as `original_id` and a number of this server.
unfoldable pub add_foreign : Text → Hash → JobDb → JobDb
unfolding named_job look_up_name
add_foreign macaddress request j =
    let renamed = rename request (codes "job") in
    let original = set_field renamed (codes "original_id") (field renamed (codes "id")) in
    let job = named_job (set_field original (codes "id") (decimal j.next_id)) in
    let unthrottled = record (take_id j) { unthrottled = j.unthrottled ++ macaddress ∷ [] } in
    let looked = look_up_name job macaddress unthrottled in
    record looked { db = add_items looked.db (update_message job ∷ []) }

-- What `addmodify` does with the jobs that it has found.
unfoldable pub modify_or_add : List Hash → Text → Hash → JobDb → JobDb
unfolding modify_foreign add_foreign
modify_or_add [] macaddress job j = add_foreign macaddress job j
modify_or_add (x ∷ xs) macaddress job j = modify_foreign job (x ∷ xs) j

-- `addmodify` of `JobsAddOrModifyForeign`
unfoldable pub run_foreign : Filter → Text → Hash → JobDb → JobDb
unfolding modify_or_add
run_foreign f macaddress job j =
    modify_or_add (named (codes "job") (items (Db.query j.db f))) macaddress job j

-- The message for the peers that do not look names up.
abbrev pub name_message : Text → Hash → Hash
name_message server job =
    address_updates server (codes "gosa-si")
      (add_with_ownership new_updates (rename (clone job) (codes "answer1")))

-- One round of the loop of `updatename`.
unfoldable pub name_job : Text → Hash → JobDb → JobDb
name_job plainname found j =
    let job = set_field found (codes "plainname") plainname in
    let stored = record j { db = (replace j.db (same_id job) true (job ∷ [])).1 } in
    if text_eq (field found (codes "plainname")) plainname
    then j
    else if text_eq (field job (codes "siserver")) j.server
    then send stored (name_message j.server job)
    else stored

unfoldable pub name_jobs : Text → List Hash → JobDb → JobDb
unfolding name_job
name_jobs plainname [] j = j
name_jobs plainname (x ∷ xs) j = name_jobs plainname xs (name_job plainname x j)

-- `updatename` of `JobsUpdateNameForMAC`
unfoldable pub run_update_name : Filter → Hash → JobDb → JobDb
unfolding name_jobs
run_update_name f job j =
    name_jobs (field job (codes "plainname")) (named (codes "job") (items (Db.query j.db f))) j
