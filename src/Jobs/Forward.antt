-- ===== src/Jobs/Forward.antt =====
-- The request of `JobsForwardModifyRequest` in go-susi/db/jobdb.go: changes of jobs of other servers are
-- sent to those servers.
use limux_gosa.Base.{ℕ, suc, ◌+◌, true, Option, none, some, List, [], ◌∷◌, ◌++◌, map, if◌then◌else◌}
use limux_gosa.Base.Text.{Text, codes, text_eq}
use limux_gosa.Xml.Hash.{
  Hash, items, children, content, field, first, set_field, remove_first, add, add_with_ownership,
}
use limux_gosa.Xml.Filter.{Filter}
use limux_gosa.Xml.Db
use limux_gosa.Jobs.{JobDb, updatable_fields}
use limux_gosa.Jobs.Message.{update_message, rename_answer, new_updates, address_updates}
use limux_gosa.Jobs.Foreign.{update_fields}

-- `count[siserver]` and `fju[siserver]`
pub record Batch : Type 0 where
  pub siserver : Text
  pub count : ℕ
  pub message : Hash

-- `job.First("id").SetText(job.RemoveFirst("original_id").Text())`; `none` is the panic where there is
-- no such child.
id_from : Hash → Option Hash × Hash → Option Hash
id_from job (none, rest) = none
id_from job (some original, rest) = some (set_field rest (codes "id") (content original))

unfoldable pub original_numbered : Hash → Option Hash
unfolding id_from
original_numbered job = elim (first job (codes "id")) [
  | none ↦ none
  | some _ ↦ id_from job (remove_first job (codes "original_id"))
]

-- The job is added to the message for its server, which is begun where there is none.
unfoldable pub add_answer : Text → (ℕ → Hash) → List Batch → List Batch
add_answer siserver job [] =
    record { siserver = siserver; count = 2; message = add_with_ownership new_updates (job 1) } ∷ []
add_answer siserver job (b ∷ bs) =
    let rest = add_answer siserver job bs in
    if text_eq b.siserver siserver
    then record b { count = suc b.count; message = add_with_ownership b.message (job b.count) } ∷ bs
    else b ∷ rest

-- The loop over the jobs.
unfoldable pub forward_loop : Hash → List Hash → List Batch → Option (List Batch)
unfolding update_fields original_numbered add_answer
forward_loop update [] batches = some batches
forward_loop update (x ∷ xs) batches =
    let continue = λ (job : Hash). forward_loop update xs (
      add_answer (field x (codes "siserver")) (λ count. update_message (rename_answer count job))
        batches) in
    elim (original_numbered (update_fields update updatable_fields x)) [
      | none ↦ none
      | some job ↦ continue job
    ]

-- A message that is complete.
unfoldable pub forward_message : Text → Batch → Hash
forward_message server b =
    add (address_updates server b.siserver b.message) (codes "SyncIfNotGoSusi") []

-- The messages are sent, in the order of the map.
unfoldable pub send_batches : Option (List Batch) → JobDb → JobDb
send_batches none j = record j { panicked = true }
send_batches (some []) j = j
send_batches (some (b ∷ bs)) j = record j {
  updates = j.updates ++ j.ranged (map (forward_message j.server) (b ∷ bs));
  forwards = j.forwards + 1;
}

-- `modifyjobs`
unfoldable pub run_forward : Filter → Hash → JobDb → JobDb
unfolding forward_loop send_batches
run_forward f update j =
    send_batches (forward_loop update (children (items (Db.query j.db f))) []) j
