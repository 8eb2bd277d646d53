-- ===== src/Jobs/Sync.antt =====
-- `JobsSyncAll` of go-susi/db/jobdb.go: all local jobs for one peer.
use limux_gosa.Base.{
  ℕ, suc, Bool, true, false, ◌&&◌, Option, none, some, List, [], ◌∷◌, ◌==◌, if◌then◌else◌,
}
use limux_gosa.Base.Text.{Text, codes, decimal}
use limux_gosa.Xml.Hash.{
  Hash, Items, nil, text, child, name, items, with_items, children, clone, field, new_hash, add,
  set_field, remove_first, add_with_ownership,
}
use limux_gosa.Xml.Filter.{Filter, filter_simple}
use limux_gosa.Xml.Select.{stateless}
use limux_gosa.Xml.Select
use limux_gosa.Xml.Db
use limux_gosa.Jobs.{sync_all, JobDb, enqueue, send, take_id}
use limux_gosa.Jobs.Message.{rename_answer}

-- `strings.HasPrefix`, with the prefix last.
unfoldable pub has_prefix : Text → Text → Bool
has_prefix s [] = true
has_prefix [] (b ∷ p) = false
has_prefix (a ∷ s) (b ∷ p) = a == b && has_prefix s p

-- `if old == nil { old = xml.NewHash("xml") }`
abbrev pub or_empty : Option Hash → Hash
or_empty none = new_hash (codes "xml") []
or_empty (some old) = old

-- The message before the request, for a `nil` reply of the peer or one.
unfoldable pub start_sync : Text → Text → Option Hash → Hash
start_sync server target old =
    add
      (set_field
        (set_field (set_field (clone (or_empty old)) (codes "header") (codes "foreign_job_updates"))
          (codes "target") target)
        (codes "source") server)
      (codes "sync") (codes "all" ∷ [])

-- `JobsSyncAll`
unfoldable pub jobs_sync_all : Text → Option Hash → JobDb → JobDb
unfolding start_sync
jobs_sync_all target old j = enqueue j (sync_all (start_sync j.server target old))

-- `xml.FilterSimple` of the action and the machine of a job.
abbrev pub same_action : Hash → Filter
same_action job = filter_simple (
    codes "headertag"
    ∷ field job (codes "headertag")
    ∷ codes "macaddress"
    ∷ field job (codes "macaddress")
    ∷ [])

-- The first loop: old jobs with a counterpart are taken out.
unfoldable pub drop_counterparts : List Hash → Hash → Hash
drop_counterparts [] fju = fju
drop_counterparts (job ∷ jobs) fju =
    let (removed, rest, _) = Select.remove (stateless (same_action job)) tt fju in
    drop_counterparts jobs rest

-- What the second loop makes of an old job.
unfoldable pub finish_old : ℕ → ℕ → Hash → Hash
finish_old id count job = rename_answer count (
    set_field
      (set_field (set_field job (codes "status") (codes "done")) (codes "periodic") (codes "none"))
      (codes "id") (decimal id))

-- The second loop, over the tokens of the message.
unfoldable pub finish_olds : Items → ℕ → JobDb → Items × ℕ × JobDb
unfolding finish_old has_prefix
finish_olds nil count j = (nil, count, j)
finish_olds (text t r) count j =
    let (r', count', j') = finish_olds r count j in (text t r', count', j')
finish_olds (child h r) count j =
    let is_answer = has_prefix (name h) (codes "answer") in
    let (r', count', j') =
      finish_olds r (if is_answer then suc count else count) (if is_answer then take_id j else j) in
    (child (if is_answer then finish_old j.next_id count h else h) r', count', j')

-- The third loop: the local jobs are added.
unfoldable pub add_jobs : List Hash → ℕ → Hash → Hash
add_jobs [] count fju = fju
add_jobs (job ∷ jobs) count fju =
    add_jobs jobs (suc count)
      (add_with_ownership fju (rename_answer count (remove_first job (codes "original_id")).1))

-- `syncall`
unfoldable pub run_sync : Hash → JobDb → JobDb
unfolding drop_counterparts finish_olds add_jobs
run_sync fju j =
    let mine =
      children (items (Db.query j.db (filter_simple (codes "siserver" ∷ j.server ∷ [])))) in
    let others = drop_counterparts mine fju in
    let (finished, count, j') = finish_olds (items others) 1 j in
    send j' (add_jobs mine count (with_items others finished))
