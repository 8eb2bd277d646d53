-- ===== src/Message/ForeignUpdates.antt =====
-- go-susi/message/foreign_job_updates.go: the message by which a peer tells of changes of jobs.
pub mod Reach
use limux_gosa.Base.{
  ℕ, Bool, true, false, not, ◌&&◌, ◌||◌, Option, none, some, List, [], ◌∷◌, ◌++◌, if◌then◌else◌,
}
use limux_gosa.Base.Text.{Text, codes, text_eq}
use limux_gosa.Xml.Hash.{
  Hash, name, items, children, clone, rename, field, first, content, set_field, add, mem_text,
  new_hash,
}
use limux_gosa.Xml.Filter.{Filter, filter_simple, filter_and, filter_or}
use limux_gosa.Jobs.{
  JobDb, jobs_modify_local, jobs_remove_local, jobs_remove_foreign, jobs_add_or_modify_foreign,
}
use limux_gosa.Jobs.Local.{is_install_or_update}
use limux_gosa.Security.Crypt.{is_space}
use limux_gosa.Security.Context.Verify.{has_prefix}
use limux_gosa.Message.Address.{is_address}

-- `strings.Join(strings.Fields(s),"")`
unfoldable pub without_spaces : Text → Text
without_spaces [] = []
without_spaces (c ∷ s) = let rest = without_spaces s in if is_space c then rest else c ∷ rest

-- The job in an answer, in the terms of this server: "localhost" is the sender.
unfoldable pub located : Text → Hash → Hash
located source answer =
    let job = rename (clone answer) (codes "job") in
    if text_eq (field job (codes "siserver")) (codes "localhost")
    then set_field job (codes "siserver") source
    else job

unfoldable pub with_message : Hash → Hash
with_message job = elim (first job (codes "xmlmessage")) [
  | none ↦ add job (codes "xmlmessage") ([] ∷ [])
  | some x ↦ set_field job (codes "xmlmessage") (without_spaces (content x.here))
]

unfoldable pub foreign_job : Text → Hash → Hash
unfolding located with_message
foreign_job source answer = with_message (located source answer)

-- `local_processing_install_or_update`
abbrev pub processing_here : Text → Text → Filter
processing_here server macaddress = filter_and (
    filter_simple (
      codes "siserver"
      ∷ server
      ∷ codes "macaddress"
      ∷ macaddress
      ∷ codes "status"
      ∷ codes "processing"
      ∷ [])
    ∷ filter_or (
        filter_simple (codes "headertag" ∷ codes "trigger_action_reinstall" ∷ [])
        ∷ filter_simple (codes "headertag" ∷ codes "trigger_action_update" ∷ [])
        ∷ [])
    ∷ [])

-- `xml.NewHash("job","progress","forward")`
abbrev pub forward_update : Hash
forward_update = add (new_hash (codes "job") []) (codes "progress") (codes "forward" ∷ [])

-- What a message works on: the job database, and the peers to synchronise with, in the order of their
-- first mention.
pub record Updates : Type 0 where
  pub jobs : JobDb
  pub syncs : List Text

unfoldable pub add_sync : Text → List Text → List Text
add_sync peer peers = if mem_text peer peers then peers else peers ++ peer ∷ []

-- `Peer(source).IsGoSusi()`
module _ (is_go_susi : Text → Bool) where
  -- Case 1: the job belongs to this server.
  unfoldable pub own_filter : Text → Text → Hash → Filter
  own_filter server source job =
      if is_go_susi source
      then filter_simple (codes "id" ∷ field job (codes "id") ∷ codes "siserver" ∷ server ∷ [])
      else filter_simple (
          codes "siserver"
          ∷ server
          ∷ codes "headertag"
          ∷ field job (codes "headertag")
          ∷ codes "macaddress"
          ∷ field job (codes "macaddress")
          ∷ [])

  unfoldable pub update_own : Text → Hash → Updates → Updates
  unfolding own_filter
  update_own source job u =
      let update =
        if text_eq (field job (codes "status")) (codes "done")
        then set_field job (codes "periodic") (codes "none")
        else job in
      record {
        jobs = jobs_modify_local (own_filter u.jobs.server source job) update u.jobs;
        syncs = if is_go_susi source then u.syncs else add_sync source u.syncs;
      }

  -- Case 2: the job belongs to the sender.
  unfoldable pub cancel_own : Hash → JobDb → JobDb
  cancel_own job j =
      let here = processing_here j.server (field job (codes "macaddress")) in
      if text_eq (field job (codes "status")) (codes "processing") && is_install_or_update job
      then jobs_remove_local here true (jobs_modify_local here forward_update j)
      else j

  unfoldable pub update_senders : Text → Hash → Updates → Updates
  unfolding cancel_own
  update_senders source job u = record u {
    jobs =
        jobs_add_or_modify_foreign
          (filter_simple
            (codes "siserver" ∷ source ∷ codes "original_id" ∷ field job (codes "id") ∷ []))
          job (cancel_own job u.jobs);
  }

  -- The three cases; case 3 is a job of a third server.
  unfoldable pub update_job : Text → Hash → Updates → Updates
  unfolding update_own update_senders
  update_job source job u =
      let siserver = field job (codes "siserver") in
      if text_eq siserver u.jobs.server
      then update_own source job u
      else if text_eq siserver source
      then update_senders source job u
      else record u { syncs = add_sync siserver u.syncs }

  -- The loop over the answers; it ends at an address that is none, and then no peer is synchronised.
  unfoldable pub update_loop : Text → List Hash → Updates → Updates × Bool
  unfolding foreign_job update_job
  update_loop source [] u = (u, true)
  update_loop source (x ∷ xs) u =
      let job = foreign_job source x in
      let skipped = update_loop source xs u in
      let updated = update_loop source xs (update_job source job u) in
      if not (has_prefix (name x) (codes "answer"))
      then skipped
      else if not (is_address (field job (codes "siserver")))
      then (u, false)
      else updated

  unfoldable pub finish_updates : Updates × Bool → JobDb × List Text
  finish_updates (u, completed) = (u.jobs, (if completed then u.syncs else []))

  -- `foreign_job_updates`: the requests, and the calls of `SyncIfNotGoSusi`, in some order.
  unfoldable pub foreign_job_updates : Hash → JobDb → JobDb × List Text
  unfolding update_loop finish_updates
  foreign_job_updates xmlmsg j =
      let source = field xmlmsg (codes "source") in
      let cleared =
        if text_eq (field xmlmsg (codes "sync")) (codes "all")
        then jobs_remove_foreign (filter_simple (codes "siserver" ∷ source ∷ [])) j
        else j in
      if not (is_address source)
      then (j, [])
      else finish_updates
          (update_loop source (children (items xmlmsg)) (record { jobs = cleared; syncs = [] }))
