-- ===== src/Message/ForeignUpdates/Reach.antt =====
-- Which jobs a message of go-susi/message/foreign_job_updates.go can reach.
use limux_gosa.Base.{
  Bool, true, false, not, ◌&&◌, some, List, [], ◌∷◌, ◌++◌, any, All, ◌≡◌, refl, sym, ap, ◌∙◌,
  append_assoc, append-nil, subst, arith, if◌then◌else◌,
}
use limux_gosa.Base.Text.{Text, codes, text_eq, text_eq_iff, to_lower}
use limux_gosa.Xml.Hash.{Hash, clone, name, items, children, field, text_of, get, set_field}
use limux_gosa.Xml.Hash.CloneFields.{field-clone}
use limux_gosa.Xml.Filter.{Filter, filter_simple, simple_accepts, filter_and, filter_or}
use limux_gosa.Jobs.{
  Request, remove_jobs, modify_jobs, remove_foreign_jobs, add_or_modify_foreign_job, JobDb, enqueue,
  jobs_modify_local, jobs_remove_local, jobs_remove_foreign, jobs_add_or_modify_foreign,
  stops_periodic,
}
use limux_gosa.Jobs.Local.{is_install_or_update}
use limux_gosa.Security.Context.Verify.{has_prefix}
use limux_gosa.Message.Address.{is_address}
use limux_gosa.Message.ForeignUpdates.{
  Updates, processing_here, forward_update, own_filter, update_own, cancel_own, update_senders,
  add_sync, update_job, foreign_job, update_loop, finish_updates, foreign_job_updates,
}

-- Whether an item belongs to a server, letters in either case.
abbrev pub belongs_to : Text → Hash → Bool
belongs_to server x =
    any (λ v. text_eq (to_lower v) (to_lower server)) (get x (codes "siserver" ∷ []))

abbrev pub OnlyOf : Text → Filter → Type 0
OnlyOf server f = (x : Hash) → f (some x) ≡ true → belongs_to server x ≡ true

-- A request on the jobs of this server, or of the sender; a job that it may add is one of the sender. No
-- other request.
abbrev pub Reaches : Text → Text → Request → Type 0
Reaches server source (remove_jobs f stop) = OnlyOf server f
Reaches server source (modify_jobs f update) = OnlyOf server f
Reaches server source (remove_foreign_jobs f) = OnlyOf source f
Reaches server source (add_or_modify_foreign_job f mac job) =
    OnlyOf source f × (field job (codes "siserver") ≡ source)
Reaches server source _ = ⊥

and_left : (a b : Bool) → (a && b) ≡ true → a ≡ true
and_left a b e = ground arith

and_right : (a b : Bool) → (a && b) ≡ true → b ≡ true
and_right a b e = ground arith

simple-OnlyOf :
    (server : Text) (rest : List Text)
    → OnlyOf server (filter_simple (codes "siserver" ∷ server ∷ rest))
unfolding filter_simple
simple-OnlyOf server rest x e = and_left (belongs_to server x) (simple_accepts rest x) e

second-OnlyOf :
    (server tag v : Text) → OnlyOf server (filter_simple (tag ∷ v ∷ codes "siserver" ∷ server ∷ []))
unfolding filter_simple
second-OnlyOf server tag v x e = and_left (belongs_to server x) true (
    and_right (any (λ w. text_eq (to_lower w) (to_lower v)) (get x (tag ∷ [])))
      (simple_accepts (codes "siserver" ∷ server ∷ []) x) e)

and_first :
    (f : Filter) (fs : List Filter) (x : Hash)
    → filter_and (f ∷ fs) (some x) ≡ true
    → f (some x) ≡ true
unfolding filter_and
and_first f fs x e = ground arith

processing-OnlyOf : (server mac : Text) → OnlyOf server (processing_here server mac)
processing-OnlyOf server mac x e =
    let f = filter_simple (
      codes "siserver"
      ∷ server
      ∷ codes "macaddress"
      ∷ mac
      ∷ codes "status"
      ∷ codes "processing"
      ∷ []) in
    let g = filter_or (
      filter_simple (codes "headertag" ∷ codes "trigger_action_reinstall" ∷ [])
      ∷ filter_simple (codes "headertag" ∷ codes "trigger_action_update" ∷ [])
      ∷ []) in
    simple-OnlyOf server (codes "macaddress" ∷ mac ∷ codes "status" ∷ codes "processing" ∷ []) x
      (and_first f (g ∷ []) x e)

field_clone_lem : (job : Hash) (m : Text) → field (clone job) m ≡ field job m
unfolding field text_of
field_clone_lem job m = field-clone job m

-- The state in the middle of a message.
module _ (server source : Text) (base : List Request) where
  pub record IsReached (j : JobDb) : Type 0 where
    pub same_server : j.server ≡ server
    pub added : List Request
    pub requests : j.requests ≡ base ++ added
    pub reach : All (Reaches server source) added

  All-enqueue :
      (rs : List Request) (r : Request)
      → All (Reaches server source) rs
      → Reaches server source r
      → All (Reaches server source) (rs ++ r ∷ [])
  All-enqueue [] r p q = (q, tt)
  All-enqueue (x ∷ rs) r (p, ps) q = (p, All-enqueue rs r ps q)

  enqueue-IsReached :
      (j : JobDb) (r : Request) → IsReached j → Reaches server source r → IsReached (enqueue j r)
  enqueue-IsReached j r h q = record {
    same_server = h.same_server;
    added = h.added ++ r ∷ [];
    requests = ap (λ rs. rs ++ r ∷ []) h.requests ∙ append_assoc base h.added (r ∷ []);
    reach = All-enqueue h.added r h.reach q;
  }

  remove_local-IsReached :
      (f : Filter) (stop : Bool) (j : JobDb)
      → IsReached j
      → OnlyOf server f
      → IsReached (jobs_remove_local f stop j)
  unfolding jobs_remove_local
  remove_local-IsReached f stop j h q = enqueue-IsReached j (remove_jobs f stop) h q

  if-IsReached :
      (b : Bool) (i j : JobDb) → IsReached i → IsReached j → IsReached (if b then i else j)
  if-IsReached true i j p q = p
  if-IsReached false i j p q = q

  modify_local-IsReached :
      (f : Filter) (update : Hash) (j : JobDb)
      → IsReached j
      → OnlyOf server f
      → IsReached (jobs_modify_local f update j)
  unfolding jobs_modify_local
  modify_local-IsReached f update j h q =
      if-IsReached (text_eq (field update (codes "status")) (codes "done"))
        (jobs_remove_local f (stops_periodic update) j) (enqueue j (modify_jobs f (clone update)))
        (remove_local-IsReached f (stops_periodic update) j h q)
        (enqueue-IsReached j (modify_jobs f (clone update)) h q)

  remove_foreign-IsReached :
      (f : Filter) (j : JobDb) → IsReached j → OnlyOf source f → IsReached (jobs_remove_foreign f j)
  unfolding jobs_remove_foreign
  remove_foreign-IsReached f j h q = enqueue-IsReached j (remove_foreign_jobs f) h q

  add_or_modify-IsReached :
      (f : Filter) (job : Hash) (j : JobDb)
      → IsReached j
      → OnlyOf source f
      → field job (codes "siserver") ≡ source
      → IsReached (jobs_add_or_modify_foreign f job j)
  unfolding jobs_add_or_modify_foreign
  add_or_modify-IsReached f job j h q s =
      if-IsReached (text_eq (field job (codes "status")) (codes "done")) (jobs_remove_foreign f j)
        (enqueue j (add_or_modify_foreign_job f (field job (codes "macaddress")) (clone job)))
        (remove_foreign-IsReached f j h q)
        (enqueue-IsReached j
          (add_or_modify_foreign_job f (field job (codes "macaddress")) (clone job)) h
          (q, field_clone_lem job (codes "siserver") ∙ s))

  module _ (is_go_susi : Text → Bool) where
    if-OnlyOf :
        (b : Bool) (f g : Filter)
        → OnlyOf server f
        → OnlyOf server g
        → OnlyOf server (if b then f else g)
    if-OnlyOf true f g p q = p
    if-OnlyOf false f g p q = q

    own_filter-OnlyOf : (job : Hash) → OnlyOf server (own_filter is_go_susi server source job)
    unfolding own_filter
    own_filter-OnlyOf job =
        let rest =
          codes "headertag"
          ∷ field job (codes "headertag")
          ∷ codes "macaddress"
          ∷ field job (codes "macaddress")
          ∷ [] in
        if-OnlyOf (is_go_susi source)
          (filter_simple (codes "id" ∷ field job (codes "id") ∷ codes "siserver" ∷ server ∷ []))
          (filter_simple (codes "siserver" ∷ server ∷ rest))
          (second-OnlyOf server (codes "id") (field job (codes "id"))) (simple-OnlyOf server rest)

    update_own-IsReached :
        (job : Hash) (u : Updates)
        → IsReached u.jobs
        → IsReached (update_own is_go_susi source job u).jobs
    unfolding update_own
    update_own-IsReached job u h =
        let update =
          if text_eq (field job (codes "status")) (codes "done")
          then set_field job (codes "periodic") (codes "none")
          else job in
        modify_local-IsReached (own_filter is_go_susi u.jobs.server source job) update u.jobs h (
          subst (λ s. OnlyOf server (own_filter is_go_susi s source job)) (sym h.same_server)
            (own_filter-OnlyOf job))

    cancel_own-IsReached :
        (job : Hash) (j : JobDb) → IsReached j → IsReached (cancel_own is_go_susi job j)
    unfolding cancel_own
    cancel_own-IsReached job j h =
        let mac = field job (codes "macaddress") in
        let here = processing_here j.server mac in
        let only : OnlyOf server here =
          subst (λ s. OnlyOf server (processing_here s mac)) (sym h.same_server)
            (processing-OnlyOf server mac) in
        if-IsReached
          (text_eq (field job (codes "status")) (codes "processing") && is_install_or_update job)
          (jobs_remove_local here true (jobs_modify_local here forward_update j)) j
          (remove_local-IsReached here true (jobs_modify_local here forward_update j)
            (modify_local-IsReached here forward_update j h only) only)
          h

    update_senders-IsReached :
        (job : Hash) (u : Updates)
        → IsReached u.jobs
        → field job (codes "siserver") ≡ source
        → IsReached (update_senders is_go_susi source job u).jobs
    unfolding update_senders
    update_senders-IsReached job u h s =
        let id = codes "original_id" ∷ field job (codes "id") ∷ [] in
        add_or_modify-IsReached (filter_simple (codes "siserver" ∷ source ∷ id)) job
          (cancel_own is_go_susi job u.jobs) (cancel_own-IsReached job u.jobs h)
          (simple-OnlyOf source id) s

    updates-if :
        (b : Bool) (u v : Updates)
        → (b ≡ true → IsReached u.jobs)
        → IsReached v.jobs
        → IsReached (if b then u else v).jobs
    updates-if true u v p q = p refl
    updates-if false u v p q = q

    update_job-IsReached :
        (job : Hash) (u : Updates)
        → IsReached u.jobs
        → IsReached (update_job is_go_susi source job u).jobs
    unfolding update_job
    update_job-IsReached job u h =
        let siserver = field job (codes "siserver") in
        let third = record u { syncs = add_sync siserver u.syncs } in
        updates-if (text_eq siserver u.jobs.server) (update_own is_go_susi source job u)
          (if text_eq siserver source then update_senders is_go_susi source job u else third)
          (λ _. update_own-IsReached job u h)
          (updates-if (text_eq siserver source) (update_senders is_go_susi source job u) third
            (λ e. update_senders-IsReached job u h ((text_eq_iff siserver source).0 e)) h)

    loop-if :
        (b : Bool) (u v : Updates × Bool)
        → IsReached u.0.jobs
        → IsReached v.0.jobs
        → IsReached (if b then u else v).0.jobs
    loop-if true u v p q = p
    loop-if false u v p q = q

    update_loop-IsReached :
        (xs : List Hash) (u : Updates)
        → IsReached u.jobs
        → IsReached (update_loop is_go_susi source xs u).0.jobs
    unfolding update_loop
    update_loop-IsReached [] u h = h
    update_loop-IsReached (x ∷ xs) u h =
        let job = foreign_job source x in
        let skipped = update_loop is_go_susi source xs u in
        let updated = update_loop is_go_susi source xs (update_job is_go_susi source job u) in
        loop-if (not (has_prefix (name x) (codes "answer"))) skipped
          (if not (is_address (field job (codes "siserver"))) then (u, false) else updated)
          (update_loop-IsReached xs u h)
          (loop-if (not (is_address (field job (codes "siserver")))) (u, false) updated h
            (update_loop-IsReached xs (update_job is_go_susi source job u)
              (update_job-IsReached job u h)))

    pair-if :
        (b : Bool) (u v : JobDb × List Text)
        → IsReached u.0
        → IsReached v.0
        → IsReached (if b then u else v).0
    pair-if true u v p q = p
    pair-if false u v p q = q

    finish-IsReached :
        (r : Updates × Bool) → IsReached r.0.jobs → IsReached (finish_updates is_go_susi r).0
    unfolding finish_updates
    finish-IsReached (u, completed) h = h

-- A message from a peer asks for changes and removals of jobs of that peer and of this server only, and for
-- the addition of jobs of that peer only, never of those of a third server: each request that it adds to the
-- queue has a filter that accepts no other jobs, and the job that it brings, if any, has the peer for its
-- server. It changes no request that waits.
pub foreign_job_updates-IsReached :
    (is_go_susi : Text → Bool) (xmlmsg : Hash) (j : JobDb)
    → IsReached j.server
        (field xmlmsg (codes "source"))
        j.requests
        (foreign_job_updates is_go_susi xmlmsg j).0
unfolding foreign_job_updates
foreign_job_updates-IsReached is_go_susi xmlmsg j =
    let source = field xmlmsg (codes "source") in
    let all_jobs = filter_simple (codes "siserver" ∷ source ∷ []) in
    let is_all = text_eq (field xmlmsg (codes "sync")) (codes "all") in
    let cleared = if is_all then jobs_remove_foreign all_jobs j else j in
    let u : Updates = record { jobs = cleared; syncs = [] } in
    let start : IsReached j.server source j.requests j = record {
      same_server = refl;
      added = [];
      requests = sym (append-nil j.requests);
      reach = tt;
    } in
    let looped = update_loop is_go_susi source (children (items xmlmsg)) u in
    pair-if j.server source j.requests is_go_susi (not (is_address source)) (j, [])
      (finish_updates is_go_susi looped) start
      (finish-IsReached j.server source j.requests is_go_susi looped (
        update_loop-IsReached j.server source j.requests is_go_susi (children (items xmlmsg)) u (
          if-IsReached j.server source j.requests is_all (jobs_remove_foreign all_jobs j) j
            (remove_foreign-IsReached j.server source j.requests all_jobs j start
              (simple-OnlyOf source []))
            start)))
