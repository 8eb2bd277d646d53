-- ===== src/Action.antt =====
-- go-susi/action/process_act.go: the consumer of PendingActions.
pub mod Periodic
pub mod Choice
pub mod Forward
pub mod Taken
pub mod Tests
use limux_gosa.Base.{
  ℕ, zero, suc, Bool, true, false, not, ◌&&◌, ◌||◌, Option, none, some, List, [], ◌∷◌, ◌++◌, ◌==◌,
  any, if◌then◌else◌,
}
use limux_gosa.Base.Text.{Text, codes, text_eq, starts_with}
use limux_gosa.Xml.Hash.{Hash, clone, field, get, new_hash, add, set_field}
use limux_gosa.Clients.{Clients, client_with_mac}
use limux_gosa.Jobs.{JobDb, same_id, jobs_modify_local, jobs_remove_local, job_add_local}

-- What a pending job has done to its machine.
pub data Act : Type 0 where
  send_user_msg : Act
  wake : Act
  lock : Act
  localboot : Act
  halt : Act
  reboot : Act
  faireboot : Act
  activate : Act
  update : Act
  reinstall : Act

-- A job on its way to another server: the address, the request, and the clone that is kept for the case
-- that it cannot be sent.
pub record Forwarding : Type 0 where
  pub siserver : Text
  pub request : Hash
  pub job_clone : Hash

-- What the actions change, or send to others.
pub record World : Type 0 where
  pub jobs : JobDb
  -- the messages to clients: the address and the header
  pub told : List (Text × Text)
  pub acts : List (Act × Hash)
  pub forwardings : List Forwarding
  -- the MAC addresses of the machines whose faiState is set to "localboot"
  pub local_boots : List Text

-- What the actions ask: the clients, `Peer(...).Downtime()` and `db.SystemGetState(..., "faiState")`.
pub record Known : Type 0 where
  pub clients : Clients
  pub downtime : Text → ℕ
  pub fai_state : Text → Text

abbrev pub is_one_of : Text → List Text → Bool
is_one_of s texts = any (text_eq s) texts

abbrev pub has_field : Hash → Text → Bool
has_field job n = elim (get job (n ∷ [])) [ [] ↦ false | _ ↦ true ]

-- The tests of `Forward` that only need the job.
unfoldable pub stays_here : Hash → Bool
stays_here job =
    text_eq (field job (codes "progress")) (codes "forward-failed")
    || is_one_of (field job (codes "headertag")) (
        codes "send_user_msg"
        ∷ codes "trigger_action_wake"
        ∷ codes "trigger_action_lock"
        ∷ codes "trigger_action_localboot"
        ∷ [])

-- The other tests, for what `ClientWithMAC` returns.
unfoldable pub target_of : Known → Option Hash → Option Text
target_of k none = none
target_of k (some client) =
    let siserver = field client (codes "source") in
    if text_eq siserver k.clients.server
    then none
    else if k.downtime siserver == 0
    then some siserver
    else none

-- The server to which `Forward` has to send a job, if it has to.
unfoldable pub forward_target : Known → Hash → Option Text
unfolding stays_here target_of client_with_mac
forward_target k job =
    if stays_here job
    then none
    else target_of k (client_with_mac (field job (codes "macaddress")) k.clients)

-- `if job.First(...) != nil { ... }`
abbrev pub add_present : Hash → Text → Hash → Hash
add_present job n h = if has_field job n then add h n (field job n ∷ []) else h

-- `gosa_trigger_action`, the request that is sent.
unfoldable pub forward_request : Hash → Hash
forward_request job =
    let headertag = field job (codes "headertag") in
    let macaddress = field job (codes "macaddress") in
    let header =
      if is_one_of headertag (codes "trigger_action_update" ∷ codes "trigger_action_reinstall" ∷ [])
      then codes "job_" ++ headertag
      else codes "gosa_" ++ headertag in
    let sent =
      add (new_hash (codes "xml") (codes "header" ∷ header ∷ [])) (codes "source")
        (codes "GOSA" ∷ []) in
    let aimed =
      add (add sent (codes "macaddress") (macaddress ∷ [])) (codes "target") (macaddress ∷ []) in
    add_present job (codes "periodic")
      (add_present job (codes "tminus") (add_present job (codes "timestamp") aimed))

-- `Forward`, up to the goroutine that sends the request.
unfoldable pub forward : Known → Hash → World → Bool × World
unfolding forward_target forward_request jobs_modify_local jobs_remove_local
forward k job w = elim (forward_target k job) [
  | none ↦ (false, w)
  | some siserver ↦ (
    true,
    record w {
      jobs = jobs_remove_local (same_id job) true (
          jobs_modify_local (same_id job)
            (new_hash (codes "job") (codes "progress" ∷ codes "forward" ∷ [])) w.jobs);
      forwardings =
          w.forwardings
          ++ record { siserver = siserver; request = forward_request job; job_clone = clone job }
            ∷ [];
    },
  )
]

-- The clone, as it is scheduled again.
unfoldable pub forward_failed : Hash → Hash
forward_failed job_clone =
    set_field
      (set_field (set_field job_clone (codes "result") (codes "none")) (codes "progress")
        (codes "forward-failed"))
      (codes "status") (codes "waiting")

-- The end of that goroutine, for whether it gets a connection.
unfoldable pub forwarded : Bool → Forwarding → World → World
unfolding forward_failed job_add_local
forwarded true f w = w
forwarded false f w = record w { jobs = (job_add_local (forward_failed f.job_clone) w.jobs).0 }

-- `headertag`, after the test for `<tminus>`.
abbrev pub headertag_of : Hash → Text
headertag_of job =
    if text_eq (field job (codes "status")) (codes "wakeup")
    then codes "deregistered"
    else field job (codes "headertag")

-- What is told to the client.
unfoldable pub announce : Known → Hash → World → World
unfolding client_with_mac
announce k job w =
    if is_one_of (headertag_of job)
      (codes "send_user_msg" ∷ codes "set_activated_for_installation" ∷ [])
    then w
    else elim (client_with_mac (field job (codes "macaddress")) k.clients) [
      | none ↦ w
      | some client ↦ record w {
        told = w.told ++ (field client (codes "client"), headertag_of job) ∷ [];
      }
    ]

-- `switch headertag`, with the function that is called, if any, and what becomes of `done`.
abbrev pub cases : List (Text × Option Act × Bool)
cases =
    (codes "send_user_msg", some send_user_msg, true)
    ∷ (codes "trigger_action_wake", some wake, true)
    ∷ (codes "deregistered", some wake, false)
    ∷ (codes "trigger_action_lock", some lock, true)
    ∷ (codes "trigger_action_localboot", some localboot, true)
    ∷ (codes "trigger_action_halt", some halt, true)
    ∷ (codes "trigger_action_reboot", some reboot, true)
    ∷ (codes "trigger_action_faireboot", some faireboot, true)
    ∷ (codes "set_activated_for_installation", some activate, true)
    ∷ (codes "trigger_action_activate", some activate, true)
    ∷ (codes "trigger_action_update", some update, false)
    ∷ (codes "trigger_action_reinstall", some reinstall, false)
    ∷ (codes "trigger_action_audit", none, true)
    ∷ []

unfoldable pub choose : List (Text × Option Act × Bool) → Text → Option Act × Bool
choose [] headertag = (none, true)
choose ((label, act, done) ∷ more) headertag =
    let rest = choose more headertag in if text_eq headertag label then (act, done) else rest

-- The action that the switch has chosen, if any; an audit needs none, and an unknown header is logged.
unfoldable pub act_on : Option Act → Hash → List (Act × Hash)
act_on none job = []
act_on (some act) job = (act, job) ∷ []

-- That action, and what follows if `done` is true.
unfoldable pub perform_act : Option Act × Bool → Hash → World → World
unfolding act_on jobs_remove_local
perform_act (act, false) job w = record w { acts = w.acts ++ act_on act job }
perform_act (act, true) job w = record w {
  acts = w.acts ++ act_on act job;
  jobs = jobs_remove_local (same_id job) false w.jobs;
}

-- What the server does with a job that it does not forward.
unfoldable pub perform : Known → Hash → World → World
unfolding announce choose perform_act
perform k job w = perform_act (choose cases (headertag_of job)) job (announce k job w)

-- `if !Forward(job) { ... }`
unfoldable pub unless_forwarded : Known → Hash → Bool × World → World
unfolding perform
unless_forwarded k job (true, w) = w
unless_forwarded k job (false, w) = perform k job w

-- The goroutine for a job that is not done.
unfoldable pub take_action : Known → Hash → World → World
unfolding forward unless_forwarded
take_action k job w = unless_forwarded k job (forward k job w)

-- `switch job.Text("headertag")` for a job that is done.
unfoldable pub finish : Known → Hash → World → World
finish k job w =
    let macaddress = field job (codes "macaddress") in
    let state = k.fai_state macaddress in
    let progress = field job (codes "progress") in
    if is_one_of (field job (codes "headertag"))
        (codes "trigger_action_update" ∷ codes "trigger_action_reinstall" ∷ [])
      && (text_eq state []
          || starts_with (codes "softupdat") state
          || starts_with (codes "install") state)
      && not (is_one_of progress (codes "forward" ∷ codes "groom" ∷ []))
    then record w { local_boots = w.local_boots ++ macaddress ∷ [] }
    else w
