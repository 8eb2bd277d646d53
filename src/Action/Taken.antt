-- ===== src/Action/Taken.antt =====
-- What becomes of a job from PendingActions, by go-susi/action/process_act.go.
use limux_gosa.Base.{true, false, none, some, List, [], ◌∷◌, ◌++◌, ◌==◌, if◌then◌else◌, ◌≡◌, ◌⊎◌}
use limux_gosa.Base.Text.{Text, codes, text_eq}
use limux_gosa.Xml.Hash.{Hash, clone, field, new_hash}
use limux_gosa.Xml.Filter.{Filter}
use limux_gosa.Clients.{client_with_mac}
use limux_gosa.Jobs.{remove_jobs, modify_jobs, same_id}
use limux_gosa.Action.{World, Known, Act, is_one_of, forward_request}
use limux_gosa.Action.Choice.{headers_of, kept_headers}

-- The request to the database that marks a job as one that is forwarded.
abbrev pub forward_update : Hash
forward_update = clone (new_hash (codes "job") (codes "progress" ∷ codes "forward" ∷ []))

-- The headers of the jobs that are done here, wherever the client is registered.
abbrev pub local_headers : List Text
local_headers =
    codes "send_user_msg"
    ∷ codes "trigger_action_wake"
    ∷ codes "trigger_action_lock"
    ∷ codes "trigger_action_localboot"
    ∷ []

-- A job that goes to the server where its client is registered: it is marked and removed, and the machine
-- is left alone.
abbrev pub IsForwarded : Known → Hash → World → World → Type 0
IsForwarded k job w w' =
    (client : Hash) × (client_with_mac (field job (codes "macaddress")) k.clients ≡ some client)
    × (text_eq (field job (codes "progress")) (codes "forward-failed") ≡ false)
    × (is_one_of (field job (codes "headertag")) local_headers ≡ false)
    × (text_eq (field client (codes "source")) k.clients.server ≡ false)
    × ((k.downtime (field client (codes "source")) == 0) ≡ true)
    × (w'.forwardings
        ≡ w.forwardings
          ++ record {
            siserver = field client (codes "source");
            request = forward_request job;
            job_clone = clone job;
          }
            ∷ [])
    × (w'.jobs.requests
        ≡ w.jobs.requests
          ++ modify_jobs (same_id job) forward_update ∷ []
          ++ remove_jobs (same_id job) true ∷ [])
    × (w'.acts ≡ w.acts)
    × (w'.told ≡ w.told)

-- Why a job is not forwarded.
abbrev pub Stays : Known → Hash → Type 0
Stays k job =
    (text_eq (field job (codes "progress")) (codes "forward-failed") ≡ true)
    ⊎ (is_one_of (field job (codes "headertag")) local_headers ≡ true)
    ⊎ (client_with_mac (field job (codes "macaddress")) k.clients ≡ none)
    ⊎ ((client : Hash) × (client_with_mac (field job (codes "macaddress")) k.clients ≡ some client)
        × ((text_eq (field client (codes "source")) k.clients.server ≡ true)
            ⊎ ((k.downtime (field client (codes "source")) == 0) ≡ false)))

-- The header that counts: that of a job that only wakes its client up is "deregistered".
abbrev pub IsHeader : Hash → Text → Type 0
IsHeader job h =
    ((text_eq (field job (codes "status")) (codes "wakeup") ≡ true) × (h ≡ codes "deregistered"))
    ⊎ ((text_eq (field job (codes "status")) (codes "wakeup") ≡ false)
        × (h ≡ field job (codes "headertag")))

-- What is done for a header: the action that it asks for, or nothing where it asks for none.
abbrev pub ActsFor : Text → Hash → World → World → Type 0
ActsFor h job w w' =
    ((act : Act) × (is_one_of h (headers_of act) ≡ true) × (w'.acts ≡ w.acts ++ (act, job) ∷ []))
    ⊎ (((act : Act) → is_one_of h (headers_of act) ≡ false) × (w'.acts ≡ w.acts))

-- A job that is done here: by the action for its header, and it is removed if there is nothing to wait for.
abbrev pub IsPerformed : Known → Hash → World → World → Type 0
IsPerformed k job w w' =
    (h : Text) × IsHeader job h
    × Stays k job
    × ActsFor h job w w'
    × (w'.forwardings ≡ w.forwardings)
    × (w'.jobs.requests
        ≡ w.jobs.requests
          ++ (if is_one_of h kept_headers then [] else remove_jobs (same_id job) false ∷ []))
