-- ===== src/Message/Dispatch/Access.antt =====
-- Which handlers of go-susi/message/process_msg.go the access bits of a certificate open.
use limux_gosa.Base.{
  Bool, true, false, ◌&&◌, ◌||◌, Option, none, some, List, [], ◌∷◌, ◌++◌, any, All, ◌≡◌, refl,
  arith, inl, inr, ◌⊎◌, subst, eq_of_some, if◌then◌else◌,
}
use limux_gosa.Base.Text.{Text, codes, text_eq}
use limux_gosa.Xml.Hash.{Hash, field}
use limux_gosa.Security.Context.{Config, GosaAccessControl, GosaAccessJobs, Context}
use limux_gosa.Message.Dispatch.{
  Handler, new_ldap_config, new_foo_config, registered, deregistered, usr_msg,
  set_activated_for_installation, detect_hardware, sistats, panic, trigger_action_foo, gosa_ping,
  gosa_query_jobdb, gosa_query_fai_server, gosa_query_fai_release, gosa_query_packages_list,
  gosa_query_audit, gosa_query_audit_aggregate, gosa_show_log_by_mac,
  gosa_show_log_files_by_date_and_mac, gosa_get_log_file_by_date_and_mac, gosa_get_available_kernel,
  new_server, confirm_new_server, foreign_job_updates, log_fai, gosa_set_activated_for_installation,
  gosa_trigger_action, job_trigger_action, job_trigger_activate_new, job_send_user_msg,
  trigger_wake, gosa_delete_jobdb_entry, gosa_update_status_jobdb_entry, Case, trigger_cases,
  last_cases, switch, client_cases, server_cases, is_log, handle_server_message, Routed, rejected,
  ignored, call, route, is_unprotected, route_message, route_client, route_server, route_second,
  route_first,
}

-- Whether the job that a header names may be started: each kind of job has its own bit.
abbrev pub may_start : GosaAccessJobs → Text → Text → Bool
may_start j prefix header =
    j.jobs_all
    || (text_eq header (prefix ++ codes "lock") && j.lock)
    || ((text_eq header (prefix ++ codes "halt") || text_eq header (prefix ++ codes "reboot"))
        && j.shutdown)
    || ((text_eq header (prefix ++ codes "localboot")
          || text_eq header (prefix ++ codes "faireboot"))
        && j.abort)
    || (text_eq header (prefix ++ codes "activate") && j.unlock)
    || (text_eq header (prefix ++ codes "update") && j.update)
    || (text_eq header (prefix ++ codes "reinstall") && j.install)
    || (text_eq header (prefix ++ codes "wake") && j.wake)
    || (text_eq header (prefix ++ codes "audit") && j.audit)

-- The right that a handler wants, by what it does for the header.
unfoldable pub granted : GosaAccessControl → Text → Handler → Bool
granted a header sistats = a.query.query_all
granted a header panic = a.misc.debug
granted a header gosa_ping = a.query.query_all
granted a header gosa_query_jobdb = a.query.query_all || a.query.query_jobs
granted a header gosa_query_fai_server = a.query.query_all
granted a header gosa_query_fai_release = a.query.query_all
granted a header gosa_query_packages_list = a.query.query_all
granted a header gosa_query_audit = a.query.query_all
granted a header gosa_query_audit_aggregate = a.query.query_all
granted a header gosa_show_log_by_mac = a.query.query_all
granted a header gosa_show_log_files_by_date_and_mac = a.query.query_all
granted a header gosa_get_log_file_by_date_and_mac = a.query.query_all
granted a header gosa_get_available_kernel = a.query.query_all
granted a header new_server = a.misc.peer
granted a header confirm_new_server = a.misc.peer
granted a header foreign_job_updates = a.misc.peer
granted a header gosa_set_activated_for_installation = a.jobs.jobs_all || a.jobs.unlock
granted a header gosa_trigger_action = may_start a.jobs (codes "gosa_trigger_action_") header
granted a header job_trigger_action = may_start a.jobs (codes "job_trigger_action_") header
granted a header job_trigger_activate_new = a.jobs.jobs_all || a.jobs.new_sys
granted a header job_send_user_msg = a.jobs.jobs_all || a.jobs.user_msg
granted a header trigger_wake = a.misc.wake
granted a header gosa_delete_jobdb_entry = a.jobs.modify_jobs
granted a header gosa_update_status_jobdb_entry = a.jobs.modify_jobs
granted a header _ = true

-- The handlers of a client, which need no server.
unfoldable pub is_for_client : Handler → Bool
is_for_client new_ldap_config = true
is_for_client new_foo_config = true
is_for_client registered = true
is_for_client deregistered = true
is_for_client usr_msg = true
is_for_client set_activated_for_installation = true
is_for_client detect_hardware = true
is_for_client sistats = true
is_for_client panic = true
is_for_client trigger_action_foo = true
is_for_client log_fai = true
is_for_client _ = false

switch-All_found :
    (P Q : Case → Type 0) (d : Case) (found : Bool) (rest : Option Case) (c : Case)
    → P d
    → (found ≡ true → Q d)
    → (rest ≡ some c → P c × Q c)
    → (if found then some d else rest) ≡ some c
    → P c × Q c
switch-All_found P Q d true rest c p q ps e =
    (subst P (eq_of_some e) p, subst Q (eq_of_some e) (q refl))
switch-All_found P Q d false rest c p q ps e = ps e

switch-All :
    (P : Case → Type 0) (cs : List Case) (s : Text) (c : Case)
    → All P cs
    → switch cs s ≡ some c
    → P c × (any (text_eq s) c.labels ≡ true)
unfolding switch
switch-All P [] s c p e = cc
switch-All P (d ∷ cs) s c (p, ps) e =
    switch-All_found P (λ x. any (text_eq s) x.labels ≡ true) d (any (text_eq s) d.labels)
      (switch cs s) c p (λ m. m) (switch-All P cs s c ps) e

abbrev GuardsServer : Case → Type 0
GuardsServer c =
    (a : GosaAccessControl) (header : Text)
    → any (text_eq header) c.labels ≡ true
    → c.bit a ≡ true
    → granted a header c.handler ≡ true

abbrev GuardsClient : Case → Type 0
GuardsClient c = (is_for_client c.handler ≡ true) × GuardsServer c

infixr 3 ◌&◌
abbrev ◌&◌ : {A B : Type 0} → A → B → A × B
p & q = (p, q)

All-append_lem : (P : Case → Type 0) (xs ys : List Case) → All P xs → All P ys → All P (xs ++ ys)
All-append_lem P [] ys p q = q
All-append_lem P (x ∷ xs) ys (p, ps) q = (p, All-append_lem P xs ys ps q)

client_cases-Guards : All GuardsClient client_cases
unfolding granted is_for_client
client_cases-Guards =
    (refl, λ a s m e. e)
    & (refl, λ a s m e. e)
    & (refl, λ a s m e. e)
    & (refl, λ a s m e. e)
    & (refl, λ a s m e. e)
    & (refl, λ a s m e. e)
    & (refl, λ a s m e. e)
    & (refl, λ a s m e. e)
    & (refl, λ a s m e. e)
    & (refl, λ a s m e. e)
    & tt

trigger_cases-Guards :
    (prefix : Text) (h : Handler)
    → ((a : GosaAccessControl) (header : Text)
        → may_start a.jobs prefix header ≡ true
        → granted a header h ≡ true)
    → All GuardsServer (trigger_cases prefix h)
trigger_cases-Guards prefix h g =
    (λ a s m e. g a s (ground (arith, m, e)))
    & (λ a s m e. g a s (ground (arith, m, e)))
    & (λ a s m e. g a s (ground (arith, m, e)))
    & (λ a s m e. g a s (ground (arith, m, e)))
    & (λ a s m e. g a s (ground (arith, m, e)))
    & (λ a s m e. g a s (ground (arith, m, e)))
    & (λ a s m e. g a s (ground (arith, m, e)))
    & (λ a s m e. g a s (ground (arith, m, e)))
    & tt

last_cases-Guards : All GuardsServer last_cases
unfolding granted
last_cases-Guards =
    (λ a s m e. ground arith)
    & (λ a s m e. ground arith)
    & (λ a s m e. e)
    & (λ a s m e. e)
    & (λ a s m e. e)
    & tt

triggers-Guards : All GuardsServer (
    trigger_cases (codes "gosa_trigger_action_") gosa_trigger_action
    ++ (trigger_cases (codes "job_trigger_action_") job_trigger_action ++ last_cases))
triggers-Guards =
    All-append_lem GuardsServer (trigger_cases (codes "gosa_trigger_action_") gosa_trigger_action)
      (trigger_cases (codes "job_trigger_action_") job_trigger_action ++ last_cases)
      (unfold granted in
        trigger_cases-Guards (codes "gosa_trigger_action_") gosa_trigger_action (λ a s e. e))
      (All-append_lem GuardsServer (trigger_cases (codes "job_trigger_action_") job_trigger_action)
        last_cases
        (unfold granted in
          trigger_cases-Guards (codes "job_trigger_action_") job_trigger_action (λ a s e. e))
        last_cases-Guards)

server_cases-Guards : All GuardsServer server_cases
unfolding granted
server_cases-Guards =
    (λ a s m e. e)
    & (λ a s m e. ground arith)
    & (λ a s m e. e)
    & (λ a s m e. e)
    & (λ a s m e. e)
    & (λ a s m e. e)
    & (λ a s m e. e)
    & (λ a s m e. e)
    & (λ a s m e. e)
    & (λ a s m e. e)
    & (λ a s m e. e)
    & (λ a s m e. e)
    & (λ a s m e. e)
    & (λ a s m e. e)
    & (λ a s m e. e)
    & (λ a s m e. e)
    & (λ a s m e. e)
    & (λ a s m e. e)
    & (λ a s m e. e)
    & (λ a s m e. e)
    & (λ a s m e. e)
    & (λ a s m e. e)
    & (λ a s m e. e)
    & (λ a s m e. e)
    & (λ a s m e. e)
    & (λ a s m e. e)
    & (λ a s m e. ground arith)
    & triggers-Guards

-- What a handler that is called has been granted; all but those of a client want a server.
abbrev pub IsPermitted : Config → GosaAccessControl → Text → Handler → Type 0
IsPermitted config a header h =
    (granted a header h ≡ true) × ((is_for_client h || config.run_server) ≡ true)

call_if :
    (b : Bool) (g h : Handler) → (if b then call g else ignored) ≡ call h → (b ≡ true) × (g ≡ h)
call_if true g h e = (refl, ground arith)
call_if false g h e = cc

or_left : (b c : Bool) → b ≡ true → (b || c) ≡ true
or_left b c e = ground arith

is_log_lem :
    (a : GosaAccessControl) (header : Text) (h : Handler)
    → is_log h ≡ true
    → (granted a header h ≡ true) × (is_for_client h ≡ true)
unfolding granted is_for_client
is_log_lem a header log_fai e = (refl, refl)
is_log_lem a header _ e = cc

handled_lem :
    (config : Config) (bit : Bool)
    → handle_server_message config bit ≡ true
    → (bit ≡ true) × (config.run_server ≡ true)
unfolding handle_server_message
handled_lem config bit e = ground arith

or_split : (b c : Bool) → (b || c) ≡ true → (b ≡ true) ⊎ (c ≡ true)
or_split true c e = inl refl
or_split false c e = inr e

or_right : (b c : Bool) → c ≡ true → (b || c) ≡ true
or_right b c e = ground arith

module _ (config : Config) (a : GosaAccessControl) (header : Text) where
  route_client-IsPermitted :
      (c : Case) (h : Handler)
      → GuardsClient c
      → any (text_eq header) c.labels ≡ true
      → route_client a c ≡ call h
      → IsPermitted config a header h
  unfolding route_client
  route_client-IsPermitted c h (p, q) m e =
      let (t, g) = call_if (c.bit a) c.handler h e in
      subst (IsPermitted config a header) g
        (q a header m t, or_left (is_for_client c.handler) config.run_server p)

  checked-IsPermitted :
      (c : Case)
      → GuardsServer c
      → any (text_eq header) c.labels ≡ true
      → (is_log c.handler ≡ true) ⊎ (handle_server_message config (c.bit a) ≡ true)
      → IsPermitted config a header c.handler
  checked-IsPermitted c q m (inl t) =
      let (g, k) = is_log_lem a header c.handler t in
      (g, or_left (is_for_client c.handler) config.run_server k)
  checked-IsPermitted c q m (inr t) =
      let (b, r) = handled_lem config (c.bit a) t in
      (q a header m b, or_right (is_for_client c.handler) config.run_server r)

  route_server-IsPermitted :
      (c : Case) (h : Handler)
      → GuardsServer c
      → any (text_eq header) c.labels ≡ true
      → route_server config a c ≡ call h
      → IsPermitted config a header h
  unfolding route_server
  route_server-IsPermitted c h q m e =
      let checks = handle_server_message config (c.bit a) in
      let (t, g) = call_if (is_log c.handler || checks) c.handler h e in
      subst (IsPermitted config a header) g
        (checked-IsPermitted c q m (or_split (is_log c.handler) checks t))

  route_second-IsPermitted :
      (found : Option Case) (h : Handler)
      → switch server_cases header ≡ found
      → route_second config a found ≡ call h
      → IsPermitted config a header h
  unfolding route_second
  route_second-IsPermitted none h s e = cc
  route_second-IsPermitted (some c) h s e =
      let (g, m) = switch-All GuardsServer server_cases header c server_cases-Guards s in
      route_server-IsPermitted c h g m e

  route_first-IsPermitted :
      (found : Option Case) (h : Handler)
      → switch client_cases header ≡ found
      → route_first config a header found ≡ call h
      → IsPermitted config a header h
  unfolding route_first
  route_first-IsPermitted none h s e =
      route_second-IsPermitted (switch server_cases header) h refl e
  route_first-IsPermitted (some c) h s e =
      let (g, m) = switch-All GuardsClient client_cases header c client_cases-Guards s in
      route_client-IsPermitted c h g m e

not_call :
    (b : Bool) (r : Routed) (h : Handler)
    → (if b then rejected else r) ≡ call h
    → (b ≡ false) × (r ≡ call h)
not_call true r h e = cc
not_call false r h e = (refl, e)

-- A handler is called only if the access bits of the peer grant what it does for the header of the message,
-- where each kind of job that can be started has its own bit; if a server is run where the handler is one of
-- a server; and not for a message that came without TLS under the public key, unless it is a ping.
pub route_message-IsPermitted :
    (config : Config) (c : Context) (key : Text) (xml : Hash) (h : Handler)
    → route_message config c key xml ≡ call h
    → IsPermitted config c.access (field xml (codes "header")) h
      × (is_unprotected c key (field xml (codes "header")) ≡ false)
unfolding route_message route
route_message-IsPermitted config c key xml h e =
    let header = field xml (codes "header") in
    let (u, r) = not_call (is_unprotected c key header) (route config c header) h e in
    (route_first-IsPermitted config c.access header (switch client_cases header) h refl r, u)
