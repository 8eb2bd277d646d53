-- ===== src/Message/Dispatch.antt =====
-- `ProcessXMLMessage` of go-susi/message/process_msg.go: which handler a message reaches.
pub mod Access
pub mod Triggers
use limux_gosa.Base.{
  Bool, true, false, not, ◌&&◌, ◌||◌, Option, none, some, List, [], ◌∷◌, ◌++◌, any, if◌then◌else◌,
}
use limux_gosa.Base.Text.{Text, codes, text_eq}
use limux_gosa.Xml.Hash.{Hash, field}
use limux_gosa.Security.Context.{Config, GosaAccessControl, Context}

-- The calls of the two switches; `log_fai` is the message that is only logged.
pub data Handler : Type 0 where
  new_ldap_config new_foo_config registered deregistered usr_msg : Handler
  set_activated_for_installation detect_hardware sistats panic trigger_action_foo : Handler
  gosa_ping gosa_query_jobdb gosa_query_fai_server gosa_query_fai_release : Handler
  gosa_query_packages_list gosa_query_audit gosa_query_audit_aggregate : Handler
  gosa_show_log_by_mac gosa_show_log_files_by_date_and_mac : Handler
  gosa_get_log_file_by_date_and_mac gosa_get_available_kernel : Handler
  new_server confirm_new_server foreign_job_updates : Handler
  new_foreign_client information_sharing here_i_am new_key detected_hardware : Handler
  clmsg_currently_logged_in clmsg_login clmsg_logout clmsg_progress clmsg_taskdie : Handler
  clmsg_gotoactivation log_fai gosa_set_activated_for_installation : Handler
  gosa_trigger_action job_trigger_action job_trigger_activate_new job_send_user_msg : Handler
  trigger_wake gosa_delete_jobdb_entry gosa_update_status_jobdb_entry : Handler

-- A case of a switch: its labels, the condition on the access bits, and the handler.
pub record Case : Type 0 where
  pub labels : List Text
  pub bit : GosaAccessControl → Bool
  pub handler : Handler

-- A Go switch on strings: the first case with the value among its labels.
unfoldable pub switch : List Case → Text → Option Case
switch [] s = none
switch (c ∷ cs) s = let rest = switch cs s in if any (text_eq s) c.labels then some c else rest

abbrev case_of : List Text → (GosaAccessControl → Bool) → Handler → Case
case_of labels bit handler = record { labels = labels; bit = bit; handler = handler }

abbrev free : GosaAccessControl → Bool
free a = true

-- The first switch, on messages to clients.
abbrev pub client_cases : List Case
client_cases =
    case_of (codes "new_ldap_config" ∷ []) free new_ldap_config
    ∷ case_of (codes "new_ntp_config" ∷ []) free new_foo_config
    ∷ case_of (codes "registered" ∷ []) free registered
    ∷ case_of (codes "deregistered" ∷ []) free deregistered
    ∷ case_of (codes "usr_msg" ∷ []) free usr_msg
    ∷ case_of (codes "set_activated_for_installation" ∷ []) free set_activated_for_installation
    ∷ case_of (codes "detect_hardware" ∷ []) free detect_hardware
    ∷ case_of (codes "sistats" ∷ []) (λ a. a.query.query_all) sistats
    ∷ case_of (codes "panic" ∷ []) (λ a. a.misc.debug) panic
    ∷ case_of
        (codes "trigger_action_halt"
          ∷ codes "trigger_action_localboot"
          ∷ codes "trigger_action_reboot"
          ∷ codes "trigger_action_faireboot"
          ∷ codes "trigger_action_update"
          ∷ codes "trigger_action_reinstall"
          ∷ codes "trigger_action_audit"
          ∷ codes "trigger_action_instant_update"
          ∷ [])
        free trigger_action_foo
    ∷ []

-- A case for one label, with a bit of `Jobs` or `JobsAll`.
abbrev query_case : Text → Handler → Case
query_case label handler = case_of (label ∷ []) (λ a. a.query.query_all) handler

abbrev peer_case : Text → Handler → Case
peer_case label handler = case_of (label ∷ []) (λ a. a.misc.peer) handler

abbrev free_case : Text → Handler → Case
free_case label handler = case_of (label ∷ []) free handler

-- The cases of the triggers, for the prefix and the handler of one kind of message.
abbrev pub trigger_cases : Text → Handler → List Case
trigger_cases prefix handler =
    case_of ((prefix ++ codes "lock") ∷ []) (λ a. a.jobs.lock || a.jobs.jobs_all) handler
    ∷ case_of ((prefix ++ codes "reboot") ∷ (prefix ++ codes "halt") ∷ [])
        (λ a. a.jobs.shutdown || a.jobs.jobs_all) handler
    ∷ case_of ((prefix ++ codes "localboot") ∷ (prefix ++ codes "faireboot") ∷ [])
        (λ a. a.jobs.abort || a.jobs.jobs_all) handler
    ∷ case_of ((prefix ++ codes "activate") ∷ []) (λ a. a.jobs.unlock || a.jobs.jobs_all) handler
    ∷ case_of ((prefix ++ codes "update") ∷ []) (λ a. a.jobs.update || a.jobs.jobs_all) handler
    ∷ case_of ((prefix ++ codes "reinstall") ∷ []) (λ a. a.jobs.install || a.jobs.jobs_all) handler
    ∷ case_of ((prefix ++ codes "wake") ∷ []) (λ a. a.jobs.wake || a.jobs.jobs_all) handler
    ∷ case_of ((prefix ++ codes "audit") ∷ []) (λ a. a.jobs.audit || a.jobs.jobs_all) handler
    ∷ []

-- The last cases of the second switch.
abbrev pub last_cases : List Case
last_cases =
    case_of (codes "gosa_trigger_activate_new" ∷ codes "job_trigger_activate_new" ∷ [])
      (λ a. a.jobs.new_sys || a.jobs.jobs_all) job_trigger_activate_new
    ∷ case_of (codes "gosa_send_user_msg" ∷ codes "job_send_user_msg" ∷ [])
        (λ a. a.jobs.user_msg || a.jobs.jobs_all) job_send_user_msg
    ∷ case_of (codes "trigger_wake" ∷ []) (λ a. a.misc.wake) trigger_wake
    ∷ case_of (codes "gosa_delete_jobdb_entry" ∷ []) (λ a. a.jobs.modify_jobs)
        gosa_delete_jobdb_entry
    ∷ case_of (codes "gosa_update_status_jobdb_entry" ∷ []) (λ a. a.jobs.modify_jobs)
        gosa_update_status_jobdb_entry
    ∷ []

-- The second switch, on messages to servers.
abbrev pub server_cases : List Case
server_cases =
    (query_case (codes "gosa_ping") gosa_ping
      ∷ case_of (codes "gosa_query_jobdb" ∷ []) (λ a. a.query.query_jobs || a.query.query_all)
          gosa_query_jobdb
      ∷ query_case (codes "gosa_query_fai_server") gosa_query_fai_server
      ∷ query_case (codes "gosa_query_fai_release") gosa_query_fai_release
      ∷ query_case (codes "gosa_query_packages_list") gosa_query_packages_list
      ∷ query_case (codes "gosa_query_audit") gosa_query_audit
      ∷ query_case (codes "gosa_query_audit_aggregate") gosa_query_audit_aggregate
      ∷ query_case (codes "gosa_show_log_by_mac") gosa_show_log_by_mac
      ∷ query_case (codes "gosa_show_log_files_by_date_and_mac") gosa_show_log_files_by_date_and_mac
      ∷ query_case (codes "gosa_get_log_file_by_date_and_mac") gosa_get_log_file_by_date_and_mac
      ∷ query_case (codes "gosa_get_available_kernel") gosa_get_available_kernel
      ∷ peer_case (codes "new_server") new_server
      ∷ peer_case (codes "confirm_new_server") confirm_new_server
      ∷ peer_case (codes "foreign_job_updates") foreign_job_updates
      ∷ free_case (codes "new_foreign_client") new_foreign_client
      ∷ free_case (codes "information_sharing") information_sharing
      ∷ free_case (codes "here_i_am") here_i_am
      ∷ free_case (codes "new_key") new_key
      ∷ free_case (codes "detected_hardware") detected_hardware
      ∷ free_case (codes "CLMSG_CURRENTLY_LOGGED_IN") clmsg_currently_logged_in
      ∷ free_case (codes "CLMSG_LOGIN") clmsg_login
      ∷ free_case (codes "CLMSG_LOGOUT") clmsg_logout
      ∷ free_case (codes "CLMSG_PROGRESS") clmsg_progress
      ∷ free_case (codes "CLMSG_TASKDIE") clmsg_taskdie
      ∷ free_case (codes "CLMSG_GOTOACTIVATION") clmsg_gotoactivation
      ∷ case_of
          (codes "CLMSG_HOOK"
            ∷ codes "CLMSG_TASKBEGIN"
            ∷ codes "CLMSG_check"
            ∷ codes "CLMSG_TASKEND"
            ∷ [])
          free log_fai
      ∷ case_of
          (codes "job_set_activated_for_installation"
            ∷ codes "gosa_set_activated_for_installation"
            ∷ [])
          (λ a. a.jobs.unlock || a.jobs.jobs_all) gosa_set_activated_for_installation
      ∷ [])
    ++ (trigger_cases (codes "gosa_trigger_action_") gosa_trigger_action
        ++ (trigger_cases (codes "job_trigger_action_") job_trigger_action ++ last_cases))

-- The cases of the second switch that do not ask `handleServerMessage`.
abbrev is_log : Handler → Bool
is_log log_fai = true
is_log _ = false

-- `handleServerMessage`
unfoldable pub handle_server_message : Config → Bool → Bool
handle_server_message config bit = if not config.run_server then false else bit

-- What comes of a message before the reply is encrypted: a handler called, a message that is turned
-- away, or an unknown one.
pub data Routed : Type 0 where
  rejected unknown ignored : Routed
  call : Handler → Routed

unfoldable pub route_client : GosaAccessControl → Case → Routed
route_client a c = if c.bit a then call c.handler else ignored

unfoldable pub route_server : Config → GosaAccessControl → Case → Routed
route_server config a c =
    if is_log c.handler || handle_server_message config (c.bit a) then call c.handler else ignored

unfoldable pub route_second : Config → GosaAccessControl → Option Case → Routed
route_second config a none = unknown
route_second config a (some c) = route_server config a c

unfoldable pub route_first : Config → GosaAccessControl → Text → Option Case → Routed
route_first config a header none = route_second config a (switch server_cases header)
route_first config a header (some c) = route_client a c

-- The two switches.
unfoldable pub route : Config → Context → Text → Routed
unfolding route_first route_second route_client route_server
route config context header = route_first config context.access header (switch client_cases header)

-- The first test of `ProcessXMLMessage`.
unfoldable pub is_unprotected : Context → Text → Text → Bool
is_unprotected context key header =
    not context.tls && text_eq key (codes "dummy-key") && not (text_eq header (codes "gosa_ping"))

-- `ProcessXMLMessage` up to the reply.
unfoldable pub route_message : Config → Context → Text → Hash → Routed
unfolding is_unprotected
route_message config context key xml =
    let header = field xml (codes "header") in
    if is_unprotected context key header then rejected else route config context header
