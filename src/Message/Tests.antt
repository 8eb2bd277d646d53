-- ===== src/Message/Tests.antt =====
-- Messages that reach a handler of go-susi/message/process_msg.go, and the theorems on them.
use limux_gosa.Base.{length, true, false, some, [], ◌∷◌, ◌≡◌, refl, ◌++◌, Option, none}
use limux_gosa.Base.Text.{Text, codes, text_eq}
use limux_gosa.Xml.Hash.{Hash, new_hash, field}
use limux_gosa.Xml.Hash
use limux_gosa.Security.Context.{
  Config, Ip, Context, GosaAccessJobs, any_ip, default_limits, set_legacy_defaults,
  set_tls_defaults,
}
use limux_gosa.Security.Context.Verify.{verify, port_of}
use limux_gosa.Security.Context.Verified.{ipv4, verify_defaults}
use limux_gosa.Jobs.{jobs_add_or_modify_foreign}
use limux_gosa.Jobs.Tests.{two_jobs}
use limux_gosa.Message.Address.{is_address}
use limux_gosa.Security.Context.Verify.{has_prefix}
use limux_gosa.Message.ForeignUpdates.{foreign_job_updates}
use limux_gosa.Message.ForeignUpdates.Reach.{IsReached, foreign_job_updates-IsReached}
use limux_gosa.Message.Dispatch.{
  route, route_message, is_unprotected, switch, handle_server_message, gosa_trigger_action,
  job_trigger_action, gosa_query_jobdb,
}
use limux_gosa.Message.Dispatch.Access.{IsPermitted, route_message-IsPermitted}
use limux_gosa.Message.Dispatch.Triggers.{label, triggered, to_halt, route_trigger}

abbrev pub config : Config
config = record {
  run_server = true;
  ip = codes "10.0.0.1";
  hostname = codes "susi";
  domain = codes "example.com";
  server_source_address = codes "10.0.0.1:20081";
  ldap_uri = codes "ldap://localhost";
  incoming_ou = codes "ou=incoming";
}

abbrev pub no_jobs : GosaAccessJobs
no_jobs = record {
  jobs_all = false;
  lock = false;
  unlock = false;
  shutdown = false;
  wake = false;
  abort = false;
  install = false;
  update = false;
  modify_jobs = false;
  new_sys = false;
  user_msg = false;
  audit = false;
}

-- A peer without a certificate.
abbrev pub legacy : Context
legacy = record {
  tls = false;
  peer_id = record { ip = ipv4 true 10 0 0 7; allowed_ips = any_ip ∷ []; allowed_names = [] };
  limits = default_limits config;
  access = record {
    misc = record { debug = true; wake = true; peer = true };
    query = record { query_all = true; query_jobs = true };
    jobs = no_jobs;
    incoming = [];
    ldap_update = record { cn = true; ip = true; mac = true; dh = true };
    detected_hw = record {
      unprompted = true;
      template = true;
      dn = true;
      cn = true;
      ip_host_number = true;
      mac_address = true;
    };
  };
}

abbrev query : Hash
query = Hash.add (new_hash (codes "xml") []) (codes "header") (codes "gosa_query_jobdb" ∷ [])

route_message-IsPermitted_example :
    IsPermitted config legacy.access (field query (codes "header")) gosa_query_jobdb
    × (is_unprotected legacy (codes "secret") (field query (codes "header")) ≡ false)
unfolding route_message route switch text_eq field handle_server_message Hash.add Hash.set_text
route_message-IsPermitted_example =
    route_message-IsPermitted config legacy (codes "secret") query gosa_query_jobdb refl

route_trigger_example :
    (route config legacy (codes "gosa_trigger_action_" ++ label to_halt)
      ≡ triggered config legacy to_halt gosa_trigger_action)
    × (route config legacy (codes "job_trigger_action_" ++ label to_halt)
        ≡ triggered config legacy to_halt job_trigger_action)
route_trigger_example = route_trigger config legacy to_halt

abbrev no_ip : Text → Option Ip
no_ip s = none

-- A peer with a certificate, at fe80::1.
abbrev remote : Context
remote = record legacy {
  tls = true;
  peer_id = record {
    ip = 254 ∷ 128 ∷ 0 ∷ 0 ∷ 0 ∷ 0 ∷ 0 ∷ 0 ∷ 0 ∷ 0 ∷ 0 ∷ 0 ∷ 0 ∷ 0 ∷ 0 ∷ 1 ∷ [];
    allowed_ips = [];
    allowed_names = [];
  };
}

verify_defaults_example :
    (verify config no_ip (λ s. none) (λ ip. none) (set_legacy_defaults config legacy) ≡ some true)
    × (verify config no_ip (λ s. none) (λ ip. none) (set_tls_defaults config remote) ≡ some false)
unfolding port_of
verify_defaults_example =
    verify_defaults config no_ip (λ s. none) (λ ip. none) legacy remote (codes "20081") true 10 0 0
      7 refl refl refl

-- A peer that says that one of its jobs is done.
abbrev news : Hash
news =
    Hash.add_with_ownership
      (Hash.add (new_hash (codes "xml") []) (codes "source") (codes "10.0.0.2:20081" ∷ []))
      (Hash.add
        (Hash.add (new_hash (codes "answer1") []) (codes "siserver") (codes "10.0.0.2:20081" ∷ []))
        (codes "status") (codes "done" ∷ []))

foreign_job_updates-IsReached_example :
    IsReached two_jobs.server
      (field news (codes "source"))
      []
      (foreign_job_updates (λ peer. true) news two_jobs).0
foreign_job_updates-IsReached_example = foreign_job_updates-IsReached (λ peer. true) news two_jobs

one_request : length (foreign_job_updates (λ peer. true) news two_jobs).0.requests ≡ 1
unfolding foreign_job_updates jobs_add_or_modify_foreign Hash.clone is_address field
    Hash.add_with_ownership Hash.add text_eq Hash.set_text Hash.children has_prefix Hash.scan
one_request = refl
