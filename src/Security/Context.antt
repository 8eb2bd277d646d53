-- ===== src/Security/Context.antt =====
-- The types of go-susi/security/context.go, and what a context starts with.
pub mod Verify
pub mod Verified
use limux_gosa.Base.{ℕ, ◌-◌, ◌^◌, Bool, true, false, List, [], ◌∷◌, ◌++◌, if◌then◌else◌}
use limux_gosa.Base.Int.{ℤ, pos}
use limux_gosa.Base.Text.{Text, codes}

-- The variables of package config that the checks read.
pub record Config : Type 0 where
  pub run_server : Bool
  pub ip : Text
  pub hostname : Text
  pub domain : Text
  pub server_source_address : Text
  pub ldap_uri : Text
  pub incoming_ou : Text

-- `net.IP`: 4 or 16 bytes.
abbrev pub Ip : Type 0
Ip = Text

-- `net.IPv4(0,0,0,0)`, in 16 bytes.
abbrev pub any_ip : Ip
any_ip = 0 ∷ 0 ∷ 0 ∷ 0 ∷ 0 ∷ 0 ∷ 0 ∷ 0 ∷ 0 ∷ 0 ∷ 255 ∷ 255 ∷ 0 ∷ 0 ∷ 0 ∷ 0 ∷ []

pub record SubjectAltName : Type 0 where
  pub ip : Ip
  pub allowed_ips : List Ip
  pub allowed_names : List Text

pub record GosaConnectionLimits : Type 0 where
  pub total_time : ℤ
  pub total_bytes : ℤ
  pub message_bytes : ℤ
  pub conn_per_hour : ℤ
  pub conn_parallel : ℤ
  pub max_log_files : ℤ
  pub max_answers : ℤ
  pub communicate_with : List Text

pub record GosaAccessMisc : Type 0 where
  pub debug : Bool
  pub wake : Bool
  pub peer : Bool

pub record GosaAccessQuery : Type 0 where
  pub query_all : Bool
  pub query_jobs : Bool

pub record GosaAccessJobs : Type 0 where
  pub jobs_all : Bool
  pub lock : Bool
  pub unlock : Bool
  pub shutdown : Bool
  pub wake : Bool
  pub abort : Bool
  pub install : Bool
  pub update : Bool
  pub modify_jobs : Bool
  pub new_sys : Bool
  pub user_msg : Bool
  pub audit : Bool

pub record GosaAccessLdapUpdate : Type 0 where
  pub cn : Bool
  pub ip : Bool
  pub mac : Bool
  pub dh : Bool

pub record GosaAccessLdapDetectedHardware : Type 0 where
  pub unprompted : Bool
  pub template : Bool
  pub dn : Bool
  pub cn : Bool
  pub ip_host_number : Bool
  pub mac_address : Bool

pub record GosaAccessControl : Type 0 where
  pub misc : GosaAccessMisc
  pub query : GosaAccessQuery
  pub jobs : GosaAccessJobs
  pub incoming : List Text
  pub ldap_update : GosaAccessLdapUpdate
  pub detected_hw : GosaAccessLdapDetectedHardware

pub record Context : Type 0 where
  pub tls : Bool
  pub peer_id : SubjectAltName
  pub limits : GosaConnectionLimits
  pub access : GosaAccessControl

-- The limits that both kinds of connection start with.
abbrev pub default_limits : Config → GosaConnectionLimits
default_limits config = record {
  total_time = pos 0;
  total_bytes = pos (2 ^ 63 - 1);
  message_bytes = pos (2 ^ 63 - 1);
  conn_per_hour = pos 36000;
  conn_parallel = pos 32;
  max_log_files = pos 64;
  max_answers = pos (2 ^ 31 - 1);
  communicate_with = config.server_source_address ∷ [];
}

-- The bits of jobs, but for `user_msg` and `audit`, which neither default names.
abbrev pub set_jobs : Bool → GosaAccessJobs → GosaAccessJobs
set_jobs b jobs = record jobs {
  jobs_all = b;
  lock = b;
  unlock = b;
  shutdown = b;
  wake = b;
  abort = b;
  install = b;
  update = b;
  modify_jobs = b;
  new_sys = b;
}

abbrev pub set_access : Bool → List Text → GosaAccessControl → GosaAccessControl
set_access b incoming a = record {
  misc = record { debug = b; wake = b; peer = b };
  query = record { query_all = b; query_jobs = b };
  jobs = set_jobs b a.jobs;
  incoming = incoming;
  ldap_update = record { cn = b; ip = b; mac = b; dh = b };
  detected_hw = record {
    unprompted = b;
    template = b;
    dn = b;
    cn = b;
    ip_host_number = b;
    mac_address = b;
  };
}

-- `if len(context.PeerID.IP) == 0`
unfoldable pub ip_or_any : Ip → Ip
ip_or_any [] = any_ip
ip_or_any (b ∷ ip) = b ∷ ip

-- `SetLegacyDefaults`
unfoldable pub set_legacy_defaults : Config → Context → Context
unfolding ip_or_any
set_legacy_defaults config c = record c {
  peer_id = record { ip = ip_or_any c.peer_id.ip; allowed_ips = any_ip ∷ []; allowed_names = [] };
  limits = default_limits config;
  access = set_access true ((config.ldap_uri ++ (codes "/" ++ config.incoming_ou)) ∷ []) c.access;
}

-- `SetTLSDefaults`
unfoldable pub set_tls_defaults : Config → Context → Context
set_tls_defaults config c = record c {
  peer_id = record c.peer_id { allowed_ips = []; allowed_names = [] };
  limits = default_limits config;
  access = set_access false (codes "ldap://*" ∷ codes "ldaps://*" ∷ []) c.access;
}
