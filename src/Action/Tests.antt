-- ===== src/Action/Tests.antt =====
-- Runs of go-susi/action/process_act.go.
use limux_gosa.Base.{
  ℕ, suc, ◌+◌, ◌-◌, ◌*◌, ◌^◌, true, false, none, [], ◌∷◌, ◌++◌, ltb, drop, ◌≡◌, refl, arith,
}
use limux_gosa.Base.Int.{ℤ, pos, negsuc}
use limux_gosa.Base.Text.{Text, codes, decimal, text_eq}
use limux_gosa.Xml.Hash.{Hash, add, add_with_ownership, new_hash, field, get}
use limux_gosa.Xml.Hash
use limux_gosa.Xml.Db
use limux_gosa.Xml.Select
use limux_gosa.Base.Text
use limux_gosa.Xml.Db.{new_db, init}
use limux_gosa.Clients.{client_with_mac}
use limux_gosa.Xml.Filter.{filter_simple}
use limux_gosa.Jobs.{add_job}
use limux_gosa.Jobs.Tests.{two_jobs}
use limux_gosa.Action.{World, Known, Forwarding, forward, forwarded, take_action}
use limux_gosa.Action.Forward.{forwarded_lem}
use limux_gosa.Action.Periodic.{Calendar, reached, unfinished, next_time, split_periodic}
use limux_gosa.Action.Periodic.Rounds.{time_unit, Reaches, next_time_lem, next_time_overflow}

abbrev shift : ℤ → ℕ → ℕ
shift (pos d) t = t + d
shift (negsuc d) t = t - suc d

-- Times are nanoseconds; a month has 30 days here.
abbrev clock : Calendar ℕ
clock = record {
  plus = shift;
  add_date = λ years months days t. shift days t;
  is_before = ltb;
  parse_timestamp = λ s. 0;
  make_timestamp = decimal;
}

-- Ten seconds after the time of the job.
abbrev ten_seconds : ℕ → ℕ
ten_seconds round = 10 * 10 ^ 9

split_run : split_periodic (codes "7_days") ≡ codes "7" ∷ codes "days" ∷ []
unfolding split_periodic
split_run = refl

next_time_run : next_time clock 5 ten_seconds (codes "seconds") 4 0 0 ≡ reached (12 * 10 ^ 9)
unfolding next_time text_eq
next_time_run = refl

next_time_example :
    Reaches clock
      (λ t. t)
      (λ d t. refl)
      (λ t u. refl)
      (suc (10 * 10 ^ 9))
      ten_seconds
      (codes "seconds")
      4
      (10 ^ 9 * 4)
      0
      0
next_time_example =
    next_time_lem clock (λ t. t) (λ d t. refl) (λ t u. refl) (10 * 10 ^ 9) ten_seconds
      (codes "seconds") (10 ^ 9) 4 (10 * 10 ^ 9) 0 (unfold time_unit text_eq in refl) (omega arith)
      (omega arith) (λ j. omega arith) (omega arith)

next_time_overflow_example :
    next_time clock 1000 ten_seconds (codes "seconds") (2 ^ 55) 0 0 ≡ unfinished
next_time_overflow_example =
    next_time_overflow clock (λ t. t) (λ d t. refl) (λ t u. refl) 1000 ten_seconds (codes "seconds")
      (10 ^ 9) (2 ^ 55) 0 0 (unfold time_unit text_eq in refl) (omega arith) refl (λ j. omega arith)

abbrev client : Hash
client =
    add
      (add (add (new_hash (codes "xml") []) (codes "macaddress") (codes "00:0c:29:50:a3:52" ∷ []))
        (codes "source") (codes "10.0.0.2:20081" ∷ []))
      (codes "client") (codes "10.0.0.9:20083" ∷ [])

abbrev job : Hash
job =
    add
      (add (add (new_hash (codes "job") []) (codes "id") (codes "7" ∷ [])) (codes "headertag")
        (codes "trigger_action_update" ∷ []))
      (codes "macaddress") (codes "00:0c:29:50:a3:52" ∷ [])

abbrev known : Known
known = record {
  clients = record {
    server = codes "10.0.0.1:20081";
    db =
        init (new_db (codes "clientdb") true none)
          (add_with_ownership (new_hash (codes "clientdb") []) client);
    may_have = new_hash (codes "clientdb") [];
    hia = [];
  };
  downtime = λ server. 0;
  fai_state = λ mac. [];
}

abbrev idle : World
idle = record { jobs = two_jobs; told = []; acts = []; forwardings = []; local_boots = [] }

abbrev unsent : Forwarding
unsent = record {
  siserver = codes "10.0.0.2:20081";
  request = new_hash (codes "xml") [];
  job_clone = job;
}

-- The client is registered at another server, to which the job goes.
take_action_run : (take_action known job idle).acts ≡ []
unfolding take_action text_eq field add new_hash get Hash.set_text client_with_mac filter_simple
    Db.query Select.query Text.lower Hash.clone
take_action_run = refl

no_progress : drop 1 (get job (codes "progress" ∷ [])) ≡ []
unfolding get add new_hash text_eq Hash.set_text
no_progress = refl

forwarded_example :
    (again : Hash) × ((forwarded false unsent idle).jobs.requests
      ≡ two_jobs.requests ++ add_job again ∷ [])
    × ((k : Known) (later : World) → forward k again later ≡ (false, later))
forwarded_example = forwarded_lem unsent idle no_progress
