-- ===== src/Message/Dispatch/Triggers.antt =====
-- The messages that start jobs: the bit that each kind of job wants, at once or planned.
use limux_gosa.Base.{Bool, ◌||◌, ◌++◌, ◌≡◌, refl, if◌then◌else◌}
use limux_gosa.Base.Text.{Text, codes, text_eq}
use limux_gosa.Security.Context.{Config, GosaAccessJobs, Context}
use limux_gosa.Message.Dispatch.{
  Handler, gosa_trigger_action, job_trigger_action, Routed, call, ignored, switch, route,
  handle_server_message,
}

-- The kinds of job that may be triggered.
pub data Trigger : Type 0 where
  to_lock to_reboot to_halt to_localboot to_faireboot to_activate to_update to_reinstall : Trigger
  to_wake to_audit : Trigger

unfoldable pub label : Trigger → Text
label to_lock = codes "lock"
label to_reboot = codes "reboot"
label to_halt = codes "halt"
label to_localboot = codes "localboot"
label to_faireboot = codes "faireboot"
label to_activate = codes "activate"
label to_update = codes "update"
label to_reinstall = codes "reinstall"
label to_wake = codes "wake"
label to_audit = codes "audit"

-- The bit of `GosaAccessJobs` for a kind of job.
unfoldable pub may_trigger : Trigger → GosaAccessJobs → Bool
may_trigger to_lock j = j.lock || j.jobs_all
may_trigger to_reboot j = j.shutdown || j.jobs_all
may_trigger to_halt j = j.shutdown || j.jobs_all
may_trigger to_localboot j = j.abort || j.jobs_all
may_trigger to_faireboot j = j.abort || j.jobs_all
may_trigger to_activate j = j.unlock || j.jobs_all
may_trigger to_update j = j.update || j.jobs_all
may_trigger to_reinstall j = j.install || j.jobs_all
may_trigger to_wake j = j.wake || j.jobs_all
may_trigger to_audit j = j.audit || j.jobs_all

-- What becomes of a message that triggers a job.
abbrev pub triggered : Config → Context → Trigger → Handler → Routed
triggered config c t h =
    if handle_server_message config (may_trigger t c.access.jobs) then call h else ignored

-- Whether a job is to start at once or planned, its message reaches the handler of its kind exactly if
-- a server is run and the peer has the bit of that kind of job, or the one for all jobs; else it is
-- ignored.
pub route_trigger :
    (config : Config) (c : Context) (t : Trigger)
    → (route config c (codes "gosa_trigger_action_" ++ label t)
        ≡ triggered config c t gosa_trigger_action)
      × (route config c (codes "job_trigger_action_" ++ label t)
          ≡ triggered config c t job_trigger_action)
unfolding route switch text_eq label may_trigger
route_trigger config c to_lock = (refl, refl)
route_trigger config c to_reboot = (refl, refl)
route_trigger config c to_halt = (refl, refl)
route_trigger config c to_localboot = (refl, refl)
route_trigger config c to_faireboot = (refl, refl)
route_trigger config c to_activate = (refl, refl)
route_trigger config c to_update = (refl, refl)
route_trigger config c to_reinstall = (refl, refl)
route_trigger config c to_wake = (refl, refl)
route_trigger config c to_audit = (refl, refl)
