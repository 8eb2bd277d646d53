-- ===== src/Message/Triggers/Tests.antt =====
-- A forwarded job, as the other server takes it.
use limux_gosa.Base.{◌++◌, true, false, [], ◌∷◌, ◌≡◌, refl}
use limux_gosa.Base.Text.{codes, text_eq}
use limux_gosa.Xml.Hash
use limux_gosa.Xml.Hash.{Hash, new_hash, add, field, get, set_text}
use limux_gosa.Jobs.Tests.{two_jobs}
use limux_gosa.Action.{forward_request}
use limux_gosa.Message.Triggers.{is_mac_address}
use limux_gosa.Message.Triggers.Received.{IsAdded, handled, received_lem}
use limux_gosa.Message.Dispatch.{Handler, call, route}
use limux_gosa.Message.Dispatch.Triggers.{to_reboot, label, may_trigger}
use limux_gosa.Message.Tests.{config, legacy, no_jobs}
use limux_gosa.Security.Context.{Context}

abbrev job : Hash
job =
    add (add (new_hash (codes "job") []) (codes "headertag") (codes "trigger_action_reboot" ∷ []))
      (codes "macaddress") (codes "00:0c:29:50:A3:52" ∷ [])

mac_run : is_mac_address (codes "00:0c:29:50:a3:5") ≡ false
unfolding is_mac_address
mac_run = refl

valid_mac : is_mac_address (field job (codes "macaddress")) ≡ true
unfolding field get add new_hash text_eq Hash.set_text is_mac_address
valid_mac = refl

-- A peer that may switch machines off.
abbrev switching : Context
switching = record legacy {
  access = record legacy.access { jobs = record no_jobs { shutdown = true } };
}

reboots : field job (codes "headertag") ≡ codes "trigger_action_" ++ label to_reboot
unfolding field get add new_hash text_eq Hash.set_text label
reboots = refl

received_example :
    (h : Handler) × (route config switching (field (forward_request job) (codes "header")) ≡ call h)
    × IsAdded
        (field job (codes "headertag"))
        (field job (codes "macaddress"))
        two_jobs
        (handled (codes "20160101000000") (λ x. []) h (forward_request job) two_jobs)
received_example =
    received_lem config switching (codes "20160101000000") (λ x. []) job to_reboot two_jobs refl
      (unfold may_trigger in refl) reboots valid_mac
