-- ===== src/Message/Triggers.antt =====
-- go-susi/message/job_trigger_action.go, gosa_trigger_action.go and job_send_user_msg.go: the messages that
-- ask for a job.
pub mod Received
pub mod Tests
use limux_gosa.Base.{
  ℕ, Bool, true, false, ◌&&◌, ◌||◌, List, [], ◌∷◌, ◌++◌, ◌==◌, leb, drop, length, if◌then◌else◌,
}
use limux_gosa.Base.Text.{Text, codes, text_eq, is_digit, to_lower}
use limux_gosa.Xml.Hash.{Hash, new_hash, add, field, get, set_field, clone, remove_first}
use limux_gosa.Jobs.{JobDb, job_add_local}
use limux_gosa.Message.JobQueries.{error_reply, done_reply}

is_hex_digit : ℕ → Bool
is_hex_digit c = is_digit c || (leb b'a' c && leb c b'f') || (leb b'A' c && leb c b'F')

mac_pairs : Text → Bool
mac_pairs (a ∷ b ∷ []) = is_hex_digit a && is_hex_digit b
mac_pairs (a ∷ b ∷ c ∷ s) = is_hex_digit a && is_hex_digit b && c == b':' && mac_pairs s
mac_pairs _ = false

-- `macAddressRegexp`
unfoldable pub is_mac_address : Text → Bool
unfolding mac_pairs is_hex_digit
is_mac_address s = length s == 17 && mac_pairs s

-- `macaddress`, or else the target
abbrev pub target_mac : Hash → Text
target_mac xmlmsg =
    if text_eq (field xmlmsg (codes "macaddress")) []
    then field xmlmsg (codes "target")
    else field xmlmsg (codes "macaddress")

-- The loop over the values of `periodic`.
unfoldable pub set_periodic : List Text → Hash → Hash
set_periodic [] job = job
set_periodic (periodic ∷ more) job = set_periodic more (set_field job (codes "periodic") periodic)

abbrev pub add_tminus : Text → Hash → Hash
add_tminus tminus job = if text_eq tminus [] then job else add job (codes "tminus") (tminus ∷ [])

-- What the job begins with.
unfoldable pub blank_job : Text → Hash → Hash
blank_job server xmlmsg =
    add
      (add
        (add
          (add (add (new_hash (codes "job") []) (codes "progress") (codes "none" ∷ []))
            (codes "status") (codes "waiting" ∷ []))
          (codes "siserver") (server ∷ []))
        (codes "modified") (codes "1" ∷ []))
      (codes "targettag") (field xmlmsg (codes "target") ∷ [])

-- What is behind the first "_".
unfoldable pub behind_underscore : Text → Text
behind_underscore [] = []
behind_underscore (c ∷ s) = let rest = behind_underscore s in if c == b'_' then s else rest

-- The present time as `MakeTimestamp` prints it, and the message as base64, which go-susi/xml and
-- encoding/base64 give.
module _ (now : Text) (xmlmessage : Hash → Text) where
  -- The job of the message.
  unfoldable pub triggered_job : Text → Hash → Hash
  unfolding blank_job set_periodic
  triggered_job server xmlmsg =
      let timestamp = field xmlmsg (codes "timestamp") in
      let timed =
        add
          (add (add (blank_job server xmlmsg) (codes "macaddress") (target_mac xmlmsg ∷ []))
            (codes "plainname") (codes "none" ∷ []))
          (codes "timestamp") ((if text_eq timestamp [] then now else timestamp) ∷ []) in
      let repeated =
        add_tminus (field xmlmsg (codes "tminus"))
          (set_periodic (get xmlmsg (codes "periodic" ∷ [])) timed) in
      let headertag = to_lower (drop 4 (field xmlmsg (codes "header"))) in
      add
        (add (add repeated (codes "headertag") (headertag ∷ [])) (codes "result")
          (codes "none" ∷ []))
        (codes "xmlmessage") (xmlmessage xmlmsg ∷ [])

  -- `job_trigger_action`, for a message whose header has at least the bytes of "job_".
  unfoldable pub job_trigger_action : Hash → JobDb → Hash × JobDb
  unfolding is_mac_address triggered_job job_add_local error_reply done_reply
  job_trigger_action xmlmsg j =
      if is_mac_address (target_mac xmlmsg)
      then (done_reply j.server xmlmsg, (job_add_local (triggered_job j.server xmlmsg) j).0)
      else (
        error_reply j.server (codes "job_trigger_action* with invalid or missing MAC address"),
        j,
      )

  -- `gosa_trigger_action`, for a message whose header has a "_".
  unfoldable pub gosa_trigger_action : Hash → JobDb → Hash × JobDb
  unfolding job_trigger_action behind_underscore
  gosa_trigger_action xmlmsg j =
      let header = codes "job_" ++ behind_underscore (field xmlmsg (codes "header")) in
      job_trigger_action (set_field xmlmsg (codes "header") header) j

-- The fields that `job_send_user_msg` sets, in a clone of the message; `mac` is `config.MAC`.
set_fields : List (Text × Text) → Hash → Hash
set_fields [] job = job
set_fields ((n, value) ∷ more) job = set_fields more (set_field job n value)

unfoldable pub user_msg_job : Text → Text → Text → Hash → Hash
unfolding set_fields set_periodic
user_msg_job now mac server xmlmsg =
    let timestamp = field xmlmsg (codes "timestamp") in
    let begun =
      set_fields
        ((codes "progress", codes "none")
          ∷ (codes "status", codes "waiting")
          ∷ (codes "siserver", server)
          ∷ (codes "modified", codes "1")
          ∷ (codes "targettag", field xmlmsg (codes "target"))
          ∷ (codes "macaddress", mac)
          ∷ (codes "plainname", codes "none")
          ∷ (codes "timestamp", if text_eq timestamp [] then now else timestamp)
          ∷ [])
        (clone xmlmsg) in
    let tagged =
      set_field (set_periodic (get xmlmsg (codes "periodic" ∷ [])) begun) (codes "headertag")
        (to_lower (drop 4 (field xmlmsg (codes "header")))) in
    set_field (remove_first tagged (codes "header")).1 (codes "result") (codes "none")

-- `job_send_user_msg`
unfoldable pub job_send_user_msg : Text → Text → Hash → JobDb → Hash × JobDb
unfolding user_msg_job job_add_local done_reply
job_send_user_msg now mac xmlmsg j =
    (done_reply j.server xmlmsg, (job_add_local (user_msg_job now mac j.server xmlmsg) j).0)
