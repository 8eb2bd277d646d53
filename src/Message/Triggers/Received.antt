-- ===== src/Message/Triggers/Received.antt =====
-- What the server to which a job is forwarded makes of the request, by go-susi/message/job_trigger_action.go
-- and go-susi/action/process_act.go.
use limux_gosa.Base.{
  Bool, true, false, List, [], ◌∷◌, ◌++◌, map, map-append, append-nil, drop, if◌then◌else◌, ◌≡◌,
  refl, sym, ap, ◌∙◌, inl, inr, Bool-cases,
}
use limux_gosa.Base.Text.{Text, codes, text_eq, text_eq_refl, lower, to_lower, decimal}
use limux_gosa.Xml.Hash.{
  Hash, clone, element, nil, child, content, named, append_child, new_hash, add, add_with_ownership,
  field, text_of, join, get, set_field, set_text,
}
use limux_gosa.Xml.Hash.Edit.{get_one, named-append_child, name-set_text, content-set_text}
use limux_gosa.Xml.Hash.CloneFields.{field-clone}
use limux_gosa.Jobs.Fields.{get-set_field_same, get-set_field_other}
use limux_gosa.Jobs.{JobDb, add_job, job_add_local}
use limux_gosa.Action.{is_one_of, forward_request, has_field, add_present}
use limux_gosa.Message.Triggers.{
  is_mac_address, target_mac, set_periodic, add_tminus, blank_job, triggered_job,
  job_trigger_action, behind_underscore, gosa_trigger_action,
}
use limux_gosa.Security.Context.{Config, Context}
use limux_gosa.Message.Dispatch.{Handler, call, route, handle_server_message}
use limux_gosa.Message.Dispatch.Triggers.{
  Trigger, to_lock, to_reboot, to_halt, to_localboot, to_faireboot, to_activate, to_update,
  to_reinstall, to_wake, to_audit, label, may_trigger, triggered, route_trigger,
}

added : (m s : Text) → Hash
unfolding new_hash
added m s = set_text (element m nil) (s ∷ [])

kept_if :
    (b : Bool) (x : Hash) (s : Text)
    → content x ≡ s
    → map content (if b then x ∷ [] else []) ≡ (if b then s ∷ [] else [])
kept_if true x s e = ap (λ t. t ∷ []) e
kept_if false x s e = refl

get-add :
    (h : Hash) (m s n : Text)
    → get (add h m (s ∷ [])) (n ∷ []) ≡ get h (n ∷ []) ++ (if text_eq m n then s ∷ [] else [])
unfolding add add_with_ownership new_hash
get-add (element k is) m s n =
    let x = set_text (element m nil) (s ∷ []) in
    let one : content x ≡ s = content-set_text (element m nil) (s ∷ []) ∙ (unfold join in refl) in
    let named_x : named n (append_child is x) ≡ named n is ++ (if text_eq m n then x ∷ [] else []) =
      named-append_child n is x
      ∙ ap (λ a. named n is ++ (if text_eq a n then x ∷ [] else []))
          (name-set_text (element m nil) (s ∷ [])) in
    get_one (element k (append_child is x)) n
    ∙ ap (map content) named_x
    ∙ map-append content (named n is) (if text_eq m n then x ∷ [] else [])
    ∙ ap (λ t. map content (named n is) ++ t) (kept_if (text_eq m n) x s one)
    ∙ ap (λ t. t ++ (if text_eq m n then s ∷ [] else [])) (sym (get_one (element k is) n))

pub get-add_other :
    (h : Hash) (m s n : Text)
    → text_eq m n ≡ false
    → get (add h m (s ∷ [])) (n ∷ []) ≡ get h (n ∷ [])
get-add_other h m s n e = get-add h m s n ∙ rw e (append-nil (get h (n ∷ [])))

pub get-add_same :
    (h : Hash) (n s : Text) → get h (n ∷ []) ≡ [] → get (add h n (s ∷ [])) (n ∷ []) ≡ s ∷ []
get-add_same h n s e = get-add h n s n ∙ rw (e, text_eq_refl n) refl

field_of : (h : Hash) (n s : Text) → get h (n ∷ []) ≡ s ∷ [] → field h n ≡ s
unfolding field text_of
field_of h n s e = rw e (unfold join in refl)

get-set_periodic :
    (values : List Text) (h : Hash) (n : Text)
    → text_eq (codes "periodic") n ≡ false
    → get (set_periodic values h) (n ∷ []) ≡ get h (n ∷ [])
unfolding set_periodic
get-set_periodic [] h n e = refl
get-set_periodic (v ∷ values) h n e =
    get-set_periodic values (set_field h (codes "periodic") v) n e
    ∙ get-set_field_other h (codes "periodic") v n e

get-add_tminus :
    (tminus : Text) (h : Hash) (n : Text)
    → text_eq (codes "tminus") n ≡ false
    → get (add_tminus tminus h) (n ∷ []) ≡ get h (n ∷ [])
get-add_tminus tminus h n e = elim (Bool-cases (text_eq tminus [])) [
  | inl g ↦ rw g refl
  | inr g ↦ rw g (get-add_other h (codes "tminus") tminus n e)
]

get-blank : (k n : Text) → get (new_hash k []) (n ∷ []) ≡ []
unfolding new_hash get
get-blank k n = refl

-- A name that no field of the new job has.
get-blank_job :
    (server : Text) (xmlmsg : Hash) (n : Text)
    → text_eq (codes "progress") n ≡ false
    → text_eq (codes "status") n ≡ false
    → text_eq (codes "siserver") n ≡ false
    → text_eq (codes "modified") n ≡ false
    → text_eq (codes "targettag") n ≡ false
    → get (blank_job server xmlmsg) (n ∷ []) ≡ []
unfolding blank_job
get-blank_job server xmlmsg n a b c d e =
    get-add_other _ _ _ _ e
    ∙ get-add_other _ _ _ _ d
    ∙ get-add_other _ _ _ _ c
    ∙ get-add_other _ _ _ _ b
    ∙ get-add_other _ _ _ _ a
    ∙ get-blank (codes "job") n

module _ (now : Text) (xmlmessage : Hash → Text) (server : Text) (xmlmsg : Hash) where
  -- The job before its headertag is added.
  get-repeated :
      (h : Hash) (n : Text)
      → text_eq (codes "tminus") n ≡ false
      → text_eq (codes "periodic") n ≡ false
      → get
          (add_tminus
            (field xmlmsg (codes "tminus"))
            (set_periodic (get xmlmsg (codes "periodic" ∷ [])) h))
          (n ∷ [])
        ≡ get h (n ∷ [])
  get-repeated h n a b =
      get-add_tminus (field xmlmsg (codes "tminus"))
        (set_periodic (get xmlmsg (codes "periodic" ∷ [])) h) n a
      ∙ get-set_periodic (get xmlmsg (codes "periodic" ∷ [])) h n b

  triggered-headertag :
      get (triggered_job now xmlmessage server xmlmsg) (codes "headertag" ∷ [])
      ≡ to_lower (drop 4 (field xmlmsg (codes "header"))) ∷ []
  unfolding triggered_job text_eq
  triggered-headertag =
      get-add_other _ _ _ _ refl
      ∙ get-add_other _ _ _ _ refl
      ∙ get-add_same _ (codes "headertag") (to_lower (drop 4 (field xmlmsg (codes "header")))) (
          get-repeated _ (codes "headertag") refl refl
          ∙ get-add_other _ _ _ _ refl
          ∙ get-add_other _ _ _ _ refl
          ∙ get-add_other _ _ _ _ refl
          ∙ get-blank_job server xmlmsg (codes "headertag") refl refl refl refl refl)

  triggered-macaddress :
      get (triggered_job now xmlmessage server xmlmsg) (codes "macaddress" ∷ [])
      ≡ target_mac xmlmsg ∷ []
  unfolding triggered_job text_eq
  triggered-macaddress =
      get-add_other _ _ _ _ refl
      ∙ get-add_other _ _ _ _ refl
      ∙ get-add_other _ _ _ _ refl
      ∙ get-repeated _ (codes "macaddress") refl refl
      ∙ get-add_other _ _ _ _ refl
      ∙ get-add_other _ _ _ _ refl
      ∙ get-add_same (blank_job server xmlmsg) (codes "macaddress") (target_mac xmlmsg)
          (get-blank_job server xmlmsg (codes "macaddress") refl refl refl refl refl)

field-job_add_local :
    (job : Hash) (j : JobDb) (n s : Text)
    → text_eq (codes "id") n ≡ false
    → text_eq (codes "original_id") n ≡ false
    → get job (n ∷ []) ≡ s ∷ []
    → field (clone (job_add_local job j).1) n ≡ s
unfolding job_add_local
field-job_add_local job j n s a b e =
    let id = decimal j.next_id in
    field-clone (set_field (set_field job (codes "id") id) (codes "original_id") id) n
    ∙ field_of (set_field (set_field job (codes "id") id) (codes "original_id") id) n s (
        get-set_field_other (set_field job (codes "id") id) (codes "original_id") id n b
        ∙ get-set_field_other job (codes "id") id n a
        ∙ e)

-- A request to the job database that adds a job of this header and for this machine.
abbrev pub IsAdded : Text → Text → JobDb → JobDb → Type 0
IsAdded headertag macaddress j j' =
    (job : Hash) × (j'.requests ≡ j.requests ++ add_job job ∷ [])
    × (field job (codes "headertag") ≡ headertag)
    × (field job (codes "macaddress") ≡ macaddress)

IsAdded-job_trigger_action :
    (now : Text) (xmlmessage : Hash → Text) (xmlmsg : Hash) (j : JobDb)
    → is_mac_address (target_mac xmlmsg) ≡ true
    → IsAdded
        (to_lower (drop 4 (field xmlmsg (codes "header"))))
        (target_mac xmlmsg)
        j
        (job_trigger_action now xmlmessage xmlmsg j).1
unfolding job_trigger_action
IsAdded-job_trigger_action now xmlmessage xmlmsg j h =
    let t = triggered_job now xmlmessage j.server xmlmsg in
    rw h (
      clone (job_add_local t j).1,
      (unfold job_add_local in refl),
      field-job_add_local t j (codes "headertag")
          (to_lower (drop 4 (field xmlmsg (codes "header")))) (unfold text_eq in refl)
          (unfold text_eq in refl) (triggered-headertag now xmlmessage j.server xmlmsg),
      field-job_add_local t j (codes "macaddress") (target_mac xmlmsg) (unfold text_eq in refl)
          (unfold text_eq in refl) (triggered-macaddress now xmlmessage j.server xmlmsg),
    )

get-add_present :
    (job h : Hash) (m n : Text)
    → text_eq m n ≡ false
    → get (add_present job m h) (n ∷ []) ≡ get h (n ∷ [])
get-add_present job h m n e = elim (Bool-cases (has_field job m)) [
  | inl g ↦ rw g (get-add_other h m (field job m) n e)
  | inr g ↦ rw g refl
]

get-new_hash :
    (k m s n : Text) → get (new_hash k (m ∷ s ∷ [])) (n ∷ []) ≡ (if text_eq m n then s ∷ [] else [])
unfolding new_hash named
get-new_hash k m s n =
    let x = set_text (element m nil) (s ∷ []) in
    get_one (element k (child x nil)) n
    ∙ ap (λ a. map content (if text_eq a n then x ∷ [] else []))
        (name-set_text (element m nil) (s ∷ []))
    ∙ kept_if (text_eq m n) x s (content-set_text (element m nil) (s ∷ []) ∙ (unfold join in refl))

-- The header of the request.
abbrev request_header : Text → Text
request_header headertag =
    if is_one_of headertag (codes "trigger_action_update" ∷ codes "trigger_action_reinstall" ∷ [])
    then codes "job_" ++ headertag
    else codes "gosa_" ++ headertag

request_header_lem :
    (job : Hash)
    → get (forward_request job) (codes "header" ∷ [])
      ≡ request_header (field job (codes "headertag")) ∷ []
unfolding forward_request text_eq
request_header_lem job =
    get-add_present job _ (codes "periodic") (codes "header") refl
    ∙ get-add_present job _ (codes "tminus") (codes "header") refl
    ∙ get-add_present job _ (codes "timestamp") (codes "header") refl
    ∙ get-add_other _ _ _ _ refl
    ∙ get-add_other _ _ _ _ refl
    ∙ get-add_other _ _ _ _ refl
    ∙ get-new_hash (codes "xml") (codes "header") (request_header (field job (codes "headertag")))
        (codes "header")

request_mac_lem :
    (job : Hash)
    → get (forward_request job) (codes "macaddress" ∷ []) ≡ field job (codes "macaddress") ∷ []
unfolding forward_request text_eq
request_mac_lem job =
    get-add_present job _ (codes "periodic") (codes "macaddress") refl
    ∙ get-add_present job _ (codes "tminus") (codes "macaddress") refl
    ∙ get-add_present job _ (codes "timestamp") (codes "macaddress") refl
    ∙ get-add_other _ _ _ _ refl
    ∙ get-add_same _ (codes "macaddress") (field job (codes "macaddress")) (
        get-add_other _ _ _ _ refl
        ∙ get-new_hash (codes "xml") (codes "header")
            (request_header (field job (codes "headertag"))) (codes "macaddress"))

not_empty : (mac : Text) → is_mac_address mac ≡ true → text_eq mac [] ≡ false
unfolding is_mac_address text_eq
not_empty [] h = cc h
not_empty (c ∷ mac) h = refl

target_mac_lem :
    (xmlmsg : Hash) (mac : Text)
    → get xmlmsg (codes "macaddress" ∷ []) ≡ mac ∷ []
    → is_mac_address mac ≡ true
    → target_mac xmlmsg ≡ mac
target_mac_lem xmlmsg mac e h =
    let f : field xmlmsg (codes "macaddress") ≡ mac = field_of xmlmsg (codes "macaddress") mac e in
    rw (f, not_empty mac h)

-- A message of either form, for what its header and its address are.
trigger_lem :
    (now : Text) (xmlmessage : Hash → Text) (xmlmsg : Hash) (headertag mac : Text) (j : JobDb)
    → get xmlmsg (codes "header" ∷ []) ≡ (codes "job_" ++ headertag) ∷ []
    → get xmlmsg (codes "macaddress" ∷ []) ≡ mac ∷ []
    → is_mac_address mac ≡ true
    → IsAdded (to_lower headertag) mac j (job_trigger_action now xmlmessage xmlmsg j).1
trigger_lem now xmlmessage xmlmsg headertag mac j e f h =
    let header : drop 4 (field xmlmsg (codes "header")) ≡ headertag =
      ap (drop 4) (field_of xmlmsg (codes "header") (codes "job_" ++ headertag) e) in
    let target : target_mac xmlmsg ≡ mac = target_mac_lem xmlmsg mac f h in
    rw (← header, ← target) (IsAdded-job_trigger_action now xmlmessage xmlmsg j (rw target h))

gosa_trigger_lem :
    (now : Text) (xmlmessage : Hash → Text) (xmlmsg : Hash) (headertag mac : Text) (j : JobDb)
    → get xmlmsg (codes "header" ∷ []) ≡ (codes "gosa_" ++ headertag) ∷ []
    → get xmlmsg (codes "macaddress" ∷ []) ≡ mac ∷ []
    → is_mac_address mac ≡ true
    → IsAdded (to_lower headertag) mac j (gosa_trigger_action now xmlmessage xmlmsg j).1
unfolding gosa_trigger_action
gosa_trigger_lem now xmlmessage xmlmsg headertag mac j e f h =
    let behind : codes "job_" ++ behind_underscore (field xmlmsg (codes "header"))
        ≡ codes "job_" ++ headertag =
      ap (λ t. codes "job_" ++ behind_underscore t)
        (field_of xmlmsg (codes "header") (codes "gosa_" ++ headertag) e)
      ∙ (unfold behind_underscore in refl) in
    rw behind (
      trigger_lem now xmlmessage (set_field xmlmsg (codes "header") (codes "job_" ++ headertag))
        headertag mac j
        (get-set_field_same xmlmsg (codes "header") (codes "job_" ++ headertag)
          ∙ ap (λ t. (codes "job_" ++ headertag) ∷ drop 1 t) e)
        (get-set_field_other xmlmsg (codes "header") (codes "job_" ++ headertag)
            (codes "macaddress") (unfold text_eq in refl)
          ∙ f)
        h)

-- The request that Forward sends, with the handler for its header.
handled_request :
    (now : Text) (xmlmessage : Hash → Text) (job : Hash) (j : JobDb)
    → is_mac_address (field job (codes "macaddress")) ≡ true
    → IsAdded
        (to_lower (field job (codes "headertag")))
        (field job (codes "macaddress"))
        j
        (if is_one_of
            (field job (codes "headertag"))
            (codes "trigger_action_update" ∷ codes "trigger_action_reinstall" ∷ [])
          then job_trigger_action now xmlmessage (forward_request job) j
          else gosa_trigger_action now xmlmessage (forward_request job) j).1
handled_request now xmlmessage job j h =
    let headertag = field job (codes "headertag") in
    let kinds = codes "trigger_action_update" ∷ codes "trigger_action_reinstall" ∷ [] in
    elim (Bool-cases (is_one_of headertag kinds)) [
      | inl e ↦ rw e (
          trigger_lem now xmlmessage (forward_request job) headertag
            (field job (codes "macaddress")) j (request_header_lem job ∙ rw e refl)
            (request_mac_lem job) h)
      | inr e ↦ rw e (
          gosa_trigger_lem now xmlmessage (forward_request job) headertag
            (field job (codes "macaddress")) j (request_header_lem job ∙ rw e refl)
            (request_mac_lem job) h)
    ]

-- The function of a handler that starts jobs.
abbrev pub handled : (Text) → (Hash → Text) → Handler → Hash → JobDb → JobDb
handled now xmlmessage Handler.gosa_trigger_action xmlmsg j =
    (gosa_trigger_action now xmlmessage xmlmsg j).1
handled now xmlmessage Handler.job_trigger_action xmlmsg j =
    (job_trigger_action now xmlmessage xmlmsg j).1
handled now xmlmessage _ xmlmsg j = j

is_planned : Trigger → Bool
is_planned to_update = true
is_planned to_reinstall = true
is_planned _ = false

-- The headertag of a kind of job.
abbrev pub tag_of : Trigger → Text
tag_of t = codes "trigger_action_" ++ label t

planned_lem :
    (t : Trigger)
    → (is_one_of (tag_of t) (codes "trigger_action_update" ∷ codes "trigger_action_reinstall" ∷ [])
        ≡ is_planned t)
      × (to_lower (tag_of t) ≡ tag_of t)
unfolding label text_eq lower is_planned
planned_lem to_lock = (refl, refl)
planned_lem to_reboot = (refl, refl)
planned_lem to_halt = (refl, refl)
planned_lem to_localboot = (refl, refl)
planned_lem to_faireboot = (refl, refl)
planned_lem to_activate = (refl, refl)
planned_lem to_update = (refl, refl)
planned_lem to_reinstall = (refl, refl)
planned_lem to_wake = (refl, refl)
planned_lem to_audit = (refl, refl)

triggered_call :
    (config : Config) (c : Context) (t : Trigger) (h : Handler)
    → config.run_server ≡ true
    → may_trigger t c.access.jobs ≡ true
    → triggered config c t h ≡ call h
unfolding handle_server_message
triggered_call config c t h r m = rw (m, r, handle_server_message) refl

-- The header of the request goes through the dispatch of the other server.
module _ (config : Config) (c : Context) (job : Hash) (t : Trigger)
    (runs : config.run_server ≡ true) (may : may_trigger t c.access.jobs ≡ true)
    (tag : field job (codes "headertag") ≡ tag_of t) where
  request_field :
      field (forward_request job) (codes "header")
      ≡ (if is_planned t then codes "job_" ++ tag_of t else codes "gosa_" ++ tag_of t)
  request_field =
      field_of (forward_request job) (codes "header") _ (request_header_lem job)
      ∙ rw (tag, (planned_lem t).0) refl

  planned_route :
      is_planned t ≡ true
      → route config c (field (forward_request job) (codes "header"))
        ≡ call Handler.job_trigger_action
  planned_route p =
      ap (route config c) (request_field ∙ rw p refl)
      ∙ (route_trigger config c t).1
      ∙ triggered_call config c t Handler.job_trigger_action runs may

  prompt_route :
      is_planned t ≡ false
      → route config c (field (forward_request job) (codes "header"))
        ≡ call Handler.gosa_trigger_action
  prompt_route p =
      ap (route config c) (request_field ∙ rw p refl)
      ∙ (route_trigger config c t).0
      ∙ triggered_call config c t Handler.gosa_trigger_action runs may

-- The request that Forward makes for a job of one of the ten kinds of actions that can be triggered, of a
-- machine with a valid MAC address, reaches a handler on a server that runs and gives the sender the bit of
-- that kind; and that handler, on the request as it was made, leads to one request to the job database of
-- that server: to add a job with the same headertag for the same machine.
pub received_lem :
    (config : Config) (c : Context) (now : Text) (xmlmessage : Hash → Text) (job : Hash)
    (t : Trigger) (j : JobDb)
    → config.run_server ≡ true
    → may_trigger t c.access.jobs ≡ true
    → field job (codes "headertag") ≡ codes "trigger_action_" ++ label t
    → is_mac_address (field job (codes "macaddress")) ≡ true
    → (h : Handler) × (route config c (field (forward_request job) (codes "header")) ≡ call h)
      × IsAdded
          (field job (codes "headertag"))
          (field job (codes "macaddress"))
          j
          (handled now xmlmessage h (forward_request job) j)
received_lem config c now xmlmessage job t j runs may tag mac =
    let (kind, small) = planned_lem t in
    let lowered : to_lower (field job (codes "headertag")) ≡ field job (codes "headertag") =
      rw tag small in
    let is_kind : is_one_of (field job (codes "headertag"))
          (codes "trigger_action_update" ∷ codes "trigger_action_reinstall" ∷ [])
        ≡ is_planned t =
      rw tag kind in
    let taken = handled_request now xmlmessage job j mac in
    elim (Bool-cases (is_planned t)) [
      | inl p ↦ (
        Handler.job_trigger_action,
        planned_route config c job t runs may tag p,
        rw (is_kind, p, lowered) at taken,
      )
      | inr p ↦ (
        Handler.gosa_trigger_action,
        prompt_route config c job t runs may tag p,
        rw (is_kind, p, lowered) at taken,
      )
    ]
