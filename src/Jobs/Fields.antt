-- ===== src/Jobs/Fields.antt =====
-- The fields of the jobs that go-susi/db/jobdb.go changes and copies.
use limux_gosa.Base.{
  Bool, true, false, List, [], ◌∷◌, ◌≡◌, refl, ap, ◌∙◌, drop, inl, inr, Bool-cases, if◌then◌else◌,
}
use limux_gosa.Base.Text.{Text, codes, text_eq, text_eq_iff, text_eq_refl}
use limux_gosa.Xml.Hash.{Hash, get, set_field, remove_first, field}
use limux_gosa.Xml.Hash.Edit.{set_field_lem, remove_first_lem}
use limux_gosa.Jobs.Message.{update_message, xml_message, base64}
use limux_gosa.Jobs.Local.{done_job}

pub get-set_field_same :
    (h : Hash) (n s : Text) → get (set_field h n s) (n ∷ []) ≡ s ∷ drop 1 (get h (n ∷ []))
get-set_field_same h n s = rw ((set_field_lem h n s n).0, text_eq_refl n)

pub get-set_field_other :
    (h : Hash) (n s m : Text)
    → text_eq n m ≡ false
    → get (set_field h n s) (m ∷ []) ≡ get h (m ∷ [])
get-set_field_other h n s m e = rw ((set_field_lem h n s m).0, e)

pub get-remove_first_other :
    (h : Hash) (n m : Text)
    → text_eq n m ≡ false
    → get (remove_first h n).1 (m ∷ []) ≡ get h (m ∷ [])
get-remove_first_other h n m e = rw ((remove_first_lem h n m).0, e)

pub get-update_message :
    (job : Hash) (m : Text)
    → text_eq (codes "xmlmessage") m ≡ false
    → get (update_message job) (m ∷ []) ≡ get job (m ∷ [])
unfolding update_message
get-update_message job m e =
    get-set_field_other job (codes "xmlmessage") (base64 (xml_message job)) m e

field-update_message :
    (job : Hash) (m : Text)
    → text_eq (codes "xmlmessage") m ≡ false
    → field (update_message job) m ≡ field job m
unfolding field
field-update_message job m e = rw (get-update_message job m e)

xml_message-update_message : (job : Hash) → xml_message (update_message job) ≡ xml_message job
unfolding xml_message text_eq
xml_message-update_message job = rw (
  field-update_message job (codes "periodic") refl,
  field-update_message job (codes "headertag") refl,
  field-update_message job (codes "targettag") refl,
  field-update_message job (codes "macaddress") refl,
  field-update_message job (codes "timestamp") refl,
)

get-update_message_self :
    (job : Hash)
    → get (update_message job) (codes "xmlmessage" ∷ [])
      ≡ base64 (xml_message job) ∷ drop 1 (get job (codes "xmlmessage" ∷ []))
unfolding update_message
get-update_message_self job = get-set_field_same job (codes "xmlmessage") (base64 (xml_message job))

-- The message in a job is the one of the job as it is stored.
update_message_lem :
    (job : Hash)
    → get (update_message job) (codes "xmlmessage" ∷ [])
      ≡ base64 (xml_message (update_message job)) ∷ drop 1 (get job (codes "xmlmessage" ∷ []))
update_message_lem job = rw (xml_message-update_message job) (get-update_message_self job)

-- `done_job` before its message is made.
abbrev pub stopped_job : Bool → Hash → Hash
stopped_job stop job =
    let done = set_field job (codes "status") (codes "done") in
    if stop then set_field done (codes "periodic") (codes "none") else done

done_job_eq :
    (stop : Bool) (job : Hash) (m : Text)
    → text_eq (codes "xmlmessage") m ≡ false
    → get (done_job stop job) (m ∷ [])
      ≡ get (remove_first (stopped_job stop job) (codes "original_id")).1 (m ∷ [])
unfolding done_job
done_job_eq stop job m e =
    get-update_message (remove_first (stopped_job stop job) (codes "original_id")).1 m e

get-stopped_other :
    (stop : Bool) (job : Hash) (m : Text)
    → text_eq (codes "status") m ≡ false
    → text_eq (codes "periodic") m ≡ false
    → get (stopped_job stop job) (m ∷ []) ≡ get job (m ∷ [])
get-stopped_other false job m p q = get-set_field_other job (codes "status") (codes "done") m p
get-stopped_other true job m p q =
    get-set_field_other (set_field job (codes "status") (codes "done")) (codes "periodic")
      (codes "none") m q
    ∙ get-set_field_other job (codes "status") (codes "done") m p

get-stopped_status :
    (stop : Bool) (job : Hash)
    → get (stopped_job stop job) (codes "status" ∷ [])
      ≡ codes "done" ∷ drop 1 (get job (codes "status" ∷ []))
unfolding text_eq
get-stopped_status false job = get-set_field_same job (codes "status") (codes "done")
get-stopped_status true job =
    get-set_field_other (set_field job (codes "status") (codes "done")) (codes "periodic")
      (codes "none") (codes "status") refl
    ∙ get-set_field_same job (codes "status") (codes "done")

-- The texts of a field of a job that has been removed.
pub done_field : Bool → Hash → Text → List Text
done_field stop job m =
    let old = get job (m ∷ []) in
    if text_eq (codes "status") m
    then codes "done" ∷ drop 1 old
    else if text_eq (codes "periodic") m
    then (if stop then codes "none" ∷ drop 1 old else old)
    else if text_eq (codes "original_id") m
    then drop 1 old
    else if text_eq (codes "xmlmessage") m
    then base64 (xml_message (done_job stop job)) ∷ drop 1 old
    else old

module _ (stop : Bool) (job : Hash) where
  pub get-done_status :
      get (done_job stop job) (codes "status" ∷ [])
      ≡ codes "done" ∷ drop 1 (get job (codes "status" ∷ []))
  unfolding text_eq
  get-done_status =
      done_job_eq stop job (codes "status") refl
      ∙ get-remove_first_other (stopped_job stop job) (codes "original_id") (codes "status") refl
      ∙ get-stopped_status stop job

  get-done_id :
      get (done_job stop job) (codes "original_id" ∷ [])
      ≡ drop 1 (get job (codes "original_id" ∷ []))
  unfolding text_eq
  get-done_id =
      done_job_eq stop job (codes "original_id") refl
      ∙ (remove_first_lem (stopped_job stop job) (codes "original_id") (codes "original_id")).0
      ∙ ap (drop 1) (get-stopped_other stop job (codes "original_id") refl refl)

  get-done_message :
      get (done_job stop job) (codes "xmlmessage" ∷ [])
      ≡ base64 (xml_message (done_job stop job)) ∷ drop 1 (get job (codes "xmlmessage" ∷ []))
  unfolding text_eq done_job
  get-done_message =
      update_message_lem (remove_first (stopped_job stop job) (codes "original_id")).1
      ∙ ap (λ l. base64 (xml_message (done_job stop job)) ∷ drop 1 l)
          (get-remove_first_other (stopped_job stop job) (codes "original_id") (codes "xmlmessage")
              refl
            ∙ get-stopped_other stop job (codes "xmlmessage") refl refl)

get-done_periodic :
    (stop : Bool) (job : Hash)
    → get (done_job stop job) (codes "periodic" ∷ []) ≡ (
        if stop
        then codes "none" ∷ drop 1 (get job (codes "periodic" ∷ []))
        else get job (codes "periodic" ∷ []))
unfolding text_eq
get-done_periodic false job =
    done_job_eq false job (codes "periodic") refl
    ∙ get-remove_first_other (stopped_job false job) (codes "original_id") (codes "periodic") refl
    ∙ get-set_field_other job (codes "status") (codes "done") (codes "periodic") refl
get-done_periodic true job =
    done_job_eq true job (codes "periodic") refl
    ∙ get-remove_first_other (stopped_job true job) (codes "original_id") (codes "periodic") refl
    ∙ get-set_field_same (set_field job (codes "status") (codes "done")) (codes "periodic")
        (codes "none")
    ∙ ap (λ l. codes "none" ∷ drop 1 l)
        (get-set_field_other job (codes "status") (codes "done") (codes "periodic") refl)

-- What is left of the fields of a removed job: the first status is "done", the first periodic is "none"
-- where periodic jobs are stopped, one `original_id` is dropped, the first message is the encoded message
-- of the job as it is now, and all other texts are those of before.
pub done_job_lem :
    (stop : Bool) (job : Hash) (m : Text) → get (done_job stop job) (m ∷ []) ≡ done_field stop job m
unfolding done_field
done_job_lem stop job m = elim (Bool-cases (text_eq (codes "status") m)) [
  | inl e ↦ rw e rw (← (text_eq_iff (codes "status") m).0 e) (get-done_status stop job)
  | inr e ↦ rw e (elim (Bool-cases (text_eq (codes "periodic") m)) [
    | inl p ↦ rw p rw (← (text_eq_iff (codes "periodic") m).0 p) (get-done_periodic stop job)
    | inr p ↦ rw p (elim (Bool-cases (text_eq (codes "original_id") m)) [
      | inl o ↦ rw o rw (← (text_eq_iff (codes "original_id") m).0 o) (get-done_id stop job)
      | inr o ↦ rw o (elim (Bool-cases (text_eq (codes "xmlmessage") m)) [
        | inl x ↦ rw x rw (← (text_eq_iff (codes "xmlmessage") m).0 x) (get-done_message stop job)
        | inr x ↦ rw x (
            done_job_eq stop job m x
            ∙ get-remove_first_other (stopped_job stop job) (codes "original_id") m o
            ∙ get-stopped_other stop job m e p)
      ])
    ])
  ])
]
