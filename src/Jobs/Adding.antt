-- ===== src/Jobs/Adding.antt =====
-- A local job from the call of `JobAddLocal` in go-susi/db/jobdb.go to its place in the database.
use limux_gosa.Base.{
  suc, ◌%◌, ◌^◌, false, List, [], ◌∷◌, ◌++◌, ◌≡◌, refl, ap, ◌∙◌, drop, inl, inr, Bool-cases,
}
use limux_gosa.Base.Text.{Text, codes, text_eq, decimal}
use limux_gosa.Xml.Hash.{Hash, clone, get, field, set_field, items, children}
use limux_gosa.Xml.Hash.CloneFields.{get-clone}
use limux_gosa.Xml.Db.{Db, add_items, add_clones}
use limux_gosa.Xml.Db.Laws.{items_of, hash-persist_job, children-add_clones}
use limux_gosa.Jobs.{JobDb, Request, add_job, job_add_local}
use limux_gosa.Jobs.Message.{update_message}
use limux_gosa.Jobs.Local.{named_job, look_up_name, run_add}
use limux_gosa.Jobs.Run.{run, handle_request}
use limux_gosa.Jobs.Fields.{get-set_field_same, get-set_field_other, get-update_message}

-- The job that is stored for a job of the caller.
abbrev pub stored_job : Hash → JobDb → Hash
stored_job job j = clone (update_message (named_job (clone (job_add_local job j).1)))

get-named_job :
    (job : Hash) (m : Text)
    → text_eq (codes "plainname") m ≡ false
    → get (named_job job) (m ∷ []) ≡ get job (m ∷ [])
unfolding named_job
get-named_job job m e = elim (Bool-cases (text_eq (field job (codes "plainname")) [])) [
  | inl q ↦ rw q (get-set_field_other job (codes "plainname") (codes "none") m e)
  | inr q ↦ rw q
]

get-stored_job :
    (job : Hash) (j : JobDb) (m : Text)
    → text_eq (codes "plainname") m ≡ false
    → text_eq (codes "xmlmessage") m ≡ false
    → get (stored_job job j) (m ∷ []) ≡ get (job_add_local job j).1 (m ∷ [])
get-stored_job job j m p q =
    let numbered = (job_add_local job j).1 in
    get-clone (update_message (named_job (clone numbered))) m
    ∙ get-update_message (named_job (clone numbered)) m q
    ∙ get-named_job (clone numbered) m p
    ∙ get-clone numbered m

pub get-numbered_id :
    (job : Hash) (j : JobDb)
    → (get (job_add_local job j).1 (codes "id" ∷ [])
        ≡ decimal j.next_id ∷ drop 1 (get job (codes "id" ∷ [])))
      × (get (job_add_local job j).1 (codes "original_id" ∷ [])
          ≡ decimal j.next_id ∷ drop 1 (get job (codes "original_id" ∷ [])))
unfolding job_add_local text_eq
get-numbered_id job j =
    let id = decimal j.next_id in
    let with_id = set_field job (codes "id") id in
    (
      get-set_field_other with_id (codes "original_id") id (codes "id") refl
          ∙ get-set_field_same job (codes "id") id,
      get-set_field_same with_id (codes "original_id") id
          ∙ ap (λ l. id ∷ drop 1 l)
              (get-set_field_other job (codes "id") id (codes "original_id") refl),
    )

items_of-add_items :
    (db : Db) (x : Hash) → items_of (add_items db (x ∷ [])) ≡ items_of db ++ clone x ∷ []
unfolding add_items
items_of-add_items db x =
    ap (λ h. children (items h))
      (hash-persist_job (record db { hash = add_clones db.hash (x ∷ []) }))
    ∙ children-add_clones (x ∷ []) db.hash

db-look_up_name : (job : Hash) (m : Text) (j : JobDb) → (look_up_name job m j).db ≡ j.db
unfolding look_up_name
db-look_up_name job m j =
    elim (Bool-cases (text_eq (field job (codes "plainname")) (codes "none"))) [
      | inl e ↦ rw e
      | inr e ↦ rw e
    ]

items-run_add :
    (job : Hash) (j : JobDb)
    → items_of (run_add job j).db ≡ items_of j.db ++ clone (update_message (named_job job)) ∷ []
unfolding run_add
items-run_add job j =
    let named = named_job job in
    let looked = look_up_name named (field named (codes "macaddress")) j in
    items_of-add_items looked.db (update_message named)
    ∙ ap (λ db. items_of db ++ clone (update_message named) ∷ [])
        (db-look_up_name named (field named (codes "macaddress")) j)

handle_only :
    (r : Request) (j : JobDb)
    → j.panicked ≡ false
    → j.requests ≡ r ∷ []
    → handle_request j ≡ run r (record j { requests = [] })
unfolding handle_request
handle_only r j p e = rw (p, e)

panicked-job_add_local : (job : Hash) (j : JobDb) → (job_add_local job j).0.panicked ≡ j.panicked
unfolding job_add_local
panicked-job_add_local job j = refl

requests-job_add_local :
    (job : Hash) (j : JobDb)
    → j.requests ≡ []
    → (job_add_local job j).0.requests ≡ add_job (clone (job_add_local job j).1) ∷ []
unfolding job_add_local
requests-job_add_local job j e = rw e

added_items :
    (job : Hash) (j : JobDb) (rest : List Request)
    → items_of (run (add_job job) (record j { requests = rest })).db
      ≡ items_of j.db ++ clone (update_message (named_job job)) ∷ []
unfolding run
added_items job j rest = items-run_add job (record j { requests = rest })

db-job_add_local : (job : Hash) (j : JobDb) → (job_add_local job j).0.db ≡ j.db
unfolding job_add_local
db-job_add_local job j = refl

-- Where the program goes on and no other request waits, the job of a call of JobAddLocal comes behind the
-- jobs of the database when the next request is carried out. The stored job and the caller's have the next
-- free number as their first `id` and `original_id`, and that number is used up.
pub job_add_local_lem :
    (job : Hash) (j : JobDb)
    → j.panicked ≡ false
    → j.requests ≡ []
    → (items_of (handle_request (job_add_local job j).0).db
        ≡ items_of j.db ++ stored_job job j ∷ [])
      × (get (stored_job job j) (codes "id" ∷ [])
          ≡ decimal j.next_id ∷ drop 1 (get job (codes "id" ∷ [])))
      × (get (stored_job job j) (codes "original_id" ∷ [])
          ≡ decimal j.next_id ∷ drop 1 (get job (codes "original_id" ∷ [])))
      × ((job_add_local job j).0.next_id ≡ suc j.next_id % 2 ^ 64)
job_add_local_lem job j p e = (
  ap (λ k. items_of k.db)
        (handle_only (add_job (clone (job_add_local job j).1)) (job_add_local job j).0
          (panicked-job_add_local job j ∙ p) (requests-job_add_local job j e))
      ∙ added_items (clone (job_add_local job j).1) (job_add_local job j).0 []
      ∙ ap (λ db. items_of db ++ stored_job job j ∷ []) (db-job_add_local job j),
  unfold text_eq in get-stored_job job j (codes "id") refl refl ∙ (get-numbered_id job j).0,
  unfold text_eq in
      get-stored_job job j (codes "original_id") refl refl ∙ (get-numbered_id job j).1,
  unfold job_add_local in refl,
)
