-- ===== src/Xml/Db/Persistence.antt =====
-- That changes reach the storer: the persist jobs of go-susi/xml/xml_db.go.
use limux_gosa.Base.{
  ◌-◌, ◌<◌, Bool, true, false, some, List, ◌≡◌, refl, ◌⊎◌, inl, inr, arith, Bool-cases,
}
use limux_gosa.Xml.Hash.{Hash}
use limux_gosa.Xml.Filter.{Filter}
use limux_gosa.Xml.Db.{Db, persist_job, persist, shutdown, add_items, remove, replace}

-- The steps of a running database: the calls of clients in any order, and the persist jobs, each when its
-- delay is over. `Store` succeeds or fails as it likes.
pub data Step : Db → Db → Type 0 where
  adds : (db : Db) (xs : List Hash) → db.is_shut_down ≡ false → Step db (add_items db xs)
  removes : (db : Db) (f : Filter) → db.is_shut_down ≡ false → Step db (remove db f).1
  replaces :
      (db : Db) (f : Filter) (must_match : Bool) (xs : List Hash)
      → db.is_shut_down ≡ false
      → Step db (replace db f must_match xs).1
  persists : (db : Db) (stores : Bool) → db.is_shut_down ≡ false → Step db (persist stores db)
  runs_job :
      (db : Db) (stores : Bool)
      → db.is_shut_down ≡ false
      → 0 < db.jobs
      → Step db (persist stores (record db { jobs = db.jobs - 1 }))
  shuts_down : (db : Db) (stores : Bool) → db.is_shut_down ≡ false → Step db (shutdown stores db)

pub data Steps (start : Db) : Db → Type 0 where
  here : Steps start start
  next : {a b : Db} → Steps start a → Step a b → Steps start b

-- The storer has the present data, or the database is up and a job is pending that will call the storer, or
-- the last call of the storer failed.
abbrev pub IsSafe : Db → Type 0
IsSafe db =
    (db.stored ≡ some db.hash)
    ⊎ ((0 < db.jobs) × (db.is_shut_down ≡ false))
    ⊎ (db.store_failed ≡ true)

pub record IsKept (db : Db) : Type 0 where
  pub storer : db.has_storer ≡ true
  pub blocked : db.is_shut_down ≡ false → db.block_persist_jobs ≡ true → 0 < db.jobs
  pub safe : IsSafe db

-- After `persist_job` a job is pending.
written-IsKept :
    (db : Db) (h : Hash)
    → db.is_shut_down ≡ false
    → IsKept db
    → IsKept (persist_job (record db { hash = h }))
unfolding persist_job
written-IsKept db h up k = elim (Bool-cases db.block_persist_jobs) [
  | inl e ↦
      let pending : 0 < db.jobs = k.blocked up e in
      rw e (record { storer = k.storer; blocked = λ _ _. pending; safe = inr (inl (pending, up)) })
  | inr e ↦ rw e (record {
    storer = k.storer;
    blocked = λ _ _. omega arith;
    safe = inr (inl (omega arith, up));
  })
]

persist-IsKept :
    (stores : Bool) (db : Db)
    → db.has_storer ≡ true
    → db.is_shut_down ≡ false
    → IsKept (persist stores db)
unfolding persist
persist-IsKept true db s up =
    rw s (record { storer = refl; blocked = λ _ c. cc c; safe = inl refl })
persist-IsKept false db s up =
    rw s (record { storer = refl; blocked = λ _ c. cc c; safe = inr (inr refl) })

shutdown-IsKept : (stores : Bool) (db : Db) → IsKept db → IsKept (shutdown stores db)
unfolding shutdown
shutdown-IsKept true db k = record { storer = k.storer; blocked = λ c. cc c; safe = inl refl }
shutdown-IsKept false db k = record {
  storer = k.storer;
  blocked = λ c. cc c;
  safe = inr (inr refl);
}

Step-IsKept : {a b : Db} → Step a b → IsKept a → IsKept b
unfolding add_items remove replace
Step-IsKept (adds db xs up) k = written-IsKept db _ up k
Step-IsKept (removes db f up) k = written-IsKept db _ up k
Step-IsKept (replaces db f must_match xs up) k = written-IsKept db _ up k
Step-IsKept (persists db stores up) k = persist-IsKept stores db k.storer up
Step-IsKept (runs_job db stores up p) k =
    persist-IsKept stores (record db { jobs = db.jobs - 1 }) k.storer up
Step-IsKept (shuts_down db stores up) k = shutdown-IsKept stores db k

Steps-IsKept : {a b : Db} → Steps a b → IsKept a → IsKept b
Steps-IsKept here k = k
Steps-IsKept (next r s) k = Step-IsKept s (Steps-IsKept r k)

-- From a database with a storer, whose data the storer has and which has no job scheduled, no sequence of
-- reads and writes, persist jobs, failures of Store and a Shutdown leads to a change that is lost
-- silently: the storer has the present data, or the database is not shut down and a persist job is
-- pending, or the last call of Store returned an error.
pub changes_are-IsSafe :
    (a b : Db)
    → a.has_storer ≡ true
    → a.stored ≡ some a.hash
    → a.block_persist_jobs ≡ false
    → Steps a b
    → IsSafe b
changes_are-IsSafe a b s e q r =
    (Steps-IsKept r (record { storer = s; blocked = λ _ c. cc (c, q); safe = inl e })).safe

-- A persist job that runs, and whose Store succeeds, leaves the storer with the present data and lets the
-- next change schedule a job again.
pub runs_job_lem :
    (db : Db)
    → db.has_storer ≡ true
    → ((persist true (record db { jobs = db.jobs - 1 })).stored ≡ some db.hash)
      × ((persist true (record db { jobs = db.jobs - 1 })).block_persist_jobs ≡ false)
unfolding persist
runs_job_lem db s = rw s (refl, refl)
