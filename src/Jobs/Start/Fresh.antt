-- ===== src/Jobs/Start/Fresh.antt =====
-- The numbers of the jobs when go-susi/db/jobdb.go starts.
use limux_gosa.Base.{
  ℕ, ◌+◌, ◌%◌, ◌^◌, ◌<◌, ◌≤◌, Bool, true, false, ◌||◌, Option, none, some, List, [], ◌∷◌, ◌≡◌, refl,
  sym, ◌∙◌, ap, subst, arith, ltb, All, any, inl, inr, Option-cases, if◌then◌else◌, ◌≢◌, eq_of_some,
  drop,
}
use limux_gosa.Base.Text.{Text, codes, parse_uint, decimal}
use limux_gosa.Base.Text.Decimal.{parse_uint-decimal, parse_uint_below}
use limux_gosa.Xml.Hash.{Hash, items, named, field, get}
use limux_gosa.Xml.Filter.{filter_all, filter_not}
use limux_gosa.Xml.Db
use limux_gosa.Jobs.{JobDb, is_local, job_add_local, schedule}
use limux_gosa.Jobs.Adding.{get-numbered_id}
use limux_gosa.Jobs.Start.{start_db, count_jobs, numbered, jobs_init}

-- The jobs that a query of the whole database returns.
abbrev pub all_jobs : JobDb → List Hash
all_jobs j = named (codes "job") (items (Db.query j.db filter_all))

-- Whether the `id` of a job is no number.
unfoldable pub is_unnumbered : Hash → Bool
is_unnumbered job = elim (parse_uint (field job (codes "id"))) [ none ↦ true | some _ ↦ false ]

abbrev pub HasNumberUpTo : ℕ → Hash → Type 0
HasNumberUpTo n job = (k : ℕ) × (parse_uint (field job (codes "id")) ≡ some k) × (k ≤ n)

-- What the loop over the jobs comes to.
abbrev pub IsCounted : List Hash → ℕ → JobDb → Option (ℕ × JobDb) → Type 0
IsCounted jobs count j none = any is_unnumbered jobs ≡ true
IsCounted jobs count j (some (n, j')) =
    (any is_unnumbered jobs ≡ false)
    × (count ≤ n)
    × (n < 2 ^ 64)
    × All (HasNumberUpTo n) jobs
    × (j'.db ≡ j.db)
    × (j'.panicked ≡ j.panicked)

is_unnumbered-some :
    (job : Hash) (k : ℕ) → parse_uint (field job (codes "id")) ≡ some k → is_unnumbered job ≡ false
unfolding is_unnumbered
is_unnumbered-some job k e = rw (e, is_unnumbered)

is_unnumbered-none :
    (job : Hash) → parse_uint (field job (codes "id")) ≡ none → is_unnumbered job ≡ true
unfolding is_unnumbered
is_unnumbered-none job e = rw (e, is_unnumbered)

-- The greater of the number so far and one more.
abbrev greater : ℕ → ℕ → ℕ
greater count k = if ltb count k then k else count

count_one_more :
    (job : Hash) (jobs : List Hash) (count k : ℕ) (j : JobDb) (r : Option (ℕ × JobDb))
    → parse_uint (field job (codes "id")) ≡ some k
    → IsCounted jobs (greater count k) (schedule j job) r
    → IsCounted (job ∷ jobs) count j r
count_one_more job jobs count k j none e c = rw (is_unnumbered-some job k e) c
count_one_more job jobs count k j (some (n, j')) e (c, l, b, more, db, p) =
    (rw (is_unnumbered-some job k e) c, ground arith, b, ((k, e, ground arith), more), db, p)

greater_below : (count k : ℕ) → count < 2 ^ 64 → k < 2 ^ 64 → greater count k < 2 ^ 64
greater_below count k h l = ground arith

count_jobs-none :
    (job : Hash) (jobs : List Hash) (count : ℕ) (j : JobDb)
    → parse_uint (field job (codes "id")) ≡ none
    → count_jobs (job ∷ jobs) count j ≡ none
unfolding count_jobs
count_jobs-none job jobs count j e = rw (e, count_jobs)

count_jobs-some :
    (job : Hash) (jobs : List Hash) (count k : ℕ) (j : JobDb)
    → parse_uint (field job (codes "id")) ≡ some k
    → count_jobs (job ∷ jobs) count j ≡ count_jobs jobs (greater count k) (schedule j job)
unfolding count_jobs
count_jobs-some job jobs count k j e = rw (e, count_jobs)

count_jobs-IsCounted :
    (jobs : List Hash) (count : ℕ) (j : JobDb)
    → count < 2 ^ 64
    → IsCounted jobs count j (count_jobs jobs count j)
unfolding count_jobs
count_jobs-IsCounted [] count j h = (refl, omega arith, h, tt, refl, refl)
count_jobs-IsCounted (job ∷ jobs) count j h =
    elim (Option-cases (parse_uint (field job (codes "id")))) [
      | inl e ↦
          subst (IsCounted (job ∷ jobs) count j) (sym (count_jobs-none job jobs count j e))
            (rw (is_unnumbered-none job e) refl)
      | inr (k, e) ↦
          let rest =
            count_jobs-IsCounted jobs (greater count k) (schedule j job)
              (greater_below count k h (parse_uint_below (field job (codes "id")) k e)) in
          subst (IsCounted (job ∷ jobs) count j) (sym (count_jobs-some job jobs count k j e)) (
            count_one_more job jobs count k j (count_jobs jobs (greater count k) (schedule j job)) e
              rest)
    ]

-- What the start does behind the loop, where it has `count` as its result.
numbered-panicked :
    (jobs : List Hash) (j : JobDb) (r : Option (ℕ × JobDb))
    → IsCounted jobs 0 j r
    → (numbered j r).panicked ≡ j.panicked || any is_unnumbered jobs
unfolding numbered
numbered-panicked jobs j none c = grind (arith, c)
numbered-panicked jobs j (some (n, j')) (c, l, b, more, db, p) = grind (arith, c, p)

fresh_number :
    (n : ℕ) (job : Hash)
    → HasNumberUpTo n job
    → n < 2 ^ 64
    → 0 < (n + 1) % 2 ^ 64
    → field job (codes "id") ≢ decimal ((n + 1) % 2 ^ 64)
fresh_number n job (k, e, l) h z c =
    let p : some k ≡ some ((n + 1) % 2 ^ 64) =
      sym e ∙ ap parse_uint c ∙ parse_uint-decimal ((n + 1) % 2 ^ 64) (omega arith) in
    let q = eq_of_some p in omega arith

field_numbered :
    (job : Hash) (j : JobDb)
    → drop 1 (get job (codes "id" ∷ [])) ≡ []
    → field (job_add_local job j).1 (codes "id") ≡ decimal j.next_id
unfolding field
field_numbered job j e = rw ((get-numbered_id job j).0, e)

-- The database of the start, before its jobs are counted.
abbrev pub local_jobs : Bool → Option Hash → JobDb → JobDb
local_jobs fresh file j = record j {
  db = (Db.remove (start_db fresh file) (filter_not (is_local j))).1;
}

jobs_init_eq :
    (fresh : Bool) (file : Option Hash) (j : JobDb)
    → jobs_init fresh file j
      ≡ numbered
          (local_jobs fresh file j)
          (count_jobs (all_jobs (local_jobs fresh file j)) 0 (local_jobs fresh file j))
unfolding jobs_init
jobs_init_eq fresh file j = refl

all_jobs-numbered :
    (jobs : List Hash) (j : JobDb) (r : Option (ℕ × JobDb))
    → IsCounted jobs 0 j r
    → all_jobs (numbered j r) ≡ all_jobs j
unfolding numbered
all_jobs-numbered jobs j none c = refl
all_jobs-numbered jobs j (some (n, j')) (c, l, b, more, db, p) =
    ap (λ d. named (codes "job") (items (Db.query d filter_all))) db

fresh_numbers :
    (n : ℕ) (jobs : List Hash) (t : Text)
    → n < 2 ^ 64
    → 0 < (n + 1) % 2 ^ 64
    → t ≡ decimal ((n + 1) % 2 ^ 64)
    → All (HasNumberUpTo n) jobs
    → All (λ x. t ≢ field x (codes "id")) jobs
fresh_numbers n [] t h z e p = tt
fresh_numbers n (x ∷ xs) t h z e (p, ps) =
    ((λ c. fresh_number n x p h z (sym c ∙ e)), fresh_numbers n xs t h z e ps)

numbered-IsFresh :
    (job : Hash) (jobs : List Hash) (j : JobDb) (r : Option (ℕ × JobDb))
    → IsCounted jobs 0 j r
    → drop 1 (get job (codes "id" ∷ [])) ≡ []
    → (numbered j r).panicked ≡ false
    → 0 < (numbered j r).next_id
    → All (λ x. field (job_add_local job (numbered j r)).1 (codes "id") ≢ field x (codes "id")) jobs
unfolding numbered
numbered-IsFresh job jobs j none c e p z = cc p
numbered-IsFresh job jobs j (some (n, j')) (c, l, b, more, db, q) e p z =
    let started = record j' { next_id = (n + 1) % 2 ^ 64 } in
    fresh_numbers n jobs (field (job_add_local job started).1 (codes "id")) b z
      (field_numbered job started e) more

module _ (fresh : Bool) (file : Option Hash) (j : JobDb) where
  abbrev pub base : JobDb
  base = local_jobs fresh file j

  abbrev pub result : Option (ℕ × JobDb)
  result = count_jobs (all_jobs base) 0 base

  pub counted : IsCounted (all_jobs base) 0 base result
  counted = count_jobs-IsCounted (all_jobs base) 0 base (omega arith)

  all_jobs-jobs_init : all_jobs (jobs_init fresh file j) ≡ all_jobs base
  all_jobs-jobs_init =
      ap all_jobs (jobs_init_eq fresh file j)
      ∙ all_jobs-numbered (all_jobs base) base result counted

  -- The start ends the program just where a job that it keeps has an id that is no number of 64 bits,
  -- unless the program had ended before.
  panicked-jobs_init :
      (jobs_init fresh file j).panicked
      ≡ j.panicked || any is_unnumbered (all_jobs (jobs_init fresh file j))
  panicked-jobs_init =
      ap (λ s. s.panicked) (jobs_init_eq fresh file j)
      ∙ numbered-panicked (all_jobs base) base result counted
      ∙ ap (λ l. j.panicked || any is_unnumbered l) (sym all_jobs-jobs_init)

  -- After a start that does not end the program, and that does not set the counter to 0, which is where the
  -- greatest number is the last one of 64 bits, the first job of a call of JobAddLocal, which brings no
  -- more than one id, has an id that no job of the database has.
  pub jobs_init-IsFresh :
      (job : Hash)
      → drop 1 (get job (codes "id" ∷ [])) ≡ []
      → (jobs_init fresh file j).panicked ≡ false
      → 0 < (jobs_init fresh file j).next_id
      → All
          (λ x.
            field (job_add_local job (jobs_init fresh file j)).1 (codes "id")
            ≢ field x (codes "id"))
          (all_jobs (jobs_init fresh file j))
  unfolding jobs_init
  jobs_init-IsFresh job e p z =
      subst
        (All (λ x.
          field (job_add_local job (jobs_init fresh file j)).1 (codes "id") ≢ field x (codes "id")))
        (sym all_jobs-jobs_init) (numbered-IsFresh job (all_jobs base) base result counted e p z)
