-- ===== src/Jobs/Laws.antt =====
-- What the removal of local jobs in go-susi/db/jobdb.go does to the database, to PendingActions and to
-- the peers.
use limux_gosa.Base.{
  ℕ, suc, ◌+◌, ltb, Bool, true, not, List, [], ◌∷◌, ◌++◌, map, append-nil, append_assoc, ◌≡◌, refl,
  arith, keep, length, some, ◌∙◌,
}
use limux_gosa.Base.Text.{Text, codes, decimal}
use limux_gosa.Xml.Hash.{
  Hash, element, name, items, children, clone, get, rename, add_with_ownership,
}
use limux_gosa.Xml.Hash.CloneFields.{get-clone}
use limux_gosa.Xml.Filter.{Filter}
use limux_gosa.Xml.Select.Laws.{remove_lem}
use limux_gosa.Xml.Db.{Db}
use limux_gosa.Xml.Db
use limux_gosa.Xml.Db.Laws.{items_of, hash-persist_job}
use limux_gosa.Jobs.{JobDb, push}
use limux_gosa.Jobs.Fields.{done_field, done_job_lem}
use limux_gosa.Jobs.Message.{new_updates, address_updates, rename_answer}
use limux_gosa.Jobs.Local.{done_job, remove_loop, send_answers, run_remove}

-- The answers of the message about the removed jobs, numbered from `count`.
unfoldable pub answers : Bool → ℕ → List Hash → List Hash
answers stop count [] = []
answers stop count (x ∷ xs) = rename_answer count (done_job stop x) ∷ answers stop (suc count) xs

unfoldable pub with_answers : Hash → List Hash → Hash
with_answers fju [] = fju
with_answers fju (a ∷ more) = with_answers (add_with_ownership fju a) more

remove_loop_lem :
    (stop : Bool) (xs : List Hash) (n : ℕ) (fju : Hash) (j : JobDb)
    → remove_loop stop xs n fju j ≡ (
      n + length xs,
      with_answers fju (answers stop n xs),
      record j { pending = j.pending ++ map (λ x. clone (done_job stop x)) xs },
    )
unfolding remove_loop answers with_answers
remove_loop_lem stop [] n fju j = let e : n + 0 ≡ n = omega arith in rw (append-nil j.pending, e)
remove_loop_lem stop (x ∷ xs) n fju j =
    let done = done_job stop x in
    let e : n + suc (length xs) ≡ suc n + length xs = omega arith in
    rw (e, ← append_assoc j.pending (clone done ∷ []) (map (λ y. clone (done_job stop y)) xs))
      (remove_loop_lem stop xs (suc n) (add_with_ownership fju (rename_answer n done))
        (push j (clone done)))

pub db_remove_lem :
    (db : Db) (f : Filter)
    → (children (items (Db.remove db f).0) ≡ keep (λ x. f (some x)) (items_of db))
      × (items_of (Db.remove db f).1 ≡ keep (λ x. not (f (some x))) (items_of db))
unfolding Db.remove
db_remove_lem db f = let (r, k, _, _) = remove_lem f db.hash in (r, rw (hash-persist_job) k)

-- The messages that are sent for these answers: one, or none where there is no answer.
unfoldable pub broadcast : Text → List Hash → List Hash
unfolding with_answers
broadcast server [] = []
broadcast server (a ∷ more) = address_updates server [] (with_answers new_updates (a ∷ more)) ∷ []

send_answers_lem :
    (gone : List Hash) (stop : Bool) (j : JobDb)
    → send_answers (1 + length gone, with_answers new_updates (answers stop 1 gone), j)
      ≡ record j { updates = j.updates ++ broadcast j.server (answers stop 1 gone) }
unfolding send_answers answers broadcast
send_answers_lem [] stop j = rw (append-nil j.updates)
send_answers_lem (x ∷ xs) stop j = let e : ltb 1 (1 + suc (length xs)) ≡ true = ground arith in rw e

-- Jobs with the fields of these jobs once they are done.
abbrev pub AreDone : Bool → List Hash → List Hash → Type 0
AreDone stop [] [] = Unit
AreDone stop (x ∷ xs) (y ∷ ys) =
    ((m : Text) → get y (m ∷ []) ≡ done_field stop x m) × AreDone stop xs ys
AreDone stop _ _ = ⊥

-- The names "answer1", "answer2" and so on, from a number on.
abbrev pub AreNumbered : ℕ → List Hash → Type 0
AreNumbered n [] = Unit
AreNumbered n (a ∷ more) = (name a ≡ codes "answer" ++ decimal n) × AreNumbered (suc n) more

AreDone-clones :
    (stop : Bool) (xs : List Hash) → AreDone stop xs (map (λ x. clone (done_job stop x)) xs)
AreDone-clones stop [] = tt
AreDone-clones stop (x ∷ xs) =
    (λ m. get-clone (done_job stop x) m ∙ done_job_lem stop x m, AreDone-clones stop xs)

get-rename : (h : Hash) (n m : Text) → get (rename h n) (m ∷ []) ≡ get h (m ∷ [])
unfolding get
get-rename (element o is) n m = refl

rename_answer_lem :
    (n : ℕ) (h : Hash)
    → (name (rename_answer n h) ≡ codes "answer" ++ decimal n)
      × ((m : Text) → get (rename_answer n h) (m ∷ []) ≡ get h (m ∷ []))
unfolding rename_answer
rename_answer_lem n (element o is) =
    (refl, λ m. get-rename (element o is) (codes "answer" ++ decimal n) m)

answers_lem :
    (stop : Bool) (n : ℕ) (xs : List Hash)
    → AreDone stop xs (answers stop n xs) × AreNumbered n (answers stop n xs)
unfolding answers
answers_lem stop n [] = (tt, tt)
answers_lem stop n (x ∷ xs) =
    let (e, f) = rename_answer_lem n (done_job stop x) in
    let (p, q) = answers_lem stop (suc n) xs in ((λ m. f m ∙ done_job_lem stop x m, p), (e, q))

module _ (f : Filter) (stop : Bool) (j : JobDb) where
  -- The local jobs that a filter selects.
  abbrev pub selected : List Hash
  selected = keep (λ x. f (some x)) (items_of j.db)

  run_remove_eq : run_remove f stop j ≡ record j {
    db = (Db.remove j.db f).1;
    pending = j.pending ++ map (λ x. clone (done_job stop x)) selected;
    updates = j.updates ++ broadcast j.server (answers stop 1 selected);
  }
  unfolding run_remove
  run_remove_eq =
      rw ((db_remove_lem j.db f).0, remove_loop_lem)
        (send_answers_lem selected stop (record j {
          db = (Db.remove j.db f).1;
          pending = j.pending ++ map (λ x. clone (done_job stop x)) selected;
        }))

  pub pending-run_remove :
      (run_remove f stop j).pending ≡ j.pending ++ map (λ x. clone (done_job stop x)) selected
  pending-run_remove = rw run_remove_eq refl

  -- A request to remove local jobs takes just the selected ones out of the database, in one step. It
  -- pushes one job for each of them into PendingActions, in order, and it sends one message to all peers
  -- with one answer for each, named "answer1", "answer2" and so on, or none where no job was selected. The
  -- first status of these jobs is "done", the first periodic is "none" where periodic jobs are stopped, the
  -- first `original_id` is dropped, the first `xmlmessage` is made anew, and the other texts are those of
  -- the removed job.
  pub run_remove_lem :
      (done answered : List Hash) × (items_of (run_remove f stop j).db
        ≡ keep (λ x. not (f (some x))) (items_of j.db))
      × ((run_remove f stop j).pending ≡ j.pending ++ done)
      × AreDone stop selected done
      × ((run_remove f stop j).updates ≡ j.updates ++ broadcast j.server answered)
      × AreDone stop selected answered
      × AreNumbered 1 answered
  run_remove_lem =
      let (p, q) = answers_lem stop 1 selected in
      (
        map (λ x. clone (done_job stop x)) selected,
        answers stop 1 selected,
        rw run_remove_eq ((db_remove_lem j.db f).1),
        pending-run_remove,
        AreDone-clones stop selected,
        rw run_remove_eq refl,
        p,
        q,
      )
