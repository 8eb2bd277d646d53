-- ===== src/Xml/Tests.antt =====
-- Runs of the definitions of go-susi/xml, and the theorems at inputs that meet their hypotheses.
use limux_gosa.Base.{
  true, false, not, ◌||◌, some, List, [], ◌∷◌, ◌++◌, map, ◌≡◌, ◌↔◌, refl, arith, keep, take, any,
  if◌then◌else◌,
}
use limux_gosa.Base.Int.{pos}
use limux_gosa.Base.Text.{codes, text_eq, lower}
use limux_gosa.Xml.Hash.{
  Hash, element, nil, text, child, items, set_text, new_hash, children, get, field, clone,
}
use limux_gosa.Xml.Hash.Copy.{HasNoEmptyText}
use limux_gosa.Xml.Filter.{Filter, filter_simple, filter_regexp, like_meta, match_string}
use limux_gosa.Xml.Filter.Likeness.{likes, OneLikes, filter_like_iff}
use limux_gosa.Xml.Filter.Meaning
use limux_gosa.Xml.Filter.Meaning.{Operator, Phrase, Clause, ReadsPhrase, ReadsClause}
use limux_gosa.Xml.Select.{query, limit_filter}
use limux_gosa.Xml.Select.Laws.{query-limit_filter}
use limux_gosa.Xml.Db.{Db, new_db, init, replace, add_items}
use limux_gosa.Xml.Db.Laws.{items_of, replace_lem}
use limux_gosa.Xml.Db.Persistence.{Step, Steps, IsSafe, changes_are-IsSafe}

-- <job><id>7</id><status>waiting</status><status>done</status>x</job>
abbrev job : Hash
job = element (codes "job") (
    child (element (codes "id") (text (codes "7") nil)) (
      child (element (codes "status") (text (codes "waiting") nil))
        (child (element (codes "status") (text (codes "done") nil)) (text (codes "x") nil))))

get_status : get job (codes "status" ∷ []) ≡ codes "waiting" ∷ codes "done" ∷ []
unfolding get text_eq
get_status = refl

new_hash_nested :
    field (new_hash (codes "job") (codes "status" ∷ codes "done" ∷ [])) (codes "status")
    ≡ codes "done"
unfolding new_hash set_text field text_eq
new_hash_nested = refl

job-HasNoEmptyText : HasNoEmptyText job
job-HasNoEmptyText = ((λ e. cc e, tt), ((λ e. cc e, tt), ((λ e. cc e, tt), (λ e. cc e, tt))))

-- A value that is like its pattern, and one that is not since a newline stands in it.
likeness :
    (filter_regexp (codes "status") (like_meta (codes "DO%_")) (some job) ≡ true)
    × (likes (codes "a%") (b'a' ∷ b'\n' ∷ []) ≡ false)
unfolding filter_regexp like_meta match_string get text_eq lower
likeness = (refl, refl)

filter_like_example :
    (filter_regexp (codes "status") (like_meta (codes "DO%_")) (some job) ≡ true)
    ↔ OneLikes (codes "DO%_") (get job (codes "status" ∷ []))
filter_like_example = filter_like_iff (codes "status") (codes "DO%_") job

-- <where><clause><phrase><operator>ge</operator><id>7</id></phrase></clause></where>
abbrev phrase : Hash
phrase = element (codes "phrase") (
    child (element (codes "operator") (text (codes "GE") nil))
      (child (element (codes "id") (text (codes "7") nil)) nil))

abbrev where_id : Hash
where_id = element (codes "where") (child (element (codes "clause") (child phrase nil)) nil)

abbrev id_phrase : Phrase
id_phrase = record { operator = Operator.at_least; column = codes "id"; value = codes "7" }

abbrev id_clauses : List Clause
id_clauses = record { is_or = false; phrases = id_phrase ∷ [] } ∷ []

abbrev is_done : Filter
is_done = filter_simple (codes "status" ∷ codes "DONE" ∷ [])

abbrev jobs : Hash
jobs = element (codes "jobdb") (child job (child job (child phrase nil)))

limit_example :
    children (items (query (limit_filter is_done (pos 1)) (pos 1) jobs).0)
    ≡ map clone (take 1 (keep (λ x. is_done (some x)) (children (items jobs))))
limit_example = query-limit_filter is_done 1 jobs (omega arith)

abbrev jobdb : Db
jobdb = init (new_db (codes "jobdb") true (some jobs)) jobs

replace_example :
    (children (items (replace jobdb is_done true (phrase ∷ [])).0)
      ≡ keep (λ x. is_done (some x)) (items_of jobdb))
    × (items_of (replace jobdb is_done true (phrase ∷ [])).1
        ≡ keep (λ x. not (is_done (some x))) (items_of jobdb)
          ++ (if not true || any (λ x. is_done (some x)) (items_of jobdb)
              then map clone (phrase ∷ [])
              else []))
replace_example = replace_lem jobdb is_done true (phrase ∷ [])

abbrev changed_jobdb : Db
changed_jobdb = add_items jobdb (phrase ∷ [])

changes_are-IsSafe_example : IsSafe changed_jobdb
unfolding new_db
changes_are-IsSafe_example =
    changes_are-IsSafe jobdb changed_jobdb refl refl refl
      (Steps.next Steps.here (Step.adds jobdb (phrase ∷ []) refl))
