-- ===== src/Action/Periodic.antt =====
-- go-susi/action/process_act.go: the next instance of a periodic job. Package time and the time stamps of
-- golib are a parameter.
pub mod Rounds
use limux_gosa.Base.{
  ℕ, zero, suc, ◌+◌, ◌*◌, ◌%◌, ◌^◌, Bool, true, false, ◌||◌, Option, none, some, List, [], ◌∷◌,
  ◌==◌, if◌then◌else◌,
}
use limux_gosa.Base.Int.{ℤ, pos, wrap64, scale, signed}
use limux_gosa.Base.Text.{Text, codes, text_eq, parse_uint}
use limux_gosa.Xml.Hash.{Hash, field, set_field}
use limux_gosa.Jobs.{job_add_local}
use limux_gosa.Action.{World, Known, finish, take_action}

-- `Time.Add`, for nanoseconds, `Time.AddDate`, for years, months and days, `Time.Before`, `ParseTimestamp`
-- and `MakeTimestamp`.
pub record Calendar (T : Type 0) : Type 0 where
  pub plus : ℤ → T → T
  pub add_date : ℤ → ℤ → ℤ → T → T
  pub is_before : T → T → Bool
  pub parse_timestamp : Text → T
  pub make_timestamp : T → Text

pub data Next (T : Type 0) : Type 0 where
  reached : T → Next T
  unknown_unit : Next T
  unfinished : Next T

module _ {T : Type 0} (calendar : Calendar T) where
  -- `time.Duration(period)*unit` as an int64, for a unit of so many nanoseconds
  abbrev pub duration : ℕ → ℕ → ℤ
  duration unit period = wrap64 (scale unit (signed period))

  -- The switch over the unit.
  unfoldable pub advance : Text → ℕ → T → Option T
  unfolding wrap64 scale signed
  advance unit period t =
      if text_eq unit (codes "seconds")
      then some (calendar.plus (duration (10 ^ 9) period) t)
      else if text_eq unit (codes "minutes")
      then some (calendar.plus (duration (60 * 10 ^ 9) period) t)
      else if text_eq unit (codes "hours")
      then some (calendar.plus (duration (3600 * 10 ^ 9) period) t)
      else if text_eq unit (codes "days")
      then some (calendar.add_date (pos 0) (pos 0) (signed period) t)
      else if text_eq unit (codes "weeks")
      then some (calendar.add_date (pos 0) (pos 0) (signed (period * 7 % 2 ^ 64)) t)
      else if text_eq unit (codes "months")
      then some (calendar.add_date (pos 0) (signed period) (pos 0) t)
      else if text_eq unit (codes "years")
      then some (calendar.add_date (signed period) (pos 0) (pos 0) t)
      else none

  -- The loop; `now i` is what the clock tells in round i.
  unfoldable pub next_time : ℕ → (ℕ → T) → Text → ℕ → ℕ → T → Next T
  unfolding advance
  next_time zero now unit period i t = unfinished
  next_time (suc fuel) now unit period i t = elim (advance unit period t) [
    | none ↦ unknown_unit
    | some t' ↦ elim (calendar.is_before t' (now i)) [
      | true ↦ next_time fuel now unit period (suc i) t'
      | false ↦ reached t'
    ]
  ]

  -- The job of the next instance.
  unfoldable pub next_instance : T → Hash → Hash
  next_instance t job =
      set_field
        (set_field
          (set_field (set_field job (codes "timestamp") (calendar.make_timestamp t))
            (codes "result") (codes "none"))
          (codes "progress") (codes "none"))
        (codes "status") (codes "waiting")

  -- What follows the loop; a loop that does not end leaves the goroutine running.
  unfoldable pub after_loop : Next T → Hash → World → World
  unfolding next_instance job_add_local
  after_loop (reached t) job w = record w { jobs = (job_add_local (next_instance t job) w.jobs).0 }
  after_loop unknown_unit job w = w
  after_loop unfinished job w = w

  -- `if err != nil || period == 0`
  unfoldable pub with_period : ℕ → (ℕ → T) → Option ℕ → Text → Hash → World → World
  unfolding next_time after_loop
  with_period fuel now none unit job w = w
  with_period fuel now (some period) unit job w =
      if period == 0
      then w
      else after_loop
          (next_time fuel now unit period 0
            (calendar.parse_timestamp (field job (codes "timestamp"))))
          job w

  -- `len(p) != 2`, for what `strings.Split` makes of the text.
  unfoldable pub with_parts : ℕ → (ℕ → T) → List Text → Hash → World → World
  unfolding with_period parse_uint
  with_parts fuel now (p ∷ unit ∷ []) job w = with_period fuel now (parse_uint p) unit job w
  with_parts fuel now _ job w = w

-- `strings.Split(s, "_")`
onto_first : ℕ → List Text → List Text
onto_first c [] = (c ∷ []) ∷ []
onto_first c (s ∷ parts) = (c ∷ s) ∷ parts

unfoldable pub split_periodic : Text → List Text
unfolding onto_first
split_periodic [] = [] ∷ []
split_periodic (c ∷ s) =
    let parts = split_periodic s in if c == b'_' then [] ∷ parts else onto_first c parts

-- The goroutine for a job that is done.
unfoldable pub job_done : {T : Type 0} → Calendar T → ℕ → (ℕ → T) → Known → Hash → World → World
unfolding finish with_parts split_periodic
job_done calendar fuel now k job w =
    let periodic = field job (codes "periodic") in
    let w' = finish k job w in
    if text_eq periodic (codes "none") || text_eq periodic []
    then w'
    else with_parts calendar fuel now (split_periodic periodic) job w'

-- `Init`: what is done with a job from PendingActions.
unfoldable pub handle_pending :
    {T : Type 0} → Calendar T → ℕ → (ℕ → T) → Known → Hash → World → World
unfolding job_done take_action
handle_pending calendar fuel now k job w =
    if text_eq (field job (codes "status")) (codes "done")
    then job_done calendar fuel now k job w
    else take_action k job w
