-- ===== src/Action/Periodic/Rounds.antt =====
-- The loop of go-susi/action/process_act.go that looks for the time of the next instance of a periodic job.
use limux_gosa.Base.{
  ℕ, zero, suc, ◌+◌, ◌*◌, ◌%◌, ◌^◌, ◌<◌, ◌≤◌, true, false, Option, none, some, ltb, ltb→lt,
  if◌then◌else◌, ◌≡◌, refl, sym, ap, ◌∙◌, arith, inl, inr, Bool-cases, eq_of_some,
}
use native.Mathlib.Nat.{mul-le-mul_right}
use limux_gosa.Base.Int.{pos, wrap64, wrap64_small, scale, signed}
use limux_gosa.Base.Text.{Text, codes, text_eq}
use limux_gosa.Action.Periodic.{Calendar, reached, unfinished, duration, advance, next_time}

-- The units that stand for a number of nanoseconds.
unfoldable pub time_unit : Text → Option ℕ
time_unit unit =
    if text_eq unit (codes "seconds")
    then some (10 ^ 9)
    else if text_eq unit (codes "minutes")
    then some (60 * 10 ^ 9)
    else if text_eq unit (codes "hours")
    then some (3600 * 10 ^ 9)
    else none

signed_small : (w : ℕ) → w < 2 ^ 63 → signed w ≡ pos w
unfolding signed
signed_small w h = ground arith

time_unit_positive : (unit : Text) (length : ℕ) → time_unit unit ≡ some length → 1 ≤ length
unfolding time_unit
time_unit_positive unit length h = elim (Bool-cases (text_eq unit (codes "seconds"))) [
  | inl e ↦ let v : 10 ^ 9 ≡ length = eq_of_some (rw e at h) in omega (arith, v)
  | inr e ↦ elim (Bool-cases (text_eq unit (codes "minutes"))) [
    | inl f ↦ let v : 60 * 10 ^ 9 ≡ length = eq_of_some (rw (e, f) at h) in omega (arith, v)
    | inr f ↦ elim (Bool-cases (text_eq unit (codes "hours"))) [
      | inl g ↦ let v : 3600 * 10 ^ 9 ≡ length = eq_of_some (rw (e, f, g) at h) in omega (arith, v)
      | inr g ↦ let none_is_some : none ≡ some length = rw (e, f, g) at h in cc none_is_some
    ]
  ]
]

module _ {T : Type 0} (calendar : Calendar T) where
  advance_unit :
      (unit : Text) (length period : ℕ) (t : T)
      → time_unit unit ≡ some length
      → advance calendar unit period t ≡ some (calendar.plus (duration calendar length period) t)
  unfolding time_unit advance
  advance_unit unit length period t h = elim (Bool-cases (text_eq unit (codes "seconds"))) [
    | inl e ↦
        rw e
          (ap (λ k. some (calendar.plus (duration calendar k period) t)) (eq_of_some (rw e at h)))
    | inr e ↦ elim (Bool-cases (text_eq unit (codes "minutes"))) [
      | inl f ↦
          rw (e, f)
            (ap (λ k. some (calendar.plus (duration calendar k period) t))
              (eq_of_some (rw (e, f) at h)))
      | inr f ↦ elim (Bool-cases (text_eq unit (codes "hours"))) [
        | inl g ↦
            rw (e, f, g)
              (ap (λ k. some (calendar.plus (duration calendar k period) t))
                (eq_of_some (rw (e, f, g) at h)))
        | inr g ↦ let none_is_some : none ≡ some length = rw (e, f, g) at h in cc none_is_some
      ]
    ]
  ]

  duration_small :
      (length period : ℕ)
      → period < 2 ^ 63
      → length * period < 2 ^ 63
      → duration calendar length period ≡ pos (length * period)
  unfolding scale
  duration_small length period h g = rw (signed_small period h) (wrap64_small (length * period) g)

  duration_over :
      (length period : ℕ)
      → period < 2 ^ 63
      → (length * period) % 2 ^ 64 ≡ 0
      → duration calendar length period ≡ pos 0
  unfolding scale wrap64
  duration_over length period h g = rw (signed_small period h, g) (signed_small 0 (omega arith))

  -- A round of the loop.
  next_time-later :
      (fuel : ℕ) (now : ℕ → T) (unit : Text) (period i : ℕ) (t t' : T)
      → advance calendar unit period t ≡ some t'
      → calendar.is_before t' (now i) ≡ true
      → next_time calendar (suc fuel) now unit period i t
        ≡ next_time calendar fuel now unit period (suc i) t'
  unfolding next_time
  next_time-later fuel now unit period i t t' a b = rw (a, b, next_time)

  next_time-reached :
      (fuel : ℕ) (now : ℕ → T) (unit : Text) (period i : ℕ) (t t' : T)
      → advance calendar unit period t ≡ some t'
      → calendar.is_before t' (now i) ≡ false
      → next_time calendar (suc fuel) now unit period i t ≡ reached t'
  unfolding next_time
  next_time-reached fuel now unit period i t t' a b = rw (a, b, next_time)

-- A calendar whose times are numbers of nanoseconds, by `place`, with what package time documents of Add
-- and Before.
module _ {T : Type 0} (calendar : Calendar T) (place : T → ℕ)
    (place-plus : (d : ℕ) (t : T) → place (calendar.plus (pos d) t) ≡ place t + d)
    (is_before_place : (t u : T) → calendar.is_before t u ≡ ltb (place t) (place u)) where
  abbrev pub Reaches : ℕ → (ℕ → T) → Text → ℕ → ℕ → ℕ → T → Type 0
  Reaches fuel now unit period d i t =
      (m : ℕ) × (t' : T) × (next_time calendar fuel now unit period i t ≡ reached t')
      × (place t' ≡ place t + (m * d + d))
      × (place (now (i + m)) ≤ place t')
      × ((j : ℕ) → j < m → place t + (j * d + d) < place (now (i + j)))

  stop_here :
      (fuel : ℕ) (now : ℕ → T) (unit : Text) (period d i : ℕ) (t : T)
      → ((u : T) → advance calendar unit period u ≡ some (calendar.plus (pos d) u))
      → calendar.is_before (calendar.plus (pos d) t) (now i) ≡ false
      → Reaches (suc fuel) now unit period d i t
  stop_here fuel now unit period d i t step h =
      let t' = calendar.plus (pos d) t in
      let e : ltb (place t') (place (now i)) ≡ false = sym (is_before_place t' (now i)) ∙ h in
      let here : i + 0 ≡ i = omega arith in
      (
        0,
        t',
        next_time-reached calendar fuel now unit period i t t' (step t) h,
        omega (arith, place-plus d t),
        rw here (ground arith),
        λ j g. absurd (ground arith),
      )

  earlier_rounds :
      (p : ℕ → ℕ) (c d m : ℕ)
      → c + d < p 0
      → ((j : ℕ) → j < m → c + d + (j * d + d) < p (suc j))
      → (j : ℕ) → j < suc m
      → c + (j * d + d) < p j
  earlier_rounds p c d m first others zero h = omega (arith, first)
  earlier_rounds p c d m first others (suc j) h = omega (arith, others j (omega arith))

  -- The round of the step, in front of those of the others.
  one_more :
      (fuel : ℕ) (now : ℕ → T) (unit : Text) (period d i : ℕ) (t : T)
      → ((u : T) → advance calendar unit period u ≡ some (calendar.plus (pos d) u))
      → calendar.is_before (calendar.plus (pos d) t) (now i) ≡ true
      → Reaches fuel now unit period d (suc i) (calendar.plus (pos d) t)
      → Reaches (suc fuel) now unit period d i t
  one_more fuel now unit period d i t step h (m, t'', e, at, late, earlier) =
      let t' = calendar.plus (pos d) t in
      let shift : (j : ℕ) → place (now (suc i + j)) ≡ place (now (i + suc j)) =
        λ j. ap (λ k. place (now k)) (omega arith) in
      let first : ltb (place t') (place (now i)) ≡ true = sym (is_before_place t' (now i)) ∙ h in
      let here : place (now (i + 0)) ≡ place (now i) = ap (λ k. place (now k)) (omega arith) in
      (
        suc m,
        t'',
        next_time-later calendar fuel now unit period i t t' (step t) h ∙ e,
        omega (arith, place-plus d t, at),
        omega (arith, shift m, late),
        earlier_rounds (λ j. place (now (i + j))) (place t) d m
            (omega (arith, here, ltb→lt (place t') (place (now i)) first, place-plus d t))
            (λ j g. omega (arith, shift j, earlier j g, place-plus d t)),
      )

  -- The rounds from one on, for a step of d nanoseconds.
  rounds :
      (fuel : ℕ) (now : ℕ → T) (unit : Text) (period d i bound : ℕ) (t : T)
      → ((u : T) → advance calendar unit period u ≡ some (calendar.plus (pos d) u))
      → ((j : ℕ) → place (now j) ≤ bound)
      → bound ≤ place t + (fuel * d + d)
      → Reaches (suc fuel) now unit period d i t
  rounds zero now unit period d i bound t step limit enough =
      let t' = calendar.plus (pos d) t in
      let over : ltb (place t') (place (now i)) ≡ false = ground (arith, limit i, place-plus d t) in
      stop_here zero now unit period d i t step (is_before_place t' (now i) ∙ over)
  rounds (suc fuel) now unit period d i bound t step limit enough =
      let t' = calendar.plus (pos d) t in
      elim (Bool-cases (calendar.is_before t' (now i))) [
        | inr h ↦ stop_here (suc fuel) now unit period d i t step h
        | inl h ↦ one_more (suc fuel) now unit period d i t step h (
            rounds fuel now unit period d (suc i) bound t' step limit
              (omega (arith, place-plus d t)))
      ]

  -- With a period of seconds, minutes or hours that is no 0 and comes to less than 2^63 nanoseconds, and a
  -- clock that stays below some bound, the loop ends. It has added the period at least once; the time it
  -- returns is not before what the clock told in its last round, and each earlier time was before what the
  -- clock told then. A round for each period up to the bound is enough.
  pub next_time_lem :
      (fuel : ℕ) (now : ℕ → T) (unit : Text) (length period bound : ℕ) (t : T)
      → time_unit unit ≡ some length
      → 0 < period
      → length * period < 2 ^ 63
      → ((j : ℕ) → place (now j) ≤ bound)
      → bound ≤ place t + fuel
      → Reaches (suc fuel) now unit period (length * period) 0 t
  next_time_lem fuel now unit length period bound t h p small limit enough =
      let unit_positive : 1 ≤ length = time_unit_positive unit length h in
      let at_least : 1 * period ≤ length * period =
        mul-le-mul_right {m = 1} {n = length} period unit_positive in
      let each : 1 * fuel ≤ (length * period) * fuel =
        mul-le-mul_right {m = 1} {n = length * period} fuel (omega arith) in
      rounds fuel now unit period (length * period) 0 bound t
        (λ u.
          rw
            (
              advance_unit calendar unit length period u h,
              duration_small calendar length period (omega arith) small,
            )
            refl)
        limit (omega (arith, each))

  -- A period of seconds, minutes or hours that comes to a multiple of 2^64 nanoseconds is no period: the
  -- loop does not end, however many rounds it has, if the time of the job is before what the clock tells.
  pub next_time_overflow :
      (fuel : ℕ) (now : ℕ → T) (unit : Text) (length period i : ℕ) (t : T)
      → time_unit unit ≡ some length
      → period < 2 ^ 63
      → (length * period) % 2 ^ 64 ≡ 0
      → ((j : ℕ) → place t < place (now j))
      → next_time calendar fuel now unit period i t ≡ unfinished
  unfolding next_time
  next_time_overflow zero now unit length period i t h small over later = refl
  next_time_overflow (suc fuel) now unit length period i t h small over later =
      let t' = calendar.plus (pos 0) t in
      let same : place t' ≡ place t = omega (arith, place-plus 0 t) in
      let before : calendar.is_before t' (now i) ≡ true =
        is_before_place t' (now i) ∙ ground (arith, later i) in
      next_time-later calendar fuel now unit period i t t'
        (rw
          (
            advance_unit calendar unit length period t h,
            duration_over calendar length period small over,
          )
          refl)
        before
      ∙ next_time_overflow fuel now unit length period (suc i) t' h small over
          (λ j. rw same (later j))
