-- ===== src/Jobs/Clock/Lag.antt =====
-- When the ticker of go-susi/db/jobdb.go grooms the jobs, and when it holds back.
use limux_gosa.Base.{
  ℕ, ◌+◌, ◌-◌, ◌%◌, ◌≤◌, ◌<◌, Bool, true, false, ◌≡◌, sym, subst, arith, leb, if◌then◌else◌,
}
use limux_gosa.Base.Int.{pos, neg_ℕ}
use limux_gosa.Jobs.Clock.{Clock, Action, ping, groom, ping_then_groom, groom_lag, tick_at, tick}

-- A clock that is d minutes ahead of the time for the next grooming.
lag_ahead :
    (m interval d : ℕ)
    → m < 1440
    → interval ≤ 720
    → d < 720
    → groom_lag ((m + interval + d) % 1440) (m + interval) ≡ pos d
unfolding groom_lag
lag_ahead m interval d hm hi hd = ground arith

lag_behind :
    (m interval d : ℕ)
    → m < 1440
    → interval ≤ 720
    → d < 720
    → groom_lag ((m + interval + 1440 - d) % 1440) (m + interval) ≡ neg_ℕ d
unfolding groom_lag
lag_behind m interval d hm hi hd = ground arith

-- The clock behind a tick at which grooming goes on, or is skipped after a jump forward.
abbrev pub next_clock : ℕ → ℕ → Clock
next_clock interval minutes = record { next_groom = minutes + interval; backwards_jump = false }

abbrev pub grooming : Bool → Action
grooming backwards_jump = if backwards_jump then ping_then_groom else groom

tick_ahead :
    (interval minutes d : ℕ) (c : Clock)
    → tick_at (pos d) interval minutes c
      ≡ ((if leb d 3 then grooming c.backwards_jump else ping), next_clock interval minutes)
unfolding tick_at
tick_ahead interval minutes d c = ground arith

tick_behind :
    (interval minutes d : ℕ) (c : Clock)
    → tick_at (neg_ℕ d) interval minutes c ≡ (
        if leb d 3
        then (grooming c.backwards_jump, next_clock interval minutes)
        else (ping, record c { backwards_jump = true }))
unfolding tick_at
tick_behind interval minutes d c = ground arith

module _ (m interval d : ℕ) (c : Clock) (hm : m < 1440) (hi : interval ≤ 720) (hd : d < 720)
    (hc : c.next_groom ≡ m + interval) where
  -- Whether the time of the next grooming is on this day or the next one: a tick up to three minutes
  -- late or early grooms the jobs, a minute later and with a ping if the clock had jumped backwards before.
  -- A later one only pings, and takes the time as it is for the next grooming; an earlier one only pings,
  -- keeps the time of the next grooming, and notes the jump. The interval is at most twelve hours, and
  -- the clock is off by less.
  pub tick_lem :
      (tick interval ((m + interval + d) % 1440) c ≡ (
        (if leb d 3 then grooming c.backwards_jump else ping),
        next_clock interval ((m + interval + d) % 1440),
      ))
      × (tick interval ((m + interval + 1440 - d) % 1440) c ≡ (
          if leb d 3
          then (grooming c.backwards_jump, next_clock interval ((m + interval + 1440 - d) % 1440))
          else (ping, record c { backwards_jump = true })))
  unfolding tick
  tick_lem =
      let late = (m + interval + d) % 1440 in
      let early = (m + interval + 1440 - d) % 1440 in
      let ahead : groom_lag late c.next_groom ≡ pos d =
        subst (λ n. groom_lag late n ≡ pos d) (sym hc) (lag_ahead m interval d hm hi hd) in
      let behind : groom_lag early c.next_groom ≡ neg_ℕ d =
        subst (λ n. groom_lag early n ≡ neg_ℕ d) (sym hc) (lag_behind m interval d hm hi hd) in
      (rw ahead (tick_ahead interval late d c), rw behind (tick_behind interval early d c))
