-- ===== src/Jobs/Clock.antt =====
-- The grooming times of `handleJobDBRequests` in go-susi/db/jobdb.go, which cope with a clock that jumps.
pub mod Lag
use limux_gosa.Base.{
  ℕ, suc, ◌+◌, ◌-◌, ◌*◌, ◌≤◌, ◌<◌, Bool, true, false, ◌≡◌, refl, arith, ltb, leb, if◌then◌else◌,
}
use limux_gosa.Base.Int.{ℤ, pos, negsuc, ltb_ℤ, leb_ℤ}

-- a - b, and x + n and x - n for a natural number.
abbrev pub minus : ℕ → ℕ → ℤ
minus a b = if leb b a then pos (a - b) else negsuc (b - a - 1)

unfoldable pub plus_ℕ : ℤ → ℕ → ℤ
plus_ℕ (pos a) n = pos (a + n)
plus_ℕ (negsuc a) n = minus n (a + 1)

unfoldable pub minus_ℕ : ℤ → ℕ → ℤ
minus_ℕ (pos a) n = minus a n
minus_ℕ (negsuc a) n = negsuc (a + n)

pub record Clock : Type 0 where
  -- `next_groom_minutes_since_midnight` and `backwardsjump`
  pub next_groom : ℕ
  pub backwards_jump : Bool

-- What a tick starts: a ping of processPendingActions, and a grooming, at once or a minute later.
pub data Action : Type 0 where
  ping groom ping_then_groom : Action

-- `groomlag`, in the range (-12*60,12*60].
unfoldable pub groom_lag : ℕ → ℕ → ℤ
unfolding plus_ℕ minus_ℕ
groom_lag minutes next =
    let lag = minus minutes next in
    let up = if leb_ℤ lag (negsuc 719) then plus_ℕ lag 1440 else lag in
    if ltb_ℤ (pos 720) up then minus_ℕ up 1440 else up

-- `case _ = <-groom_ticker`, with the interval in minutes and the minutes since midnight.
tick_at : ℤ → ℕ → ℕ → Clock → Action × Clock
tick_at lag interval minutes c =
    if ltb_ℤ (pos 3) lag
    then (ping, record c { next_groom = minutes + interval; backwards_jump = false })
    else if ltb_ℤ lag (negsuc 2)
    then (ping, record c { backwards_jump = true })
    else (
      (if c.backwards_jump then ping_then_groom else groom),
      record c { next_groom = minutes + interval; backwards_jump = false },
    )

unfoldable pub tick : ℕ → ℕ → Clock → Action × Clock
unfolding tick_at
tick interval minutes c = tick_at (groom_lag minutes c.next_groom) interval minutes c
