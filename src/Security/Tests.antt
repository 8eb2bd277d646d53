-- ===== src/Security/Tests.antt =====
-- Runs of the definitions of go-susi/security, and the theorems at inputs that meet their hypotheses.
use limux_gosa.Base.{◌+◌, ◌<◌, true, false, Option, some, [], ◌∷◌, ◌≡◌, refl, arith}
use limux_gosa.Base.Int.{ℤ, pos, ltb_ℤ, wrap64}
use limux_gosa.Base.Text.{Text, text_eq}
use limux_gosa.Security.Limits.{
  Limits, hour, reset, adjust, count_attempt, admits, admit, register_entry, before_colon, register,
  update, entry, put, bin_of,
}
use limux_gosa.Security.Limits.Rate.{overflow_passes_limit}
use limux_gosa.Security.Limits.Parallel.{
  World, Step, Steps, at_start, count_up, register_below_limit,
}

abbrev busy : ℤ → Limits
busy n = record {
  first = 0;
  last = hour;
  attempts = n;
  active = pos 0;
  max_active = pos 0;
  max_per_hour = pos 100;
}

overflow_example :
    ltb_ℤ
      (pos 100)
      (count_attempt
        (hour + 1)
        (adjust (hour + 1) (reset (hour + 1) (busy (pos 6000000))))).attempts
    ≡ false
overflow_example =
    overflow_passes_limit (hour + 1) 6000000 100 (busy (pos 6000000)) refl (omega arith)
      (omega arith) (omega arith) (omega arith) (omega arith)

-- An address is its own text here.
abbrev parse : Text → Option Text
parse s = some s

abbrev host : Text
host = 10 ∷ 1 ∷ []

abbrev addr : Text
addr = 10 ∷ 1 ∷ b':' ∷ b'9' ∷ []

reads_host : parse (before_colon addr) ≡ some host
unfolding before_colon
reads_host = refl

-- A connection of the host is admitted, and then the limit is set to two.
abbrev opened : World
opened = record {
  limiters = (register parse addr 5 at_start.limiters).1;
  open_now = count_up at_start.open_now host;
}

abbrev limited : World
limited = record opened { limiters = update host (pos 2) (pos 0) opened.limiters }

register_admits : (register parse addr 5 at_start.limiters).0 ≡ true
unfolding register entry register_entry admit admits count_attempt adjust reset
register_admits = refl

limited-Steps : Steps parse at_start limited
limited-Steps =
    Steps.next
      (Steps.next Steps.here
        (Step.opens at_start addr host 5 reads_host register_admits (omega arith)))
      (Step.updates opened host (pos 2) (pos 0))

abbrev host_limits : Limits
host_limits = record {
  first = 5;
  last = 5;
  attempts = pos 1;
  active = pos 1;
  max_active = pos 2;
  max_per_hour = pos 0;
}

limited_entry : entry limited.limiters host ≡ some host_limits
unfolding register update entry put bin_of text_eq before_colon register_entry admit admits
    count_attempt adjust reset wrap64
limited_entry = refl

admitted_again : (register parse addr 6 limited.limiters).0 ≡ true
unfolding register update entry put bin_of text_eq before_colon register_entry admit admits
    count_attempt adjust reset wrap64
admitted_again = refl

register_below_limit_example : limited.open_now host < 2
register_below_limit_example =
    register_below_limit parse limited addr host 6 2 host_limits limited-Steps reads_host
      limited_entry refl (omega arith) admitted_again
