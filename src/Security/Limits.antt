-- ===== src/Security/Limits.antt =====
-- go-susi/security/connectionlimits.go: how many connections a client may have open, and make in an hour.
-- Times are nanoseconds. A limiter's mutex makes each of the three functions one step.
pub mod Rate
pub mod Parallel
use limux_gosa.Base.{
  ℕ, zero, suc, ◌+◌, ◌-◌, ◌*◌, ◌^◌, Bool, true, false, not, ◌&&◌, ◌||◌, Option, none, some, List,
  [], ◌∷◌, ◌==◌, ltb, if◌then◌else◌,
}
use limux_gosa.Base.Int.{ℤ, pos, negsuc, ltb_ℤ, leb_ℤ, suc_ℤ, pred_ℤ, wrap64, scale, quotient}
use limux_gosa.Base.Text.{Text, text_eq}

abbrev pub minute : ℕ
minute = 60000000000

abbrev pub hour : ℕ
hour = 3600000000000

-- `limits`
pub record Limits : Type 0 where
  pub first : ℕ
  pub last : ℕ
  pub attempts : ℤ
  pub active : ℤ
  pub max_active : ℤ
  pub max_per_hour : ℤ

abbrev pub new_limits : ℕ → Limits
new_limits now = record {
  first = now;
  last = now;
  attempts = pos 0;
  active = pos 0;
  max_active = pos 0;
  max_per_hour = pos 0;
}

-- `t.Before(now.Add(-1*time.Hour))`
unfoldable pub is_before_hour : ℕ → ℕ → Bool
is_before_hour now t = ltb (t + hour) now

-- "if last connection attempt is more than 1h ago, reset time limits"
unfoldable pub reset : ℕ → Limits → Limits
unfolding is_before_hour
reset now l =
    if is_before_hour now l.last then record l { last = now; first = now; attempts = pos 0 } else l

-- The attempts of half an hour at the average rate: `30*time.Minute*time.Duration(lim.attempts)` is an
-- int64 product.
unfoldable pub half_hour_share : ℕ → Limits → ℤ
half_hour_share now l = quotient (wrap64 (scale (30 * minute) l.attempts)) (now - l.first)

-- "if first connection attempt is more than 1h ago, adjust first and count"
unfoldable pub adjust : ℕ → Limits → Limits
unfolding is_before_hour half_hour_share
adjust now l =
    if is_before_hour now l.first
    then record l { attempts = half_hour_share now l; first = now - 30 * minute }
    else l

-- What the guarded part of `ConnectionLimitsRegister` does to the entry of an address.
unfoldable pub count_attempt : ℕ → Limits → Limits
count_attempt now l = record l { last = now; attempts = wrap64 (suc_ℤ l.attempts) }

unfoldable pub admits : Limits → Bool
admits l =
    if ltb_ℤ (pos 0) l.max_active && leb_ℤ l.max_active l.active
    then false
    else not (ltb_ℤ (pos 0) l.max_per_hour && ltb_ℤ l.max_per_hour l.attempts)

-- The two tests and the count of active connections.
unfoldable pub admit : Limits → Bool × Limits
admit l = if admits l then (true, record l { active = wrap64 (suc_ℤ l.active) }) else (false, l)

unfoldable pub register_entry : ℕ → Limits → Bool × Limits
register_entry now l = admit (count_attempt now (adjust now (reset now l)))

-- `limiters`: for each bin the map of its addresses.
abbrev pub Limiters : Type 0
Limiters = ℕ → Text → Option Limits

-- `int(ip[len(ip)-1])`
unfoldable pub bin_of : Text → ℕ
bin_of [] = 0
bin_of (b ∷ []) = b
bin_of (b ∷ c ∷ bs) = bin_of (c ∷ bs)

unfoldable pub put : Limiters → Text → Limits → Limiters
put ls ip l bin a = if bin == bin_of ip && text_eq a ip then some l else ls bin a

unfoldable pub entry : Limiters → Text → Option Limits
entry ls ip = ls (bin_of ip) ip

-- `strings.Split(addr.String(), ":")[0]`
unfoldable pub before_colon : Text → Text
before_colon [] = []
before_colon (c ∷ s) = let rest = before_colon s in if c == b':' then [] else c ∷ rest

abbrev found_or_new : ℕ → Option Limits → Limits
found_or_new now none = new_limits now
found_or_new now (some l) = l

register_ip : Option Text → ℕ → Limiters → Bool × Limiters
register_ip none now ls = (false, ls)
register_ip (some ip) now ls =
    let (admitted, l) = register_entry now (found_or_new now (entry ls ip)) in
    (admitted, put ls ip l)

deregister_found : Text → Option Limits → Limiters → Limiters
deregister_found ip none ls = ls
deregister_found ip (some l) ls = put ls ip (record l { active = wrap64 (pred_ℤ l.active) })

deregister_ip : Option Text → Limiters → Limiters
deregister_ip none ls = ls
deregister_ip (some ip) ls = deregister_found ip (entry ls ip) ls

-- `net.ParseIP` followed by `To16`: the 16 bytes of an address, or nil.
module _ (parse_ip : Text → Option Text) where
  -- `ConnectionLimitsRegister`
  unfoldable pub register : Text → ℕ → Limiters → Bool × Limiters
  unfolding register_ip
  register addr now ls = register_ip (parse_ip (before_colon addr)) now ls

  -- `ConnectionLimitsDeregister`
  unfoldable pub deregister : Text → Limiters → Limiters
  unfolding deregister_ip deregister_found
  deregister addr ls = deregister_ip (parse_ip (before_colon addr)) ls

-- `ConnectionLimitsUpdate`, for the address and the limits of a context.
update_found : Text → ℤ → ℤ → Option Limits → Limiters → Limiters
update_found ip parallel per_hour none ls = ls
update_found ip parallel per_hour (some l) ls =
    put ls ip (record l { max_active = parallel; max_per_hour = per_hour })

unfoldable pub update : Text → ℤ → ℤ → Limiters → Limiters
unfolding update_found
update ip parallel per_hour ls = update_found ip parallel per_hour (entry ls ip) ls
