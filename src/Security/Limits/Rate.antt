-- ===== src/Security/Limits/Rate.antt =====
-- The connections per hour of go-susi/security/connectionlimits.go.
use limux_gosa.Base.{
  ℕ, zero, suc, ◌+◌, ◌-◌, ◌*◌, ◌/◌, ◌%◌, ◌^◌, ◌<◌, ◌≤◌, true, false, ltb, ◌≡◌, arith,
}
use limux_gosa.Base.Int.{
  pos, negsuc, ltb_ℤ, suc_ℤ, wrap64, wrap64_small, signed, scale, quotient, neg_ℕ,
}
use limux_gosa.Security.Limits.{Limits, minute, hour, reset, adjust, count_attempt}

signed_large : (w : ℕ) → 2 ^ 63 ≤ w → signed w ≡ negsuc (2 ^ 64 - 1 - w)
unfolding signed
signed_large w h = ground arith

product_large :
    (n : ℕ)
    → 5124096 ≤ n
    → n ≤ 10248191
    → wrap64 (scale (30 * minute) (pos n)) ≡ negsuc (2 ^ 64 - 1 - 1800000000000 * n)
unfolding wrap64 scale
product_large n h k =
    let e : 1800000000000 * n % 2 ^ 64 ≡ 1800000000000 * n = omega arith in
    rw e (signed_large (1800000000000 * n) (omega arith))

small_share : (n d : ℕ) → 5124096 ≤ n → suc (2 ^ 64 - 1 - 1800000000000 * n) / d < 2 ^ 63
small_share n d h = grind arith

wrap64_negative : (q : ℕ) → q < 2 ^ 63 → wrap64 (negsuc q) ≡ negsuc q
unfolding wrap64 signed
wrap64_negative q h = ground arith

next_of_negative :
    (q max : ℕ) → 0 < max → q < 2 ^ 63 → ltb_ℤ (pos max) (wrap64 (suc_ℤ (neg_ℕ q))) ≡ false
next_of_negative zero max h k = rw (wrap64_small 1 (omega arith)) (ground arith)
next_of_negative (suc zero) max h k = rw (wrap64_small 0 (omega arith)) (ground arith)
next_of_negative (suc (suc q)) max h k = rw (wrap64_negative q (omega arith))

-- With 5124096 to 10248191 attempts counted, the int64 product of the scaling is negative, and so is the
-- new count, or it is zero: then the attempt that is made, an hour after the first one counted, passes
-- every limit per hour.
pub overflow_passes_limit :
    (now n max : ℕ) (l : Limits)
    → l.attempts ≡ pos n
    → 5124096 ≤ n
    → n ≤ 10248191
    → 0 < max
    → l.first + hour < now
    → now ≤ l.last + hour
    → ltb_ℤ (pos max) (count_attempt now (adjust now (reset now l))).attempts ≡ false
unfolding count_attempt adjust reset quotient
overflow_passes_limit now n max l e lo hi some_limit old recent =
    let f : ltb (l.last + hour) now ≡ false = ground arith in
    let g : ltb (l.first + hour) now ≡ true = ground arith in
    rw (f, g, e, product_large n lo hi)
      (next_of_negative (suc (2 ^ 64 - 1 - 1800000000000 * n) / (now - l.first)) max some_limit
        (small_share n (now - l.first) lo))
