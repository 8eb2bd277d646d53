-- ===== src/Base/Text/Decimal.antt =====
-- The decimal numbers of Go's strconv: what is printed is read back.
use Prim.Native.Nat.{ℕ, zero, suc, ◌+◌, ◌-◌, ◌*◌, ◌/◌, ◌%◌, ◌^◌, ◌<◌}
use mathlib.Core.Path.{◌≡◌, refl, sym, ap, ◌∙◌}
use mathlib.Core.Bool.{true}
use mathlib.Core.Logic.{inl, inr}
use mathlib.Core.List.{[], ◌∷◌}
use mathlib.Core.Option.{some}
use native.Mathlib.Omega.{arith}
use native.Mathlib.Nat.{pow-succ'}
use limux_gosa.Base.Tests.{ltb, leb, Bool-cases, eq_of_some}
use limux_gosa.Base.Text.{
  parse_uint, Text, digits_onto, parse_digits, decimal_onto, decimal, lower, to_lower,
}

-- One more digit is read.
digits_onto_step :
    (m d : ℕ) (s : Text) → d < 10 → digits_onto m ((48 + d) ∷ s) ≡ digits_onto (m * 10 + d) s
unfolding digits_onto
digits_onto_step m d s h =
    let e : 48 + d - 48 ≡ d = omega arith in
    let u : leb 48 (48 + d) ≡ true = ground arith in
    let v : leb (48 + d) 57 ≡ true = ground arith in rw (u, v, e)

-- Printing puts the digits of n in front of the text, and reading takes them off again.
digits_onto-decimal_onto :
    (fuel n : ℕ) (acc : Text)
    → n < 10 ^ fuel
    → digits_onto 0 (decimal_onto fuel n acc) ≡ digits_onto n acc
unfolding decimal_onto
digits_onto-decimal_onto zero n acc h = let e : n ≡ 0 = omega arith in rw e
digits_onto-decimal_onto (suc fuel) n acc h =
    let p : 10 ^ suc fuel ≡ 10 * 10 ^ fuel = pow-succ' 10 fuel in
    let step : digits_onto (n / 10) ((48 + n % 10) ∷ acc) ≡ digits_onto n acc =
      let e : n / 10 * 10 + n % 10 ≡ n = omega arith in
      digits_onto_step (n / 10) (n % 10) acc (omega arith) ∙ ap (λ k. digits_onto k acc) e in
    let rest = digits_onto-decimal_onto fuel (n / 10) ((48 + n % 10) ∷ acc) (omega (arith, p)) in
    elim (Bool-cases (ltb n 10)) [
      | inl e ↦ (let z : 0 ≡ n / 10 = ground arith in cc (e, z, step))
      | inr e ↦ cc (e, rest, step)
    ]

-- Two numbers of at most twenty digits that print alike are one.
pub decimal_inj : (m n : ℕ) → m < 10 ^ 20 → n < 10 ^ 20 → decimal m ≡ decimal n → m ≡ n
unfolding decimal digits_onto
decimal_inj m n h k e = eq_of_some (
    sym (digits_onto-decimal_onto 20 m [] h)
    ∙ ap (digits_onto 0) e
    ∙ digits_onto-decimal_onto 20 n [] k)

lower_digit : (d : ℕ) → d < 10 → lower (48 + d) ≡ 48 + d
unfolding lower
lower_digit d h = ground arith

to_lower-decimal_onto :
    (fuel n : ℕ) (acc : Text)
    → to_lower acc ≡ acc
    → to_lower (decimal_onto fuel n acc) ≡ decimal_onto fuel n acc
unfolding decimal_onto
to_lower-decimal_onto zero n acc h = h
to_lower-decimal_onto (suc fuel) n acc h =
    let d : to_lower ((48 + n % 10) ∷ acc) ≡ (48 + n % 10) ∷ acc =
      cc (lower_digit (n % 10) (omega arith), h) in
    let rest = to_lower-decimal_onto fuel (n / 10) ((48 + n % 10) ∷ acc) d in
    elim (Bool-cases (ltb n 10)) [ inl e ↦ cc (e, d) | inr e ↦ cc (e, rest) ]

-- A number has no letters to fold.
pub to_lower-decimal : (n : ℕ) → to_lower (decimal n) ≡ decimal n
unfolding decimal
to_lower-decimal n = to_lower-decimal_onto 20 n [] refl

parse_digits-decimal_onto :
    (fuel n c : ℕ) (acc : Text)
    → parse_digits (decimal_onto fuel n (c ∷ acc)) ≡ digits_onto 0 (decimal_onto fuel n (c ∷ acc))
unfolding decimal_onto parse_digits
parse_digits-decimal_onto zero n c acc = refl
parse_digits-decimal_onto (suc fuel) n c acc =
    let rest = parse_digits-decimal_onto fuel (n / 10) (48 + n % 10) (c ∷ acc) in
    elim (Bool-cases (ltb n 10)) [ inl e ↦ rw e | inr e ↦ rw e rest ]

parse_digits-decimal_suc :
    (fuel n : ℕ)
    → parse_digits (decimal_onto (suc fuel) n []) ≡ digits_onto 0 (decimal_onto (suc fuel) n [])
unfolding decimal_onto parse_digits
parse_digits-decimal_suc fuel n =
    let more = parse_digits-decimal_onto fuel (n / 10) (48 + n % 10) [] in
    elim (Bool-cases (ltb n 10)) [ inl e ↦ rw e | inr e ↦ rw e more ]

parse_digits-decimal : (n : ℕ) → n < 10 ^ 20 → parse_digits (decimal n) ≡ some n
unfolding decimal digits_onto
parse_digits-decimal n h = parse_digits-decimal_suc 19 n ∙ digits_onto-decimal_onto 20 n [] h

parse_uint-some : (s : Text) (n : ℕ) → parse_digits s ≡ some n → n < 2 ^ 64 → parse_uint s ≡ some n
unfolding parse_uint
parse_uint-some s n e h = let l : ltb n (2 ^ 64) ≡ true = ground arith in rw (parse_uint, e, l)

-- A printed `uint64` is read back.
pub parse_uint-decimal : (n : ℕ) → n < 2 ^ 64 → parse_uint (decimal n) ≡ some n
parse_uint-decimal n h = parse_uint-some (decimal n) n (parse_digits-decimal n (omega arith)) h

-- What is read is a `uint64`.
pub parse_uint_below : (s : Text) (k : ℕ) → parse_uint s ≡ some k → k < 2 ^ 64
unfolding parse_uint
parse_uint_below s k e = ground arith
