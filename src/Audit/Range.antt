-- ===== src/Audit/Range.antt =====
-- The window of time in go-susi/db/audit.go: the comparison byte by byte is that of the numbers.
use limux_gosa.Base.{
  ℕ, suc, ◌+◌, ◌-◌, ◌*◌, ◌^◌, ◌<◌, ◌≤◌, Bool, true, false, ◌&&◌, Option, none, some, [], ◌∷◌, ◌==◌,
  ltb, leb, drop, if◌then◌else◌, ◌≡◌, refl, sym, ◌∙◌, arith, inl, inr, Bool-cases, eq_of_some, ◌⊎◌,
}
use native.Mathlib.Nat.{pow-succ', mul-le-mul_right}
use limux_gosa.Base.Text.{Text, is_digit}
use limux_gosa.Audit.{count_digit, count_digits, not_below, not_above, is_in_timestamp_range}

-- The number that the digits behind n make, underscores aside.
unfoldable pub time_value : ℕ → Text → ℕ
time_value n [] = n
time_value n (c ∷ s) = time_value (if c == b'_' then n else n * 10 + (c - 48)) s

power_step : (k : ℕ) → 10 ^ suc k ≡ 10 * 10 ^ k
power_step k = pow-succ' 10 k

-- A text of digits and underscores begins with one of the two.
count_digit-cases :
    (c : ℕ) (o : Option ℕ) (k : ℕ)
    → count_digit c o ≡ some k
    → (((c == b'_') ≡ true) × (o ≡ some k))
      ⊎ (((c == b'_') ≡ false) × (48 ≤ c) × (c < 58) × (m : ℕ) × (k ≡ suc m) × (o ≡ some m))
unfolding count_digit
count_digit-cases c none k h = cc h
count_digit-cases c (some n) k h = elim (Bool-cases (c == b'_')) [
  | inl g ↦ inl (g, rw g at h)
  | inr g ↦ elim (Bool-cases (is_digit c)) [
    | inl d ↦ inr (g, ground arith, ground arith, n, sym (eq_of_some (rw (g, d) at h)), refl)
    | inr d ↦ let none_is_some : none ≡ some k = rw (g, d) at h in cc none_is_some
  ]
]

count_digits-cases :
    (c : ℕ) (s : Text) (k : ℕ)
    → count_digits (c ∷ s) ≡ some k
    → (((c == b'_') ≡ true) × (count_digits s ≡ some k))
      ⊎ (((c == b'_') ≡ false)
          × (48 ≤ c)
          × (c < 58)
          × (m : ℕ) × (k ≡ suc m)
          × (count_digits s ≡ some m))
unfolding count_digits
count_digits-cases c s k h = count_digit-cases c (count_digits s) k h

-- One more digit.
digit_bounds :
    (n d v p : ℕ)
    → d < 10
    → (n * 10 + d) * p ≤ v
    → v < (n * 10 + d + 1) * p
    → (n * (10 * p) ≤ v) × (v < (n + 1) * (10 * p))
digit_bounds n d v p h lo hi =
    let a : d * p ≤ 9 * p = mul-le-mul_right {m = d} {n = 9} p (omega arith) in
    (omega arith, omega arith)

-- With k digits to come, the number lies between n and n + 1, k places to the left.
time_value-bounds :
    (s : Text) (k n : ℕ)
    → count_digits s ≡ some k
    → (n * 10 ^ k ≤ time_value n s) × (time_value n s < (n + 1) * 10 ^ k)
unfolding count_digits time_value
time_value-bounds [] k n h = let e : 0 ≡ k = eq_of_some h in rw (← e) (omega arith)
time_value-bounds (c ∷ s) k n h = elim (count_digits-cases c s k h) [
  | inl (gap, e) ↦ rw gap (time_value-bounds s k n e)
  | inr (digit, lo, hi, m, km, e) ↦
      let (a, b) = time_value-bounds s m (n * 10 + (c - 48)) e in
      rw (digit, km, power_step m)
        (digit_bounds n (c - 48) (time_value (n * 10 + (c - 48)) s) (10 ^ m) (omega arith) a b)
]

time_value-end : (s : Text) (n : ℕ) → count_digits s ≡ some 0 → time_value n s ≡ n
time_value-end s n h = let (a, b) = time_value-bounds s 0 n h in omega arith

-- Where the digits first differ, the numbers do, in the same direction.
below_of_digit : (a b v w p : ℕ) → a < b → v < (a + 1) * p → b * p ≤ w → v < w
below_of_digit a b v w p h hi lo =
    let step : (a + 1) * p ≤ b * p = mul-le-mul_right p (omega arith) in omega arith

no_digits : (k : ℕ) → count_digits [] ≡ some k → k ≡ 0
unfolding count_digits
no_digits k h = sym (eq_of_some h)

digit_value :
    (n c : ℕ) (s : Text)
    → (c == b'_') ≡ false
    → time_value n (c ∷ s) ≡ time_value (n * 10 + (c - 48)) s
unfolding time_value
digit_value n c s g = rw g

gap_value : (n c : ℕ) (s : Text) → (c == b'_') ≡ true → time_value n (c ∷ s) ≡ time_value n s
unfolding time_value
gap_value n c s g = rw g

lower_digit :
    (x y : ℕ) (s t : Text) (m n : ℕ)
    → (x == b'_') ≡ false
    → (y == b'_') ≡ false
    → 48 ≤ x
    → count_digits s ≡ some m
    → count_digits t ≡ some m
    → x < y
    → time_value n (x ∷ s) < time_value n (y ∷ t)
lower_digit x y s t m n xd yd xl xs yt h =
    rw (digit_value n x s xd, digit_value n y t yd)
      (below_of_digit (n * 10 + (x - 48)) (n * 10 + (y - 48)) (time_value (n * 10 + (x - 48)) s)
        (time_value (n * 10 + (y - 48)) t) (10 ^ m) (omega arith)
        (time_value-bounds s m (n * 10 + (x - 48)) xs).1
        (time_value-bounds t m (n * 10 + (y - 48)) yt).0)

-- Both loops, for what they return at the first digits that differ.
walk : (ℕ → ℕ → Bool) → Text → Text → Bool
walk right [] t = true
walk right (x ∷ s) [] = true
walk right (x ∷ s) (y ∷ t) = elim (x == b'_') [
  | true ↦ walk right s (y ∷ t)
  | false ↦ elim (y == b'_') [
    | true ↦ walk right (x ∷ s) t
    | false ↦ elim (x == y) [ true ↦ walk right s t | false ↦ right x y ]
  ]
]

walk-gap_left :
    (right : ℕ → ℕ → Bool) (x y : ℕ) (s t : Text)
    → (x == b'_') ≡ true
    → walk right (x ∷ s) (y ∷ t) ≡ walk right s (y ∷ t)
unfolding walk
walk-gap_left right x y s t e = rw (e, walk)

walk-gap_right :
    (right : ℕ → ℕ → Bool) (x y : ℕ) (s t : Text)
    → (x == b'_') ≡ false
    → (y == b'_') ≡ true
    → walk right (x ∷ s) (y ∷ t) ≡ walk right (x ∷ s) t
unfolding walk
walk-gap_right right x y s t e f = rw (e, f, walk)

walk-digits :
    (right : ℕ → ℕ → Bool) (x y : ℕ) (s t : Text)
    → (x == b'_') ≡ false
    → (y == b'_') ≡ false
    → walk right (x ∷ s) (y ∷ t) ≡ (elim (x == y) [ true ↦ walk right s t | false ↦ right x y ])
unfolding walk
walk-digits right x y s t e f = rw (e, f, walk)

not_below-walk : (s t : Text) → not_below s t ≡ walk (λ x y. ltb y x) s t
unfolding not_below walk
not_below-walk s t = refl

not_above-walk : (s t : Text) → not_above s t ≡ walk ltb s t
unfolding not_above walk
not_above-walk s t = refl

is_or_differs : (x y : ℕ) → ((x ≡ y) ⊎ (((x == y) ≡ false) × ((x < y) ⊎ (y < x))))
is_or_differs x y = elim (Bool-cases (x == y)) [
  | inl e ↦ inl (ground arith)
  | inr e ↦
      inr
        (e, elim (Bool-cases (ltb x y)) [ inl f ↦ inl (ground arith) | inr f ↦ inr (ground arith) ])
]

same_byte : (x : ℕ) → (x == x) ≡ true
same_byte x = ground arith

-- The loops compare the numbers, if the test of the digits agrees with the one of the numbers.
module _ (right test : ℕ → ℕ → Bool) (same : (v : ℕ) → test v v ≡ true)
    (lower : (x y v w : ℕ) → x < y → v < w → right x y ≡ test v w)
    (higher : (x y v w : ℕ) → y < x → w < v → right x y ≡ test v w) where
  walk_end :
      (s t : Text) (n : ℕ)
      → count_digits s ≡ some 0
      → count_digits t ≡ some 0
      → true ≡ test (time_value n s) (time_value n t)
  walk_end s t n hs ht = rw (time_value-end s n hs, time_value-end t n ht) (sym (same n))

  walk_lem :
      (s t : Text) (k n : ℕ)
      → count_digits s ≡ some k
      → count_digits t ≡ some k
      → walk right s t ≡ test (time_value n s) (time_value n t)
  walk_lem [] t k n hs ht =
      let e = no_digits k hs in unfold walk in walk_end [] t n (rw e at hs) (rw e at ht)
  walk_lem (x ∷ s) [] k n hs ht =
      let e = no_digits k ht in unfold walk in walk_end (x ∷ s) [] n (rw e at hs) (rw e at ht)
  walk_lem (x ∷ s) (y ∷ t) k n hs ht = elim (count_digits-cases x s k hs) [
    | inl (g, e) ↦
        rw (walk-gap_left right x y s t g, gap_value n x s g) (walk_lem s (y ∷ t) k n e ht)
    | inr (xd, xl, xh, m, km, e) ↦ elim (count_digits-cases y t k ht) [
      | inl (g, f) ↦
          rw (walk-gap_right right x y s t xd g, gap_value n y t g) (walk_lem (x ∷ s) t k n hs f)
      | inr (yd, yl, yh, m', km', f) ↦
          let mm : m' ≡ m = omega arith in
          let f' : count_digits t ≡ some m = rw mm at f in
          walk-digits right x y s t xd yd ∙ elim (is_or_differs x y) [
            | inl same_digit ↦
                rw (← same_digit, same_byte x, digit_value n x s xd, digit_value n x t xd)
                  (walk_lem s t m (n * 10 + (x - 48)) e f')
            | inr (d, inl l) ↦ rw d (
                lower x y (time_value n (x ∷ s)) (time_value n (y ∷ t)) l
                  (lower_digit x y s t m n xd yd xl e f' l))
            | inr (d, inr l) ↦ rw d (
                higher x y (time_value n (x ∷ s)) (time_value n (y ∷ t)) l
                  (lower_digit y x t s m n yd xd yl f' e l))
          ]
    ]
  ]

-- For a name and two bounds with the same number of digits and underscores besides, `isInTimestampRange`
-- tells whether the number of the name lies between those of the bounds, both included.
pub is_in_timestamp_range_lem :
    (s timestamp1 timestamp2 : Text) (k : ℕ)
    → count_digits (drop 6 s) ≡ some k
    → count_digits timestamp1 ≡ some k
    → count_digits timestamp2 ≡ some k
    → is_in_timestamp_range s timestamp1 timestamp2
      ≡ leb (time_value 0 timestamp1) (time_value 0 (drop 6 s))
        && leb (time_value 0 (drop 6 s)) (time_value 0 timestamp2)
unfolding is_in_timestamp_range
is_in_timestamp_range_lem s timestamp1 timestamp2 k hs h1 h2 = rw (
  not_below-walk (drop 6 s) timestamp1,
  walk_lem (λ x y. ltb y x) (λ v w. leb w v) (λ v. ground arith) (λ x y v w h g. ground arith)
      (λ x y v w h g. ground arith) (drop 6 s) timestamp1 k 0 hs h1,
  not_above-walk (drop 6 s) timestamp2,
  walk_lem ltb leb (λ v. ground arith) (λ x y v w h g. ground arith) (λ x y v w h g. ground arith)
      (drop 6 s) timestamp2 k 0 hs h2,
)
