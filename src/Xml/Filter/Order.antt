-- ===== src/Xml/Filter/Order.antt =====
-- The order of the where expressions of go-susi/xml/xml_filter.go: numbers where there are two, else bytes.
use limux_gosa.Base.{
  Bool, true, false, not, ◌&&◌, ◌||◌, Option, none, some, [], ◌∷◌, ◌==◌, ltb, Ordering,
  if◌then◌else◌, ◌≡◌, refl, ap, ◌∙◌, inl, inr, Option-cases,
}
use limux_gosa.Base.Int.{ℤ, pos, negsuc, ltb_ℤ, leb_ℤ, compare_ℤ}
use limux_gosa.Base.Text.{Text, compare_text, parse_int, to_lower}
use limux_gosa.Xml.Filter.{compare_value, ord_eq}

-- Bytes in lexicographic order.
abbrev pub text_before : Text → Text → Bool
text_before [] [] = false
text_before [] (b ∷ t) = true
text_before (a ∷ s) [] = false
text_before (a ∷ s) (b ∷ t) = ltb a b || (a == b && text_before s t)

abbrev pub text_up_to : Text → Text → Bool
text_up_to [] t = true
text_up_to (a ∷ s) [] = false
text_up_to (a ∷ s) (b ∷ t) = ltb a b || (a == b && text_up_to s t)

-- The least number of 64 bits, which counts as none where it is to be compared with.
abbrev is_min : ℤ → Bool
is_min (pos _) = false
is_min (negsuc k) = 9223372036854775807 == k

-- A value and the value to compare with as numbers, if both are.
abbrev pub numbers : Text → Text → Option (ℤ × ℤ)
numbers x v = elim (parse_int v) [
  | none ↦ none
  | some n ↦ if is_min n then none else (elim (parse_int x) [ none ↦ none | some m ↦ some (m, n) ])
]

-- Whether a value is below the other one, or not above it: as numbers, if both are, and else as texts,
-- letter case aside.
abbrev pub below_in : Option (ℤ × ℤ) → Text → Text → Bool
below_in none x v = text_before (to_lower x) (to_lower v)
below_in (some (m, n)) x v = ltb_ℤ m n

abbrev pub at_most_in : Option (ℤ × ℤ) → Text → Text → Bool
at_most_in none x v = text_up_to (to_lower x) (to_lower v)
at_most_in (some (m, n)) x v = leb_ℤ m n

abbrev pub is_below : Text → Text → Bool
is_below x v = below_in (numbers x v) x v

abbrev pub is_at_most : Text → Text → Bool
is_at_most x v = at_most_in (numbers x v) x v

before_step :
    (o rest : Ordering) (b : Bool)
    → ord_eq Ordering.lt rest ≡ b
    → ord_eq Ordering.lt
        (elim o [ Ordering.lt ↦ Ordering.lt | Ordering.gt ↦ Ordering.gt | Ordering.eq ↦ rest ])
      ≡ ((elim o [ Ordering.lt ↦ true | _ ↦ false ])
          || ((elim o [ Ordering.eq ↦ true | _ ↦ false ]) && b))
before_step Ordering.lt rest b e = refl
before_step Ordering.gt rest b e = refl
before_step Ordering.eq rest b e = e

up_to_step :
    (o rest : Ordering) (b : Bool)
    → ord_eq Ordering.gt rest ≡ not b
    → ord_eq Ordering.gt
        (elim o [ Ordering.lt ↦ Ordering.lt | Ordering.gt ↦ Ordering.gt | Ordering.eq ↦ rest ])
      ≡ not (
          (elim o [ Ordering.lt ↦ true | _ ↦ false ])
          || ((elim o [ Ordering.eq ↦ true | _ ↦ false ]) && b))
up_to_step Ordering.lt rest b e = refl
up_to_step Ordering.gt rest b e = refl
up_to_step Ordering.eq rest b e = e

compare_text-before : (s t : Text) → ord_eq Ordering.lt (compare_text s t) ≡ text_before s t
unfolding compare_text
compare_text-before [] [] = refl
compare_text-before [] (b ∷ t) = refl
compare_text-before (a ∷ s) [] = refl
compare_text-before (a ∷ s) (b ∷ t) = before_step _ _ _ (compare_text-before s t)

compare_text-up_to : (s t : Text) → ord_eq Ordering.gt (compare_text s t) ≡ not (text_up_to s t)
unfolding compare_text
compare_text-up_to [] [] = refl
compare_text-up_to [] (b ∷ t) = refl
compare_text-up_to (a ∷ s) [] = refl
compare_text-up_to (a ∷ s) (b ∷ t) = up_to_step _ _ _ (compare_text-up_to s t)

less_lem : (o : Ordering) → ord_eq Ordering.lt o ≡ (elim o [ Ordering.lt ↦ true | _ ↦ false ])
less_lem Ordering.lt = refl
less_lem Ordering.eq = refl
less_lem Ordering.gt = refl

more_lem : (o : Ordering) → ord_eq Ordering.gt o ≡ not (elim o [ Ordering.gt ↦ false | _ ↦ true ])
more_lem Ordering.lt = refl
more_lem Ordering.eq = refl
more_lem Ordering.gt = refl

compare_ℤ-below : (m n : ℤ) → ord_eq Ordering.lt (compare_ℤ m n) ≡ ltb_ℤ m n
compare_ℤ-below (pos a) (pos b) = less_lem _
compare_ℤ-below (pos a) (negsuc b) = refl
compare_ℤ-below (negsuc a) (pos b) = refl
compare_ℤ-below (negsuc a) (negsuc b) = less_lem _

compare_ℤ-at_most : (m n : ℤ) → ord_eq Ordering.gt (compare_ℤ m n) ≡ not (leb_ℤ m n)
compare_ℤ-at_most (pos a) (pos b) = more_lem _
compare_ℤ-at_most (pos a) (negsuc b) = refl
compare_ℤ-at_most (negsuc a) (pos b) = refl
compare_ℤ-at_most (negsuc a) (negsuc b) = more_lem _

-- The comparison by the numbers that both are, and else by the bytes.
compared : Option (ℤ × ℤ) → Text → Text → Ordering
compared none x v = compare_text (to_lower x) (to_lower v)
compared (some (m, n)) x v = compare_ℤ m n

numbers_step :
    (o bytes : Ordering) (x v : Text) (n : ℤ)
    → bytes ≡ compare_text (to_lower x) (to_lower v)
    → (elim o [
      | Ordering.eq ↦ bytes
      | _ ↦ elim (parse_int x) [ none ↦ bytes | some m ↦ compare_ℤ m n ]
    ])
      ≡ compared
          (if (elim o [ Ordering.eq ↦ true | _ ↦ false ])
            then none
            else (elim (parse_int x) [ none ↦ none | some m ↦ some (m, n) ]))
          x
          v
unfolding compared
numbers_step Ordering.eq bytes x v n e = e
numbers_step Ordering.lt bytes x v n e = elim (Option-cases (parse_int x)) [
  | inl f ↦ rw f e
  | inr (m, f) ↦ rw f refl
]
numbers_step Ordering.gt bytes x v n e = elim (Option-cases (parse_int x)) [
  | inl f ↦ rw f e
  | inr (m, f) ↦ rw f refl
]

compared_lem :
    (q : Option ℤ) (x v : Text)
    → (elim (compare_ℤ
        (elim q [ none ↦ negsuc 9223372036854775807 | some n ↦ n ])
        (negsuc 9223372036854775807)) [
          | Ordering.eq ↦ compare_text (to_lower x) (to_lower v)
          | _ ↦ elim (parse_int x) [
            | none ↦ compare_text (to_lower x) (to_lower v)
            | some m ↦ compare_ℤ m (elim q [ none ↦ negsuc 9223372036854775807 | some n ↦ n ])
          ]
        ])
      ≡ compared
          (elim q [
            | none ↦ none
            | some n ↦
                if is_min n
                then none
                else (elim (parse_int x) [ none ↦ none | some m ↦ some (m, n) ])
          ])
          x
          v
unfolding compared
compared_lem none x v = refl
compared_lem (some (pos k)) x v =
    numbers_step Ordering.gt (compare_text (to_lower x) (to_lower v)) x v (pos k) refl
compared_lem (some (negsuc k)) x v =
    numbers_step _ (compare_text (to_lower x) (to_lower v)) x v (negsuc k) refl

compare_value-numbers : (x v : Text) → compare_value x v ≡ compared (numbers x v) x v
unfolding compare_value
compare_value-numbers x v = compared_lem (parse_int v) x v

compared-below :
    (o : Option (ℤ × ℤ)) (x v : Text) → ord_eq Ordering.lt (compared o x v) ≡ below_in o x v
unfolding compared
compared-below none x v = compare_text-before (to_lower x) (to_lower v)
compared-below (some (m, n)) x v = compare_ℤ-below m n

compared-at_most :
    (o : Option (ℤ × ℤ)) (x v : Text) → ord_eq Ordering.gt (compared o x v) ≡ not (at_most_in o x v)
unfolding compared
compared-at_most none x v = compare_text-up_to (to_lower x) (to_lower v)
compared-at_most (some (m, n)) x v = compare_ℤ-at_most m n

pub compare_value-below : (x v : Text) → ord_eq Ordering.lt (compare_value x v) ≡ is_below x v
compare_value-below x v =
    ap (ord_eq Ordering.lt) (compare_value-numbers x v) ∙ compared-below (numbers x v) x v

pub compare_value-at_most :
    (x v : Text) → ord_eq Ordering.gt (compare_value x v) ≡ not (is_at_most x v)
compare_value-at_most x v =
    ap (ord_eq Ordering.gt) (compare_value-numbers x v) ∙ compared-at_most (numbers x v) x v
