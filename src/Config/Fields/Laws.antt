-- ===== src/Config/Fields/Laws.antt =====
-- What the parsers of numbers accept.
use tstlan_web.Base.{
  ℕ, zero, suc, ◌^◌, ◌≤◌, ◌<◌, ◌≡◌, ◌≢◌, refl, ap, ◌↔◌, ◌⊎◌, inl, inr, true, false, not, [], ◌∷◌,
  Option, none, some, arith, ltb, ◌==◌, if◌then◌else◌, lt→ltb, Bool-cases,
}
use tstlan_web.Base.Text.{Str, trim, is_empty}
use tstlan_web.Base.Number.{Num, int, number_of}
use tstlan_web.Base.Number.Decimal.{all_digits, value, digit_plain, IsDigits-of_all_digits}
use tstlan_web.Base.Number.Rounding.{number_of_compare, number_of_negative, number_of_negative_zero}
use tstlan_web.Config.Fields.{
  parse_trimmed, parse_int_strict, nonnegative, parse_count, out_of_range, not_positive,
}

pub parse_digits :
    (t : Str) → all_digits t ≡ true → parse_trimmed t ≡ some (number_of false (value 0 t))
unfolding parse_trimmed
parse_digits [] h = elim (absurd_nil h) [ ]
  where
    absurd_nil : all_digits [] ≡ true → ⊥
    absurd_nil e = unfold all_digits in cc e
parse_digits (c ∷ s) h = ground (arith, digit_plain c (IsDigits-of_all_digits (c ∷ s) h).0)

pub parse_minus :
    (ds : Str)
    → all_digits ds ≡ true
    → parse_trimmed (b'-' ∷ ds) ≡ some (number_of true (value 0 ds))
unfolding parse_trimmed
parse_minus ds h = rw h refl

-- A text is refused, or is digits, or is a minus sign and digits.
data Parsed (t : Str) : Type 0 where
  refused : parse_trimmed t ≡ none → Parsed t
  plain : all_digits t ≡ true → parse_trimmed t ≡ some (number_of false (value 0 t)) → Parsed t
  minus :
      (ds : Str)
      → t ≡ b'-' ∷ ds
      → all_digits ds ≡ true
      → parse_trimmed t ≡ some (number_of true (value 0 ds))
      → Parsed t

parse_cases : (t : Str) → Parsed t
unfolding parse_trimmed
parse_cases [] = refused refl
parse_cases (c ∷ s) = elim (Bool-cases (c == b'-')) [
  | inl dash ↦
      let e : c ≡ b'-' = ground arith in
      elim (Bool-cases (all_digits s)) [
        | inl d ↦ minus s (ap (λ x. x ∷ s) e) d (rw (dash, d) refl)
        | inr d ↦ refused (rw (dash, d) refl)
      ]
  | inr no_dash ↦ elim (Bool-cases (all_digits (c ∷ s))) [
    | inl d ↦ plain d (rw (no_dash, d) refl)
    | inr d ↦ refused (rw (no_dash, d) refl)
  ]
]

-- The text spells the natural number `n`: digits, or a minus sign and zeros.
abbrev pub Spells : Str → ℕ → Type 0
Spells t n =
    ((all_digits t ≡ true) × (value 0 t ≡ n))
    ⊎ ((ds : Str) × (t ≡ b'-' ∷ ds) × (all_digits ds ≡ true) × (value 0 ds ≡ 0) × (n ≡ 0))

out_of_range-none : (lo hi : ℕ) → out_of_range lo hi none ≡ true
unfolding out_of_range
out_of_range-none lo hi = refl

module _ (lo hi : ℕ) (small : hi < 2 ^ 52) (ordered : lo ≤ hi) where
  in_range_plain :
      (n : ℕ) → out_of_range lo hi (some (number_of false n)) ≡ false → (lo ≤ n) × (n ≤ hi)
  unfolding out_of_range
  in_range_plain n h =
      ground (arith, number_of_compare n lo (omega arith), number_of_compare n hi small)

  plain_in_range : (n : ℕ) → lo ≤ n → n ≤ hi → out_of_range lo hi (some (number_of false n)) ≡ false
  unfolding out_of_range
  plain_in_range n h k =
      ground (arith, number_of_compare n lo (omega arith), number_of_compare n hi small)

  in_range_minus :
      (n : ℕ) → out_of_range lo hi (some (number_of true n)) ≡ false → (n ≡ 0) × (lo ≡ 0)
  unfolding out_of_range
  in_range_minus zero h = ground (arith, number_of_negative_zero)
  in_range_minus (suc n) h = ground (arith, number_of_negative (suc n) lo (omega arith))

  zero_in_range : lo ≡ 0 → out_of_range lo hi (some (int 0)) ≡ false
  unfolding out_of_range
  zero_in_range h = ground arith

  -- For ordered bounds below 2 ^ 52, the range test passes exactly on the texts that spell a number of
  -- the range.
  pub in_range_iff :
      (t : Str)
      → (out_of_range lo hi (parse_trimmed t) ≡ false)
        ↔ ((n : ℕ) × Spells t n × (lo ≤ n) × (n ≤ hi))
  in_range_iff t = (to (parse_cases t), from)
    where
      to :
          Parsed t
          → out_of_range lo hi (parse_trimmed t) ≡ false
          → (n : ℕ) × Spells t n × (lo ≤ n) × (n ≤ hi)
      to (refused e) h = absurd (cc (out_of_range-none lo hi))
      to (plain d e) h =
          let (p, q) = in_range_plain (value 0 t) (rw e at h) in (value 0 t, inl (d, refl), p, q)
      to (minus ds s d e) h =
          let (p, q) = in_range_minus (value 0 ds) (rw e at h) in
          (0, inr (ds, s, d, p, refl), omega arith, omega arith)

      from :
          (n : ℕ) × Spells t n × (lo ≤ n) × (n ≤ hi) → out_of_range lo hi (parse_trimmed t) ≡ false
      from (n, inl (d, e), p, q) =
          rw (parse_digits t d) (plain_in_range (value 0 t) (omega arith) (omega arith))
      from (n, inr (ds, s, d, z, e), p, q) =
          rw (s, parse_minus ds d, z, number_of_negative_zero) (zero_in_range (omega arith))

not_positive-none : not_positive none ≡ true
unfolding not_positive
not_positive-none = refl

not_positive-plain : (n : ℕ) → not_positive (some (number_of false n)) ≡ not (ltb 0 n)
unfolding not_positive
not_positive-plain n = rw (number_of_compare n 0 (omega arith)).1

not_positive-minus : (n : ℕ) → not_positive (some (number_of true n)) ≡ true
unfolding not_positive
not_positive-minus zero = rw number_of_negative_zero
not_positive-minus (suc n) = rw (number_of_negative (suc n) 0 (omega arith)).1

-- The test of the polling period passes exactly on the digits of a positive number.
pub positive_iff :
    (t : Str) → (not_positive (parse_trimmed t) ≡ false) ↔ ((all_digits t ≡ true) × (0 < value 0 t))
positive_iff t = (to (parse_cases t), from)
  where
    to : Parsed t → not_positive (parse_trimmed t) ≡ false → (all_digits t ≡ true) × (0 < value 0 t)
    to (refused e) h = absurd (cc (not_positive-none))
    to (plain d e) h = let g = rw (e, not_positive-plain (value 0 t)) at h in (d, ground arith)
    to (minus ds s d e) h = absurd (cc (not_positive-minus (value 0 ds)))

    from : (all_digits t ≡ true) × (0 < value 0 t) → not_positive (parse_trimmed t) ≡ false
    from (d, p) = rw (parse_digits t d, not_positive-plain (value 0 t), lt→ltb _ _ p) refl

-- What a count of Modbus may be: nothing but spaces, or a natural number.
abbrev pub IsCount : Str → Type 0
IsCount t = (t ≡ []) ⊎ ((n : ℕ) × Spells t n)

nonnegative-plain : (n : ℕ) → nonnegative (some (number_of false n)) ≡ some (number_of false n)
unfolding nonnegative
nonnegative-plain n = rw (number_of_compare n 0 (omega arith)).0 (ground arith)

nonnegative-minus : (n : ℕ) → nonnegative (some (number_of true n)) ≢ none → n ≡ 0
unfolding nonnegative
nonnegative-minus zero h = refl
nonnegative-minus (suc n) h = absurd (h (rw (number_of_negative (suc n) 0 (omega arith)).0 refl))

nonnegative-zero : nonnegative (some (number_of true 0)) ≢ none
unfolding nonnegative
nonnegative-zero e = cc (rw number_of_negative_zero at e)

count-to : (t : Str) → Parsed t → nonnegative (parse_trimmed t) ≢ none → (n : ℕ) × Spells t n
count-to t (refused e) h = absurd (h (rw e (unfold nonnegative in refl)))
count-to t (plain d e) h = (value 0 t, inl (d, refl))
count-to t (minus ds s d e) h =
    (0, inr (ds, s, d, nonnegative-minus (value 0 ds) (rw e at h), refl))

count-from : (t : Str) (n : ℕ) → Spells t n → nonnegative (parse_trimmed t) ≢ none
count-from t n (inl (d, e)) = rw (parse_digits t d, nonnegative-plain (value 0 t)) (λ q. cc)
count-from t n (inr (ds, s, d, z, e)) = rw (s, parse_minus ds d, z) nonnegative-zero

parse_count-cases :
    (t : Str) (o : Option Num)
    → ((if is_empty t then some (int 0) else o) ≢ none) ↔ ((t ≡ []) ⊎ (o ≢ none))
parse_count-cases [] o = (λ h. inl refl, λ h q. cc)
parse_count-cases (c ∷ s) o = (λ h. inr h, elim [ inl e ↦ λ q. cc | inr h ↦ h ])

-- A count is accepted exactly if it is empty or spells a natural number.
pub parse_count_iff : (s : Str) → (parse_count s ≢ none) ↔ IsCount (trim s)
unfolding parse_count parse_int_strict
parse_count_iff s = (to, from)
  where
    to : parse_count s ≢ none → IsCount (trim s)
    to h = elim ((parse_count-cases (trim s) _).0 h) [
      | inl e ↦ inl e
      | inr g ↦ inr (count-to (trim s) (parse_cases (trim s)) g)
    ]

    from : IsCount (trim s) → parse_count s ≢ none
    from (inl e) = (parse_count-cases (trim s) _).1 (inl e)
    from (inr (n, sp)) = (parse_count-cases (trim s) _).1 (inr (count-from (trim s) n sp))
