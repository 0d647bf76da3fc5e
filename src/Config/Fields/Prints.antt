-- ===== src/Config/Fields/Prints.antt =====
-- The parsers of numbers on the prints of integers.
use tstlan_web.Base.{
  ℕ, suc, ◌+◌, ◌-◌, ◌^◌, ◌<◌, ◌≡◌, ◌≢◌, refl, ap, true, false, [], ◌∷◌, some, arith, lt→ltb,
}
use tstlan_web.Base.Text.{Str, is_space, trim, trim_of_NoSpace}
use tstlan_web.Base.Number.{ℤ, pos, negsuc, Num, fin, inf, neg_inf, int}
use tstlan_web.Base.Number.Decimal.{
  decimal, all_digits, number_text, decimal_lem, NoSpace-of_all_digits,
}
use tstlan_web.Base.Number.Rounding.{number_of_small, number_of_small_negative}
use tstlan_web.Config.Fields.{parse_int_strict, nonnegative, parse_count}
use tstlan_web.Config.Fields.Laws.{parse_digits, parse_minus}

-- An integer of absolute value below 2 ^ 53.
abbrev pub IsSafe : Num → Type 0
IsSafe (fin (pos n)) = n < 2 ^ 53
IsSafe (fin (negsuc n)) = n + 1 < 2 ^ 53
IsSafe inf = ⊥
IsSafe neg_inf = ⊥

trim-decimal : (n : ℕ) → trim (decimal n) ≡ decimal n
trim-decimal n = trim_of_NoSpace _ (NoSpace-of_all_digits _ (decimal_lem n).0)

trim-minus_decimal : (n : ℕ) → trim (b'-' ∷ decimal n) ≡ b'-' ∷ decimal n
trim-minus_decimal n =
    trim_of_NoSpace _ (unfold is_space in refl, NoSpace-of_all_digits _ (decimal_lem n).0)

number_text-pos : (large : ℤ → Str) (n : ℕ) → n < 2 ^ 53 → number_text large (int n) ≡ decimal n
unfolding number_text
number_text-pos large n h = rw (lt→ltb n (2 ^ 53) h)

number_text-negsuc :
    (large : ℤ → Str) (n : ℕ)
    → n + 1 < 2 ^ 53
    → number_text large (fin (negsuc n)) ≡ b'-' ∷ decimal (suc n)
unfolding number_text
number_text-negsuc large n h = rw (lt→ltb n (2 ^ 53 - 1) (omega arith))

-- Every safe integer is read back from its print.
pub parse_int_strict-number_text :
    (large : ℤ → Str) (x : Num) → IsSafe x → parse_int_strict (number_text large x) ≡ some x
unfolding parse_int_strict
parse_int_strict-number_text large (fin (pos n)) h =
    rw
      (
        number_text-pos large n h,
        trim-decimal n,
        parse_digits _ (decimal_lem n).0,
        (decimal_lem n).1,
      )
      (ap some (number_of_small n h))
parse_int_strict-number_text large (fin (negsuc n)) h =
    rw
      (
        number_text-negsuc large n h,
        trim-minus_decimal (suc n),
        parse_minus _ (decimal_lem (suc n)).0,
        (decimal_lem (suc n)).1,
      )
      (ap some (number_of_small_negative (suc n) (omega arith)))
parse_int_strict-number_text large inf h = absurd h
parse_int_strict-number_text large neg_inf h = absurd h

number_text-ne-nil : (large : ℤ → Str) (n : ℕ) → n < 2 ^ 53 → trim (number_text large (int n)) ≢ []
number_text-ne-nil large n h e =
    not_nil (decimal n) (decimal_lem n).0 (rw (number_text-pos large n h, trim-decimal n) at e)
  where
    not_nil : (s : Str) → all_digits s ≡ true → s ≢ []
    not_nil [] d q = let bad : false ≡ true = unfold all_digits in d in cc
    not_nil (c ∷ s) d q = cc

-- A safe natural number is read back from its print as a count.
pub parse_count-number_text :
    (large : ℤ → Str) (n : ℕ) → n < 2 ^ 53 → parse_count (number_text large (int n)) ≡ some (int n)
unfolding parse_count nonnegative
parse_count-number_text large n h =
    ground (arith, number_text-ne-nil large n h, parse_int_strict-number_text large (int n) h)
