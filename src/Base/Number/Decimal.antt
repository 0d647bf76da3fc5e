-- ===== src/Base/Number/Decimal.antt =====
-- Decimal texts: `String` of a number, and the value that a text of digits spells.
use tstlan_web.Base.{
  ℕ, zero, suc, ◌+◌, ◌-◌, ◌*◌, ◌/◌, ◌%◌, ◌^◌, ◌≤◌, ◌≡◌, ◌≢◌, refl, inl, inr, Bool, true, false,
  ◌&&◌, [], ◌∷◌, arith, ltb, leb, ◌==◌, if◌then◌else◌, All, Bool-cases,
}
use tstlan_web.Base.Number.{ℤ, pos, negsuc, Num, fin, inf, neg_inf}
use tstlan_web.Base.Text.{Str, codes, is_space, NoSpace}

unfoldable pub is_digit : ℕ → Bool
is_digit c = leb b'0' c && leb c b'9'

-- `/^\d+$/`
unfoldable pub all_digits : Str → Bool
all_digits [] = false
all_digits (c ∷ []) = is_digit c
all_digits (c ∷ d ∷ s) = is_digit c && all_digits (d ∷ s)

-- The number that digits spell behind `n`.
unfoldable pub value : ℕ → Str → ℕ
value n [] = n
value n (c ∷ s) = value (n * 10 + (c - b'0')) s

-- The digits of `n` in front of `out`, one for each round.
unfoldable pub digits_from : ℕ → ℕ → Str → Str
digits_from zero n out = out
digits_from (suc f) n out =
    let rest = digits_from f (n / 10) ((b'0' + n % 10) ∷ out) in if n == 0 then out else rest

unfoldable pub decimal : ℕ → Str
unfolding digits_from
decimal n = if n == 0 then b'0' ∷ [] else digits_from n n []

module _ (large : ℤ → Str) where
  -- `String(x)`; from 2 ^ 53 on the print of a finite number is not the list of its digits.
  unfoldable pub number_text : Num → Str
  unfolding decimal
  number_text (fin (pos n)) = if ltb n (2 ^ 53) then decimal n else large (pos n)
  number_text (fin (negsuc n)) =
      if ltb n (2 ^ 53 - 1) then b'-' ∷ decimal (suc n) else large (negsuc n)
  number_text inf = codes "Infinity"
  number_text neg_inf = codes "-Infinity"

value-digits_from : (f n : ℕ) (out : Str) → n ≤ f → value 0 (digits_from f n out) ≡ value n out
unfolding digits_from value
value-digits_from zero n out h = let e : n ≡ 0 = omega arith in rw e refl
value-digits_from (suc f) n out h = elim (Bool-cases (n == 0)) [
  | inl done ↦ let e : n ≡ 0 = ground arith in rw e refl
  | inr more ↦ ground (arith, value-digits_from f (n / 10) ((b'0' + n % 10) ∷ out))
]

-- Digits in front of digits are digits.
abbrev pub IsDigits : Str → Type 0
IsDigits = All (λ c. is_digit c ≡ true)

digits_from-IsDigits : (f n : ℕ) (out : Str) → IsDigits out → IsDigits (digits_from f n out)
unfolding digits_from
digits_from-IsDigits zero n out h = h
digits_from-IsDigits (suc f) n out h = elim (Bool-cases (n == 0)) [
  | inl done ↦ rw done h
  | inr more ↦ rw more (digits_from-IsDigits f (n / 10) _ (last, h))
]
  where
    last : is_digit (b'0' + n % 10) ≡ true
    last = unfold is_digit in ground arith

digits_from-ne-nil : (f n : ℕ) (out : Str) → out ≢ [] → digits_from f n out ≢ []
unfolding digits_from
digits_from-ne-nil zero n out h = h
digits_from-ne-nil (suc f) n out h = elim (Bool-cases (n == 0)) [
  | inl done ↦ rw done h
  | inr more ↦ rw more (digits_from-ne-nil f (n / 10) _ (λ e. cc))
]

all_digits_of_IsDigits : (s : Str) → s ≢ [] → IsDigits s → all_digits s ≡ true
unfolding all_digits
all_digits_of_IsDigits [] h d = absurd (h refl)
all_digits_of_IsDigits (c ∷ []) h d = d.0
all_digits_of_IsDigits (c ∷ e ∷ s) h d = rw d.0 (all_digits_of_IsDigits (e ∷ s) (λ q. cc) d.1)

pub IsDigits-of_all_digits : (s : Str) → all_digits s ≡ true → IsDigits s
unfolding all_digits
IsDigits-of_all_digits [] h = tt
IsDigits-of_all_digits (c ∷ []) h = (h, tt)
IsDigits-of_all_digits (c ∷ d ∷ s) h = (ground arith, IsDigits-of_all_digits (d ∷ s) (ground arith))

-- A digit is no space and no minus sign.
pub digit_plain : (c : ℕ) → is_digit c ≡ true → (is_space c ≡ false) × (c ≢ b'-')
unfolding is_digit is_space
digit_plain c h = ground arith

NoSpace-of_IsDigits : (s : Str) → IsDigits s → NoSpace s
NoSpace-of_IsDigits [] h = tt
NoSpace-of_IsDigits (c ∷ s) h = ((digit_plain c h.0).0, NoSpace-of_IsDigits s h.1)

pub NoSpace-of_all_digits : (s : Str) → all_digits s ≡ true → NoSpace s
NoSpace-of_all_digits s h = NoSpace-of_IsDigits s (IsDigits-of_all_digits s h)

digits_from-suc-ne-nil : (n : ℕ) → digits_from (suc n) (suc n) [] ≢ []
unfolding digits_from
digits_from-suc-ne-nil n =
    ground (arith, digits_from-ne-nil n (suc n / 10) ((b'0' + suc n % 10) ∷ []) (λ e. cc))

decimal-suc : (n : ℕ) → decimal (suc n) ≡ digits_from (suc n) (suc n) []
unfolding decimal
decimal-suc n = ground arith

-- The decimal print of a number is a text of digits that spells it.
pub decimal_lem : (n : ℕ) → (all_digits (decimal n) ≡ true) × (value 0 (decimal n) ≡ n)
decimal_lem zero = unfold decimal all_digits value is_digit in (refl, refl)
decimal_lem (suc n) = rw (decimal-suc n) (
  all_digits_of_IsDigits _ (digits_from-suc-ne-nil n) (digits_from-IsDigits (suc n) (suc n) [] tt),
  unfold value in value-digits_from (suc n) (suc n) [] (omega arith),
)
