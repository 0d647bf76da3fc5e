-- ===== src/Base/Number.antt =====
-- JavaScript numbers that are integers or infinite: decimal texts, `Number` of a text of digits with
-- the rounding of a double, `String` of a number, and comparisons. The sign of zero is left out: no
-- comparison or print of the source shows it.
pub mod Decimal
pub mod Rounding
use tstlan_web.Base.{
  ℕ, zero, suc, ◌+◌, ◌-◌, ◌*◌, ◌/◌, ◌%◌, ◌^◌, ◌≡◌, refl, Bool, true, false, Option, none, some, ltb,
  ◌==◌, if◌then◌else◌,
}

pub data ℤ : Type 0 where
  pos : ℕ → ℤ
  negsuc : ℕ → ℤ

-- `-n`
abbrev pub neg : ℕ → ℤ
neg zero = pos 0
neg (suc n) = negsuc n

pub data Num : Type 0 where
  fin : ℤ → Num
  inf neg_inf : Num

abbrev pub int : ℕ → Num
int n = fin (pos n)

-- `a < b` where `b` is a numeral of the source
abbrev pub less_than : Num → ℕ → Bool
less_than (fin (pos a)) b = ltb a b
less_than (fin (negsuc _)) b = true
less_than inf b = false
less_than neg_inf b = true

-- `a > b`
abbrev pub more_than : Num → ℕ → Bool
more_than (fin (pos a)) b = ltb b a
more_than (fin (negsuc _)) b = false
more_than inf b = true
more_than neg_inf b = false

-- The rounding of `n` to a multiple of the power of two `p`, ties to even, where `m` is `n / p`.
unfoldable pub round_half_even : ℕ → ℕ → ℕ → ℕ
round_half_even n m p =
    let r = n - m * p in
    if ltb (2 * r) p
    then m * p
    else if ltb p (2 * r)
    then (m + 1) * p
    else if m % 2 == 0
    then m * p
    else (m + 1) * p

-- The least exponent at which 53 bits hold `n`; 971 is the largest exponent of a double.
unfoldable pub round_from : ℕ → ℕ → ℕ → ℕ → Option ℕ
round_from zero n m p = none
round_from (suc f) n m p =
    let rest = round_from f n (m / 2) (2 * p) in
    if ltb m (2 ^ 53) then some (round_half_even n m p) else rest

-- Values from 2 ^ 1024 on are infinite.
unfoldable pub finite_magnitude : Option ℕ → Option ℕ
finite_magnitude none = none
finite_magnitude (some v) = if ltb v (2 ^ 1024) then some v else none

unfoldable pub to_double : ℕ → Option ℕ
to_double n = finite_magnitude (round_from 972 n n 1)

unfoldable pub signed : Bool → Option ℕ → Num
signed true none = neg_inf
signed true (some v) = fin (neg v)
signed false none = inf
signed false (some v) = fin (pos v)

-- `Number` of the digits of `n`, with a minus sign or without
unfoldable pub number_of : Bool → ℕ → Num
unfolding signed
number_of negative n = signed negative (to_double n)

double_exact : number_of false 9007199254740992 ≡ int 9007199254740992
unfolding number_of to_double round_from round_half_even finite_magnitude
double_exact = refl

double_rounds : number_of false 9007199254740993 ≡ int 9007199254740992
unfolding number_of to_double round_from round_half_even finite_magnitude
double_rounds = refl

double_overflow : number_of true (10 ^ 309) ≡ neg_inf
unfolding number_of to_double round_from round_half_even finite_magnitude
double_overflow = refl
