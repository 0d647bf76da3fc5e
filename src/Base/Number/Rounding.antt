-- ===== src/Base/Number/Rounding.antt =====
-- The rounding of `Number` is exact below 2 ^ 53, and no comparison with a smaller numeral notices it.
use tstlan_web.Base.{
  ℕ, zero, suc, ◌*◌, ◌/◌, ◌^◌, ◌≤◌, ◌<◌, ◌≡◌, refl, inl, inr, true, false, Option, none, some,
  arith, ltb, Bool-cases, lt→ltb, ltb→lt,
}
use tstlan_web.Base.Number.{
  neg, fin, int, less_than, more_than, round_half_even, round_from, finite_magnitude, to_double,
  signed, number_of,
}

round_half_even-one : (n : ℕ) → round_half_even n n 1 ≡ n
unfolding round_half_even
round_half_even-one n = ground arith

round_from_small :
    (f n m p : ℕ) → m < 2 ^ 53 → round_from (suc f) n m p ≡ some (round_half_even n m p)
unfolding round_from
round_from_small f n m p h = rw (lt→ltb m _ h)

finite_magnitude_small : (v : ℕ) → v < 2 ^ 53 → finite_magnitude (some v) ≡ some v
unfolding finite_magnitude
finite_magnitude_small v h = rw (lt→ltb v (2 ^ 1024) (omega arith))

-- Below 2 ^ 53 the conversion is exact.
pub to_double_exact : (n : ℕ) → n < 2 ^ 53 → to_double n ≡ some n
unfolding to_double
to_double_exact n h =
    rw (round_from_small 971 n n 1 h, round_half_even-one n) (finite_magnitude_small n h)

le-round_half_even : (n m p : ℕ) → 1 ≤ p → m ≤ round_half_even n m p
unfolding round_half_even
le-round_half_even n m p h = grind arith

le-round_from :
    (f n m p : ℕ) {v : ℕ} → 2 ^ 52 ≤ m → 1 ≤ p → round_from f n m p ≡ some v → 2 ^ 52 ≤ v
unfolding round_from
le-round_from zero n m p hm hp e = cc
le-round_from (suc f) n m p {v} hm hp e = elim (Bool-cases (ltb m (2 ^ 53))) [
  | inl small ↦ ground (arith, le-round_half_even n m p)
  | inr large ↦ le-round_from f n (m / 2) (2 * p) (ground arith) (omega arith) (ground arith)
]

le-finite_magnitude : (o : Option ℕ) (v : ℕ) → finite_magnitude o ≡ some v → o ≡ some v
unfolding finite_magnitude
le-finite_magnitude none v h = cc
le-finite_magnitude (some w) v h = ground arith

le-to_double : (n : ℕ) {v : ℕ} → 2 ^ 53 ≤ n → to_double n ≡ some v → 2 ^ 52 ≤ v
unfolding to_double
le-to_double n {v = v} h e =
    le-round_from 972 n n 1 (omega arith) (omega arith) (le-finite_magnitude _ v e)

signed_compare :
    (n k : ℕ) (o : Option ℕ)
    → 2 ^ 53 ≤ n
    → k < 2 ^ 52
    → to_double n ≡ o
    → (less_than (signed false o) k ≡ ltb n k) × (more_than (signed false o) k ≡ ltb k n)
unfolding signed
signed_compare n k none h hk e = ground arith
signed_compare n k (some v) h hk e = ground (arith, le-to_double n {v = v} h e)

-- No rounding is seen by a comparison with a number below 2 ^ 52.
pub number_of_compare :
    (n k : ℕ)
    → k < 2 ^ 52
    → (less_than (number_of false n) k ≡ ltb n k) × (more_than (number_of false n) k ≡ ltb k n)
unfolding number_of
number_of_compare n k h = elim (Bool-cases (ltb n (2 ^ 53))) [
  | inl small ↦ rw (to_double_exact n (ltb→lt _ _ small)) (refl, refl)
  | inr large ↦ signed_compare n k (to_double n) (ground arith) h refl
]

signed_negative :
    (n k : ℕ) (o : Option ℕ)
    → 0 < n
    → to_double n ≡ o
    → (less_than (signed true o) k ≡ true) × (more_than (signed true o) k ≡ false)
unfolding signed
signed_negative n k none h e = (refl, refl)
signed_negative n k (some zero) h e = elim (Bool-cases (ltb n (2 ^ 53))) [
  | inl small ↦ ground (arith, to_double_exact n (ltb→lt _ _ small))
  | inr large ↦ absurd (omega (arith, le-to_double n {v = 0} (ground arith) e))
]
signed_negative n k (some (suc v)) h e = (refl, refl)

-- A negative number is below every bound.
pub number_of_negative :
    (n k : ℕ)
    → 0 < n
    → (less_than (number_of true n) k ≡ true) × (more_than (number_of true n) k ≡ false)
unfolding number_of
number_of_negative n k h = signed_negative n k (to_double n) h refl

pub number_of_negative_zero : number_of true 0 ≡ int 0
unfolding number_of
number_of_negative_zero = rw (to_double_exact 0 (omega arith))

pub number_of_small : (n : ℕ) → n < 2 ^ 53 → number_of false n ≡ int n
unfolding number_of
number_of_small n h = rw (to_double_exact n h)

pub number_of_small_negative : (n : ℕ) → n < 2 ^ 53 → number_of true n ≡ fin (neg n)
unfolding number_of
number_of_small_negative n h = rw (to_double_exact n h)
