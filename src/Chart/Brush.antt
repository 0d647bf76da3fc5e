-- ===== src/Chart/Brush.antt =====
-- The selection of the brush, kept in time and not in indices: web/tstlan-web/lib/chart-brush.ts.
-- Times are whole milliseconds and indices are not negative.
use tstlan_web.Base.{
  ℕ, zero, suc, ◌+◌, ◌-◌, ◌≤◌, ◌<◌, ◌≡◌, inl, inr, Bool, false, ◌&&◌, List, [], ◌∷◌, ◌++◌, Option,
  none, some, arith, leb, if◌then◌else◌, or_else, All, length, drop, get_elem?,
  get_elem?-drop-append, some_eq, Option-cases, ℕ_discrete,
}

pub record TimeRange : Type 0 where
  pub start_t : ℕ
  pub end_t : ℕ

-- `{ startT, endT }` of two times that may be undefined
abbrev pub range_of : Option ℕ → Option ℕ → Option TimeRange
range_of (some a) (some b) = some (record { start_t = a; end_t = b })
range_of _ _ = none

-- The whole range counts as no selection.
unfoldable pub to_time_range : List ℕ → Option ℕ → Option ℕ → Option TimeRange
to_time_range times (some i) (some j) =
    if leb i 0 && leb (length times - 1) j
    then none
    else range_of (get_elem? times i) (get_elem? times j)
to_time_range times _ _ = none

-- The loop from index `i` on, over what is left of the times.
unfoldable pub first_from : ℕ → List ℕ → ℕ → Option ℕ
first_from i [] t = none
first_from i (x ∷ xs) t = if leb t x then some i else first_from (suc i) xs t

unfoldable pub first_index_at_or_after : List ℕ → ℕ → ℕ
unfolding first_from
first_index_at_or_after times t = or_else (first_from 0 times t) (length times - 1)

-- `times[i] <= t`, false where `times[i]` is undefined
abbrev pub at_or_before : Option ℕ → ℕ → Bool
at_or_before none t = false
at_or_before (some x) t = leb x t

-- The loop from index `n - 1` down.
unfoldable pub last_below : ℕ → List ℕ → ℕ → ℕ
last_below zero times t = 0
last_below (suc i) times t =
    let rest = last_below i times t in if at_or_before (get_elem? times i) t then i else rest

unfoldable pub last_index_at_or_before : List ℕ → ℕ → ℕ
unfolding last_below
last_index_at_or_before times t = last_below (length times) times t

-- Strictly ascending times, as a series has them.
abbrev pub IsAscending : List ℕ → Type 0
IsAscending [] = Unit
IsAscending (x ∷ xs) = All (λ y. x < y) xs × IsAscending xs

All-get : (P : ℕ → Type 0) (xs : List ℕ) (i : ℕ) {x : ℕ} → All P xs → get_elem? xs i ≡ some x → P x
All-get P [] i h e = absurd (cc)
All-get P (y ∷ xs) zero h e = let same = some_eq e in rw (← same) h.0
All-get P (y ∷ xs) (suc i) h e = All-get P xs i h.1 e

first_from_exact :
    (n i : ℕ) (xs : List ℕ) {t : ℕ}
    → IsAscending xs
    → get_elem? xs i ≡ some t
    → first_from n xs t ≡ some (n + i)
unfolding first_from
first_from_exact n i [] a e = absurd (cc)
first_from_exact n zero (x ∷ xs) a e = ground arith
first_from_exact n (suc i) (x ∷ xs) {t} (b, a) e =
    let lt : x < t = All-get (λ y. x < y) xs i b e in
    ground (arith, first_from_exact (suc n) i xs a e)

-- At the time of a sample the search finds that sample.
first_index_exact :
    (i : ℕ) (xs : List ℕ) {t : ℕ}
    → IsAscending xs
    → get_elem? xs i ≡ some t
    → first_index_at_or_after xs t ≡ i
unfolding first_index_at_or_after
first_index_exact i xs a e = ground (arith, first_from_exact 0 i xs a e)

ascending_lt :
    (xs : List ℕ) (i j : ℕ) {x y : ℕ}
    → IsAscending xs
    → i < j
    → get_elem? xs i ≡ some x
    → get_elem? xs j ≡ some y
    → x < y
ascending_lt [] i j a lt e f = absurd (cc)
ascending_lt (z ∷ xs) i zero a lt e f = absurd (omega arith)
ascending_lt (z ∷ xs) zero (suc j) {y} a lt e f =
    let same = some_eq e in rw (← same) (All-get (λ w. z < w) xs j a.0 f)
ascending_lt (z ∷ xs) (suc i) (suc j) a lt e f = ascending_lt xs i j a.1 (omega arith) e f

last_below_exact :
    (n i : ℕ) (xs : List ℕ) {t : ℕ}
    → IsAscending xs
    → i < n
    → get_elem? xs i ≡ some t
    → last_below n xs t ≡ i
unfolding last_below
last_below_exact zero i xs a lt e = absurd (omega arith)
last_below_exact (suc n) i xs {t} a lt e = elim (ℕ_discrete i n) [
  | yes same ↦ let found : get_elem? xs n ≡ some t = rw same at e in rw found (ground arith)
  | no differ ↦ elim (Option-cases (get_elem? xs n)) [
    | inl missing ↦ rw missing (last_below_exact n i xs a (omega arith) e)
    | inr (x, found) ↦
        let later = ascending_lt xs i n a (omega arith) e found in
        rw found (ground (arith, last_below_exact n i xs a (omega arith) e))
  ]
]

get_elem?-lt-length :
    {A : Type 0} (xs : List A) (i : ℕ) {x : A} → get_elem? xs i ≡ some x → i < length xs
get_elem?-lt-length [] i e = absurd (cc)
get_elem?-lt-length (y ∷ xs) zero e = omega arith
get_elem?-lt-length (y ∷ xs) (suc i) e = omega (arith, get_elem?-lt-length xs i e)

last_index_exact :
    (i : ℕ) (xs : List ℕ) {t : ℕ}
    → IsAscending xs
    → get_elem? xs i ≡ some t
    → last_index_at_or_before xs t ≡ i
unfolding last_index_at_or_before
last_index_exact i xs a e = last_below_exact (length xs) i xs a (get_elem?-lt-length xs i e) e

to_time_range_ends :
    (times : List ℕ) (i j : ℕ) {r : TimeRange}
    → to_time_range times (some i) (some j) ≡ some r
    → (get_elem? times i ≡ some r.start_t) × (get_elem? times j ≡ some r.end_t)
unfolding to_time_range
to_time_range_ends times i j h = ground arith

-- A selection that is not the whole range stays on its samples while the series grows at the end and
-- is cut at the front: with `k` samples cut, none of them selected, and the new times strictly
-- ascending, both indices are found again, shifted by `k`.
pub brush_stable :
    (times more : List ℕ) (k i j : ℕ) {r : TimeRange}
    → to_time_range times (some i) (some j) ≡ some r
    → k ≤ i
    → i ≤ j
    → IsAscending (drop k (times ++ more))
    → (first_index_at_or_after (drop k (times ++ more)) r.start_t ≡ i - k)
      × (last_index_at_or_before (drop k (times ++ more)) r.end_t ≡ j - k)
brush_stable times more k i j h le ordered a =
    let (p, q) = to_time_range_ends times i j h in
    (
      first_index_exact (i - k) (drop k (times ++ more)) a
          (get_elem?-drop-append k i times more le p),
      last_index_exact (j - k) (drop k (times ++ more)) a
          (get_elem?-drop-append k j times more (omega arith) q),
    )
