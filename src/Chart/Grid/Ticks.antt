-- ===== src/Chart/Grid/Ticks.antt =====
-- Which times are ticks of the grid.
use tstlan_web.Base.{
  ℕ, zero, suc, ◌+◌, ◌-◌, ◌*◌, ◌/◌, ◌≤◌, ◌<◌, ◌≡◌, ap, ◌↔◌, inl, inr, true, List, [], ◌∷◌, arith,
  ltb, leb, ltb→lt, lt→ltb, leb→le, All, Among, Bool-cases,
}
use tstlan_web.Base.Number.{ℤ, pos, negsuc}
use native.Mathlib.Nat.{div-add-mod', mod-lt, mul-le-mul_right, add-mul, suc-mul}
use native.Mathlib.Decide.{dec_le}
use tstlan_web.Chart.Grid.{
  time_steps_ms, find_step, pick_step, ceil_div, first_tick, ticks_from, nice_time_ticks,
}

floor_bounds : (a s : ℕ) → 0 < s → (a / s * s ≤ a) × (a < a / s * s + s)
floor_bounds a s h = omega (arith, div-add-mod' a s, mod-lt a h)

ceil_bounds : (a s : ℕ) → 0 < s → (a ≤ ceil_div a s * s) × (ceil_div a s * s < a + s)
ceil_bounds a s h = omega (arith, floor_bounds (a + (s - 1)) s h)

-- What an offset adds to the west and takes off in the east.
abbrev pub west : ℤ → ℕ
west (pos n) = n
west (negsuc n) = 0

abbrev pub east : ℤ → ℕ
east (pos n) = 0
east (negsuc n) = suc n

-- A round time: in the zone with the offset, a multiple of the step.
abbrev pub IsRound : ℤ → ℕ → ℕ → Type 0
IsRound tz s t = (a : ℕ) × (b : ℕ) × (t + east tz + a * s ≡ west tz + b * s)

pub first_tick-IsRound :
    (tz : ℤ) (min s : ℕ)
    → 0 < s
    → IsRound tz s (first_tick tz min s)
      × (min ≤ first_tick tz min s)
      × (first_tick tz min s < min + s)
unfolding first_tick
first_tick-IsRound (pos w) min s h = elim (Bool-cases (ltb min w)) [
  | inl e ↦
      let before : min < w = ltb→lt min w e in
      let (p, q) = floor_bounds (w - min) s h in
      rw e (((w - min) / s, 0, omega arith), omega arith, omega arith)
  | inr e ↦
      let behind : w ≤ min = ground arith in
      let (p, q) = ceil_bounds (min - w) s h in
      rw e ((0, ceil_div (min - w) s, omega arith), omega arith, omega arith)
]
first_tick-IsRound (negsuc n) min s h =
    let (p, q) = ceil_bounds (min + suc n) s h in
    ((0, ceil_div (min + suc n) s, omega arith), omega arith, omega arith)

-- Two round times differ by a multiple of the step.
multiple_between : (p q s t u : ℕ) → t + p * s ≡ u + q * s → u < t + s → (k : ℕ) × (t ≡ u + k * s)
multiple_between p q s t u e lt = elim (dec_le p q) [
  | yes le ↦
      let whole : q ≡ q - p + p = omega arith in
      (q - p, omega (arith, ap (λ (n : ℕ). n * s) whole, add-mul (q - p) p s))
  | no gt ↦
      let more : suc q ≤ p = omega arith in
      absurd (omega (arith, mul-le-mul_right s more, suc-mul q s))
]

ticks_from_iff :
    (fuel t max s x : ℕ)
    → 0 < s
    → max < t + fuel
    → Among x (ticks_from fuel t max s) ↔ (((k : ℕ) × (x ≡ t + k * s)) × (x ≤ max))
unfolding ticks_from
ticks_from_iff zero t max s x h f = (λ m. elim m [ ], λ ((k, e), le). absurd (omega (arith, f)))
ticks_from_iff (suc fuel) t max s x h f =
    let ih = ticks_from_iff fuel (t + s) max s x h (omega arith) in
    elim (Bool-cases (leb t max)) [
      | inl e ↦ rw e (later e ih.0, λ ((k, q), le). found ih.1 le k q)
      | inr e ↦ rw e (
        λ m. elim m [ ],
        λ ((k, q), le). let past : max < t = ground arith in absurd (omega arith),
      )
    ]
  where
    later :
        leb t max ≡ true
        → (Among x (ticks_from fuel (t + s) max s) → ((k : ℕ) × (x ≡ t + s + k * s)) × (x ≤ max))
        → Among x (t ∷ ticks_from fuel (t + s) max s)
        → ((k : ℕ) × (x ≡ t + k * s)) × (x ≤ max)
    later e to (inl q) = ((0, omega arith), let le : t ≤ max = leb→le t max e in omega arith)
    later e to (inr m) = let ((k, q), le) = to m in ((suc k, omega (arith, suc-mul k s)), le)

    found :
        (((k : ℕ) × (x ≡ t + s + k * s)) × (x ≤ max) → Among x (ticks_from fuel (t + s) max s))
        → x ≤ max
        → (k : ℕ) → x ≡ t + k * s
        → Among x (t ∷ ticks_from fuel (t + s) max s)
    found from le zero q = inl (omega arith)
    found from le (suc k) q = inr (from ((k, omega (arith, suc-mul k s)), le))

find_step_pos :
    (span target last : ℕ) (steps : List ℕ)
    → 0 < last
    → All (λ c. 0 < c) steps
    → 0 < find_step span target last steps
unfolding find_step
find_step_pos span target last [] h a = h
find_step_pos span target last (c ∷ cs) h a =
    ground (arith, find_step_pos span target last cs h a.1)

pub pick_step_pos : (span target : ℕ) → 0 < pick_step span target
unfolding pick_step
pick_step_pos span target =
    find_step_pos span target 86_400_000 time_steps_ms (omega arith) (omega arith)

-- The ticks of a range that is not empty are exactly the times of the range that are round in the
-- local zone, at the step chosen for the width of the range.
pub nice_time_ticks_iff :
    (tz_offset : ℕ → ℤ) (min max target x : ℕ)
    → min < max
    → Among x (nice_time_ticks tz_offset min max target).ticks
      ↔ (IsRound (tz_offset min) (pick_step (max - min) target) x × (min ≤ x) × (x ≤ max))
unfolding nice_time_ticks
nice_time_ticks_iff tz_offset min max target x h =
    let step = pick_step (max - min) target in
    let positive = pick_step_pos (max - min) target in
    let first = first_tick (tz_offset min) min step in
    let ((a, b, round), low, high) = first_tick-IsRound (tz_offset min) min step positive in
    let members = ticks_from_iff (suc (max - min)) first max step x positive (omega arith) in
    rw (lt→ltb min max h) (
      λ m.
          let ((k, e), le) = members.0 m in
          ((a, b + k, omega (arith, add-mul b k step)), omega arith, le),
      λ ((c, d, aligned), from_min, le). members.1 (
        multiple_between (c + b) (a + d) step x first
            (omega (arith, add-mul c b step, add-mul a d step)) (omega arith),
        le,
      ),
    )
