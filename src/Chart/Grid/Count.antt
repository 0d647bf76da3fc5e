-- ===== src/Chart/Grid/Count.antt =====
-- How many ticks a grid has.
use tstlan_web.Base.{
  ℕ, zero, suc, ◌+◌, ◌-◌, ◌*◌, ◌≤◌, inl, inr, List, [], ◌∷◌, arith, ltb, leb, ltb→lt, leb→le,
  length, Bool-cases,
}
use tstlan_web.Base.Number.{ℤ}
use native.Mathlib.Nat.{suc-mul, le_of_mul-le-mul_right}
use tstlan_web.Chart.Grid.{
  time_steps_ms, find_step, pick_step, first_tick, ticks_from, nice_time_ticks,
}
use tstlan_web.Chart.Grid.Ticks.{pick_step_pos, first_tick-IsRound}

find_step-fits :
    (span target last : ℕ) (steps : List ℕ)
    → span ≤ last * target
    → span ≤ find_step span target last steps * target
unfolding find_step
find_step-fits span target last [] h = h
find_step-fits span target last (c ∷ cs) h = elim (Bool-cases (leb span (c * target))) [
  | inl e ↦ rw e (leb→le span (c * target) e)
  | inr e ↦ rw e (find_step-fits span target last cs h)
]

length-ticks_from :
    (fuel t max s : ℕ) → t ≤ max + s → t + length (ticks_from fuel t max s) * s ≤ max + s
unfolding ticks_from
length-ticks_from zero t max s h = omega arith
length-ticks_from (suc fuel) t max s h =
    let rest = length (ticks_from fuel (t + s) max s) in
    elim (Bool-cases (leb t max)) [
      | inl e ↦
          let le = leb→le t max e in
          rw e (omega (arith, length-ticks_from fuel (t + s) max s (omega arith), suc-mul rest s))
      | inr e ↦ rw e (omega arith)
    ]

-- A range of at most `target` days has at most one tick more than `target`.
pub length-nice_time_ticks :
    (tz_offset : ℕ → ℤ) (min max target : ℕ)
    → max - min ≤ 86_400_000 * target
    → length (nice_time_ticks tz_offset min max target).ticks ≤ target + 1
unfolding nice_time_ticks
length-nice_time_ticks tz_offset min max target h =
    let step = pick_step (max - min) target in
    let positive = pick_step_pos (max - min) target in
    let first = first_tick (tz_offset min) min step in
    let (_, low, high) = first_tick-IsRound (tz_offset min) min step positive in
    elim (Bool-cases (ltb min max)) [
      | inl e ↦
          let lt = ltb→lt min max e in
          let count = length (ticks_from (suc (max - min)) first max step) in
          let fits : max - min ≤ step * target =
            unfold pick_step in find_step-fits (max - min) target 86_400_000 time_steps_ms h in
          let within = length-ticks_from (suc (max - min)) first max step (omega arith) in
          rw e (le_of_mul-le-mul_right (omega (arith, within, fits)) positive)
      | inr e ↦ rw e (omega arith)
    ]
