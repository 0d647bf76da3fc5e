-- ===== src/Chart/Grid.antt =====
-- The times of the grid of a chart: web/tstlan-web/lib/chart-grid.ts, without the text of a time, which
-- the locale gives. Times are whole milliseconds from the epoch on; the offset of the time zone at a
-- time is a parameter, as `getTimezoneOffset` in milliseconds: positive to the west.
pub mod Ticks
pub mod Count
use tstlan_web.Base.{
  ℕ, zero, suc, ◌+◌, ◌-◌, ◌*◌, ◌/◌, ◌%◌, ◌^◌, ◌≤◌, ◌<◌, ◌≡◌, ◌≢◌, refl, ap, sym, ◌∙◌, ◌↔◌, ◌⊎◌, inl,
  inr, Bool, true, false, ◌&&◌, ◌||◌, not, List, [], ◌∷◌, ◌++◌, map, append-nil, append_assoc,
  Option, none, some, arith, ltb, leb, ◌==◌, if◌then◌else◌, ltb→lt, lt→ltb, leb→le, le→leb, or_else,
  All, All-append, All-drop, length, drop, get_elem?, keep, Among, Empty, Among-map, map-Among,
  keep-append, Among-keep, get_elem?-drop-append, get_elem?-map, some_eq, length-append,
  length-drop, length-map, Bool-cases, Option-cases, ite, ℕ_discrete,
}
use tstlan_web.Base.Text.{
  Str, codes, Str_discrete, is_space, trim, is_empty, NoSpace, trim_of_NoSpace, trim_idempotent,
}
use tstlan_web.Base.Number.{
  ℤ, pos, negsuc, neg, Num, fin, inf, neg_inf, int, less_than, more_than, number_of, to_double,
  round_from, round_half_even, finite_magnitude,
}
use tstlan_web.Base.Number.Decimal.{
  decimal, all_digits, is_digit, value, number_text, decimal_lem, digit_plain,
  NoSpace-of_all_digits, IsDigits, IsDigits-of_all_digits,
}
use tstlan_web.Base.Record.{
  has, add, add_all, has-add_all, AreDistinct, add_all-distinct, has-Among, delete, has-append,
  has-add, has-delete, lookup, assign, remove, lookup-assign, lookup-remove,
}
use tstlan_web.Api.{
  Role, Identity, Cause, api_error, other, UserSummary, DeviceStatus, NetVarCType, NetVarMode,
  VariableInfo, DeviceDetail, ConfigVisibility, SharePermission, ConfigAccess, Transport, ModbusMap,
  ConnectionSettings, ConfigVar, ConfigPayload, ShareInfo, ConfigSummary, ConfigDetail,
  ConfigCreate, ConfigUpdate, has_status, Result, success, failure,
}

-- `TIME_STEPS_MS`
abbrev pub time_steps_ms : List ℕ
time_steps_ms =
    map (λ seconds. seconds * 1000)
      (1 ∷ 2 ∷ 5 ∷ 10 ∷ 15 ∷ 30 ∷ 60 ∷ 120 ∷ 300 ∷ 600 ∷ 900 ∷ 1800 ∷ 3600 ∷ 7200 ∷ 10800 ∷ 21600
        ∷ 43200 ∷ 86400 ∷ [])

pub record TimeGrid : Type 0 where
  pub ticks : List ℕ
  pub seconds_grid : Bool

-- The first step with `step >= span / target`, or else the last one, which is `last`. The target is
-- positive, so the test is that of the products.
unfoldable pub find_step : ℕ → ℕ → ℕ → List ℕ → ℕ
find_step span target last [] = last
find_step span target last (c ∷ cs) =
    if leb span (c * target) then c else find_step span target last cs

unfoldable pub pick_step : ℕ → ℕ → ℕ
unfolding find_step
pick_step span target = find_step span target 86_400_000 time_steps_ms

-- `Math.ceil(a / step)`
abbrev pub ceil_div : ℕ → ℕ → ℕ
ceil_div a step = (a + (step - 1)) / step

-- `Math.ceil((min - tzOffset) / step) * step + tzOffset`; the ceiling of a negative quotient is the
-- negated floor.
unfoldable pub first_tick : ℤ → ℕ → ℕ → ℕ
first_tick (pos west) min step =
    if ltb min west
    then west - (west - min) / step * step
    else ceil_div (min - west) step * step + west
first_tick (negsuc east) min step = ceil_div (min + suc east) step * step - suc east

-- The loop from `t` on.
unfoldable pub ticks_from : ℕ → ℕ → ℕ → ℕ → List ℕ
ticks_from zero t max step = []
ticks_from (suc fuel) t max step =
    let rest = ticks_from fuel (t + step) max step in if leb t max then t ∷ rest else []

-- A tick is at `min` or later, so the fuel is more than the number of ticks.
unfoldable pub nice_time_ticks : (ℕ → ℤ) → ℕ → ℕ → ℕ → TimeGrid
nice_time_ticks tz_offset min max target =
    let step = pick_step (max - min) target in
    if ltb min max
    then record {
      ticks = ticks_from (suc (max - min)) (first_tick (tz_offset min) min step) max step;
      seconds_grid = ltb step 60_000;
    }
    else record { ticks = min ∷ []; seconds_grid = true }

-- Every ten seconds of a minute, in a zone three hours to the east.
minute :
    (nice_time_ticks (λ _. negsuc 10_799_999) 1_003_000 1_063_000 6).ticks
    ≡ 1_010_000 ∷ 1_020_000 ∷ 1_030_000 ∷ 1_040_000 ∷ 1_050_000 ∷ 1_060_000 ∷ []
unfolding nice_time_ticks pick_step first_tick ticks_from
minute = refl
