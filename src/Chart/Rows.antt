-- ===== src/Chart/Rows.antt =====
-- The rows of a chart: `ChartSeries`, `Row`, `buildRows`, `columnValues` and `latest` of
-- web/tstlan-web/components/time-series-chart.tsx. The values are of any type; `time_of` reads a value
-- as a time and `of_time` a time as a value, which the source does not tell apart.
pub mod Times
pub mod Cells
pub mod Single
use tstlan_web.Base.{
  ℕ, zero, suc, ◌+◌, ◌-◌, ◌*◌, ◌/◌, ◌%◌, ◌^◌, ◌≤◌, ◌<◌, ◌≡◌, ◌≢◌, refl, ap, sym, ◌∙◌, ◌↔◌, ◌⊎◌, inl,
  inr, Bool, true, false, ◌&&◌, ◌||◌, not, List, [], ◌∷◌, ◌++◌, map, append-nil, append_assoc,
  Option, none, some, arith, ltb, leb, ◌==◌, if◌then◌else◌, ltb→lt, lt→ltb, leb→le, le→leb, or_else,
  All, All-append, All-drop, length, drop, get_elem?, keep, Among, Empty, Among-map, map-Among,
  keep-append, Among-keep, get_elem?-drop-append, get_elem?-map, some_eq, length-append,
  length-drop, length-map, Bool-cases, Option-cases, ite, ℕ_discrete,
}
use tstlan_web.Base.Text.{
  Str, codes, Str_discrete, is_space, trim, is_empty, NoSpace, trim_of_NoSpace, trim_idempotent,
}
use tstlan_web.Base.Number.{
  ℤ, pos, negsuc, neg, Num, fin, inf, neg_inf, int, less_than, more_than, number_of, to_double,
  round_from, round_half_even, finite_magnitude,
}
use tstlan_web.Base.Number.Decimal.{
  decimal, all_digits, is_digit, value, number_text, decimal_lem, digit_plain,
  NoSpace-of_all_digits, IsDigits, IsDigits-of_all_digits,
}
use tstlan_web.Base.Record.{
  has, add, add_all, has-add_all, AreDistinct, add_all-distinct, has-Among, delete, has-append,
  has-add, has-delete, lookup, assign, remove, lookup-assign, lookup-remove,
}
use tstlan_web.Api.{
  Role, Identity, Cause, api_error, other, UserSummary, DeviceStatus, NetVarCType, NetVarMode,
  VariableInfo, DeviceDetail, ConfigVisibility, SharePermission, ConfigAccess, Transport, ModbusMap,
  ConnectionSettings, ConfigVar, ConfigPayload, ShareInfo, ConfigSummary, ConfigDetail,
  ConfigCreate, ConfigUpdate, has_status, Result, success, failure,
}
use tstlan_web.Base.Sort.{sort}
use tstlan_web.History.{Sample}

pub record ChartSeries (V : Type 0) : Type 0 where
  pub key : Str
  pub label : Str
  pub color : Str
  pub samples : List (Sample V)
  pub format : V → Str

-- `{ t: number } & Record<string, number>`: the property `t`, and the other own properties.
pub record Row (V : Type 0) : Type 0 where
  pub t : ℕ
  pub cells : List (Str × V)

-- `line.samples.at(-1)?.v`
unfoldable pub latest : {V : Type 0} → List (Sample V) → Option V
latest [] = none
latest (s ∷ []) = some s.v
latest (s ∷ r ∷ ss) = latest (r ∷ ss)

module _ {V : Type 0} (time_of : V → ℕ) where
  -- `row[key] = v`
  unfoldable pub set_cell : Str → V → Row V → Row V
  set_cell key v row =
      ite (Str_discrete key (codes "t")) (record row { t = time_of v })
        (record row { cells = assign Str_discrete key v row.cells })

  -- One round of the inner loop; the row stays in the map, and the map keeps its place.
  unfoldable pub add_sample : Str → Sample V → List (ℕ × Row V) → List (ℕ × Row V)
  unfolding set_cell
  add_sample key s by_t =
      let row = or_else (lookup ℕ_discrete s.t by_t) (record { t = s.t; cells = [] }) in
      assign ℕ_discrete s.t (set_cell key s.v row) by_t

  unfoldable pub add_samples : Str → List (Sample V) → List (ℕ × Row V) → List (ℕ × Row V)
  add_samples key [] by_t = by_t
  add_samples key (s ∷ ss) by_t = add_samples key ss (add_sample key s by_t)

  unfoldable pub add_lines : List (ChartSeries V) → List (ℕ × Row V) → List (ℕ × Row V)
  add_lines [] by_t = by_t
  add_lines (line ∷ lines) by_t = add_lines lines (add_samples line.key line.samples by_t)

  unfoldable pub build_rows : List (ChartSeries V) → List (Row V)
  unfolding add_lines add_samples add_sample
  build_rows series = sort (λ a b. ltb a.t b.t) (map (λ e. e.1) (add_lines series []))

module _ {V : Type 0} (of_time : ℕ → V) where
  -- `row[key]`
  unfoldable pub read_cell : Str → Row V → Option V
  read_cell key row =
      ite (Str_discrete key (codes "t")) (some (of_time row.t)) (lookup Str_discrete key row.cells)

  abbrev with_value : Option V → List V → List V
  with_value none out = out
  with_value (some v) out = v ∷ out

  unfoldable pub column_values : List (Row V) → Str → List V
  unfolding read_cell
  column_values [] key = []
  column_values (row ∷ rows) key = with_value (read_cell key row) (column_values rows key)
