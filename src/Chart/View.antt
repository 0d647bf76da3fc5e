-- ===== src/Chart/View.antt =====
-- The chart as one component: `TimeSeriesChart` of web/tstlan-web/components/time-series-chart.tsx,
-- with its state, what a render shows, and `YRangeControl`. A window does not reach before the epoch.
pub mod Data
pub mod Selection
pub mod Single
pub mod Bounds
use tstlan_web.Base.{
  ℕ, zero, suc, ◌+◌, ◌-◌, ◌*◌, ◌/◌, ◌%◌, ◌^◌, ◌≤◌, ◌<◌, ◌≡◌, ◌≢◌, refl, ap, sym, ◌∙◌, ◌↔◌, ◌⊎◌, inl,
  inr, Bool, true, false, ◌&&◌, ◌||◌, not, List, [], ◌∷◌, ◌++◌, map, append-nil, append_assoc,
  Option, none, some, arith, ltb, leb, ◌==◌, if◌then◌else◌, ltb→lt, lt→ltb, leb→le, le→leb, or_else,
  All, All-append, All-drop, length, drop, get_elem?, keep, Among, Empty, Among-map, map-Among,
  keep-append, Among-keep, get_elem?-drop-append, get_elem?-map, some_eq, length-append,
  length-drop, length-map, Bool-cases, Option-cases, ite, ℕ_discrete,
}
use tstlan_web.Base.Text.{
  Str, codes, Str_discrete, is_space, trim, is_empty, NoSpace, trim_of_NoSpace, trim_idempotent,
}
use tstlan_web.Base.Number.{
  ℤ, pos, negsuc, neg, Num, fin, inf, neg_inf, int, less_than, more_than, number_of, to_double,
  round_from, round_half_even, finite_magnitude,
}
use tstlan_web.Base.Number.Decimal.{
  decimal, all_digits, is_digit, value, number_text, decimal_lem, digit_plain,
  NoSpace-of_all_digits, IsDigits, IsDigits-of_all_digits,
}
use tstlan_web.Base.Record.{
  has, add, add_all, has-add_all, AreDistinct, add_all-distinct, has-Among, delete, has-append,
  has-add, has-delete, lookup, assign, remove, lookup-assign, lookup-remove,
}
use tstlan_web.Api.{
  Role, Identity, Cause, api_error, other, UserSummary, DeviceStatus, NetVarCType, NetVarMode,
  VariableInfo, DeviceDetail, ConfigVisibility, SharePermission, ConfigAccess, Transport, ModbusMap,
  ConnectionSettings, ConfigVar, ConfigPayload, ShareInfo, ConfigSummary, ConfigDetail,
  ConfigCreate, ConfigUpdate, has_status, Result, success, failure,
}
use tstlan_web.Chart.Brush.{
  TimeRange, to_time_range, first_index_at_or_after, last_index_at_or_before,
}
use tstlan_web.Chart.Grid.{TimeGrid, nice_time_ticks}
use tstlan_web.Chart.Rows.{ChartSeries, Row, build_rows, column_values}
use tstlan_web.Chart.Indicators.{Doubles, Bound, auto, at_value, bound_value, Indicator, indicators}

pub record YRange : Type 0 where
  pub min : Str
  pub max : Str

pub record ChartState : Type 0 where
  pub shown : List Str
  pub brush : Option TimeRange
  pub y_range : YRange
  pub brush_window : Option ℕ

abbrev pub initial_chart : Option ℕ → ChartState
initial_chart window_ms = record {
  shown = [];
  brush = none;
  y_range = record { min = []; max = [] };
  brush_window = window_ms;
}

same_window : Option ℕ → Option ℕ → Bool
same_window none none = true
same_window (some a) (some b) = a == b
same_window _ _ = false

-- What a render does first: another window drops the selection.
unfoldable pub adjust_window : Option ℕ → ChartState → ChartState
unfolding same_window
adjust_window window_ms s =
    if same_window s.brush_window window_ms
    then s
    else record s { brush_window = window_ms; brush = none }

unfoldable pub toggle : Str → ChartState → ChartState
toggle id s =
    if has Str_discrete id s.shown
    then record s { shown = delete Str_discrete id s.shown }
    else record s { shown = add Str_discrete id s.shown }

-- `onChange` of the brush, over the times of the render
unfoldable pub drag_brush : List ℕ → Option ℕ → Option ℕ → ChartState → ChartState
drag_brush times start stop s = record s { brush = to_time_range times start stop }

-- The fields of `YRangeControl` and its button.
unfoldable pub edit_min : Str → ChartState → ChartState
edit_min text s = record s { y_range = record s.y_range { min = text } }

unfoldable pub edit_max : Str → ChartState → ChartState
edit_max text s = record s { y_range = record s.y_range { max = text } }

unfoldable pub auto_scale : ChartState → ChartState
auto_scale s = record s { y_range = record { min = []; max = [] } }

-- The time of the last row, after a row with the time `t`.
abbrev pub last_t : {V : Type 0} → ℕ → List (Row V) → ℕ
last_t t [] = t
last_t t (row ∷ rows) = last_t row.t rows

-- `data`: all rows, or those of the window that ends with the last row.
unfoldable pub windowed : {V : Type 0} → Option ℕ → List (Row V) → List (Row V)
windowed none rows = rows
windowed (some window) [] = []
windowed (some window) (row ∷ rows) =
    let last = last_t row.t rows in keep (λ r. leb last (r.t + window)) (row ∷ rows)

-- `within`
unfoldable pub in_range : {V : Type 0} → TimeRange → List (Row V) → List (Row V)
in_range range = keep (λ r. leb range.start_t r.t && leb r.t range.end_t)

-- `within.length > 0 ? within : data`
abbrev pub or_all : {V : Type 0} → List (Row V) → List (Row V) → List (Row V)
or_all [] rows = rows
or_all (row ∷ within) rows = row ∷ within

unfoldable pub visible : {V : Type 0} → Option ℕ → Option TimeRange → List (Row V) → List (Row V)
unfolding in_range
visible none (some range) rows = or_all (in_range range rows) rows
visible none none rows = rows
visible (some window) brush rows = rows

abbrev pub x_min : Option ℕ → ℕ → ℕ → ℕ
x_min none first last = first
x_min (some window) first last = last - window

unfoldable pub brush_start : Option TimeRange → List ℕ → ℕ
brush_start none times = 0
brush_start (some range) times = first_index_at_or_after times range.start_t

unfoldable pub brush_end : Option TimeRange → List ℕ → ℕ
brush_end none times = length times - 1
brush_end (some range) times = last_index_at_or_before times range.end_t

abbrev pub is_manual : {V : Type 0} → Bound V → Bound V → Bool
is_manual auto auto = false
is_manual _ _ = true

-- `single ? columnValues(visible, primary.key) : []`
unfoldable pub primary_values :
    {V : Type 0} → (ℕ → V) → List (ChartSeries V) → List (Row V) → List V
primary_values of_time (line ∷ []) rows = column_values of_time rows line.key
primary_values of_time _ rows = []

-- What a render shows: a note while there are no data, or else the rows of the chart with the domains
-- of its axes, its grid, its brush, and the values and lines of the indicators.
pub record Frame (V : Type 0) : Type 0 where
  pub rows : List (Row V)
  pub x_domain : ℕ × ℕ
  pub grid : TimeGrid
  pub y_domain : Bound V × Bound V
  pub manual_y : Bool
  pub has_brush : Bool
  pub start_index : ℕ
  pub end_index : ℕ
  pub values : List V
  pub reference_lines : List V

pub data ChartView (V : Type 0) : Type 0 where
  waiting : ChartView V
  frame : Frame V → ChartView V

abbrev pub is_live : Option ℕ → Bool
is_live none = true
is_live (some _) = false

module _ {V : Type 0} (doubles : Doubles V) (of_time : ℕ → V) (tz_offset : ℕ → ℤ) where
  -- `INDICATORS.filter((indicator) => shown.has(indicator.id))`, for one line
  unfoldable pub reference_lines : List Str → List (ChartSeries V) → List V → List V
  reference_lines shown (line ∷ []) values =
      map (λ indicator. indicator.compute values)
        (keep (λ indicator. has Str_discrete indicator.id shown) (indicators doubles))
  reference_lines shown _ values = []

  unfoldable pub show_rows :
      List (ChartSeries V) → Option ℕ → Bool → ChartState → List (Row V) → ChartView V
  unfolding bound_value brush_start brush_end primary_values reference_lines visible
  show_rows series window fill s [] = waiting
  show_rows series window fill s (row ∷ rows) =
      let rows_shown = row ∷ rows in
      let x_max = last_t row.t rows in
      let low = bound_value doubles s.y_range.min in
      let high = bound_value doubles s.y_range.max in
      let times = map (λ r. r.t) rows_shown in
      let values = primary_values of_time series (visible window s.brush rows_shown) in
      frame (record {
        rows = rows_shown;
        x_domain = (x_min window row.t x_max, x_max);
        grid = nice_time_ticks tz_offset (x_min window row.t x_max) x_max (if fill then 10 else 6);
        y_domain = (low, high);
        manual_y = is_manual low high;
        has_brush = is_live window && ltb 8 (length rows_shown);
        start_index = brush_start s.brush times;
        end_index = brush_end s.brush times;
        values = values;
        reference_lines = reference_lines s.shown series values;
      })

  unfoldable pub chart :
      (time_of : V → ℕ) → List (ChartSeries V) → Option ℕ → Bool → ChartState → ChartView V
  unfolding adjust_window show_rows
  chart time_of series window fill s =
      show_rows series window fill (adjust_window window s)
        (windowed window (build_rows time_of series))
