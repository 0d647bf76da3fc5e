-- ===== src/Tests/Charts.antt =====
-- The theorems on charts, at concrete inputs.
use tstlan_web.Base.{
  ◌==◌, ℕ, ◌+◌, ◌-◌, ◌/◌, ◌≤◌, ◌≡◌, ◌≢◌, refl, ◌↔◌, inl, inr, true, false, List, [], ◌∷◌, ◌++◌, map,
  Option, none, some, arith, ltb, or_else, length, drop, keep, Among, ℕ_discrete,
}
use tstlan_web.Base.Text.{Str, codes, Str_discrete}
use tstlan_web.Base.Number.{ℤ, pos}
use tstlan_web.Base.Number.Decimal.{decimal, value}
use tstlan_web.Base.Record.{add_all, lookup, assign}
use tstlan_web.Base.Sort.{sort}
use tstlan_web.History.{Sample}
use tstlan_web.Chart.Brush.{IsAscending, to_time_range}
use tstlan_web.Chart.Grid.{nice_time_ticks, pick_step}
use tstlan_web.Chart.Grid.Ticks.{IsRound, nice_time_ticks_iff}
use tstlan_web.Chart.Grid.Count.{length-nice_time_ticks}
use tstlan_web.Chart.Rows.{ChartSeries, Row, build_rows, read_cell}
use tstlan_web.Chart.Rows.Times.{HasNoTimeKey, sample_times, build_rows-times}
use tstlan_web.Chart.Rows.Cells.{value_at, read_cell-build_rows}
use tstlan_web.Chart.Indicators.{Doubles, Bound}
use tstlan_web.Chart.View.{
  ChartState, initial_chart, adjust_window, drag_brush, brush_start, brush_end, Frame, ChartView,
  waiting, frame, chart, show_rows, windowed,
}
use tstlan_web.Chart.View.Data.{chart-waiting}
use tstlan_web.Chart.View.Bounds.{IsBounded, chart-IsBounded}
use tstlan_web.Chart.Rows.Single.{row_of}
use tstlan_web.Chart.View.Single.{recent, chart-single}
use tstlan_web.Chart.View.Selection.{chart_times, drag_brush-stable}

-- Small natural numbers in the place of doubles.
abbrev pub doubles : Doubles ℕ
doubles = record {
  zero_value = 0;
  nan = 999;
  infinity = 1000;
  neg_infinity = 0;
  plus = λ a b. a + b;
  over = λ a n. a / n;
  less = ltb;
  is_nan = λ a. a == 999;
  is_finite = λ a. ltb a 999;
  number = value 0;
}

abbrev pub utc : ℕ → ℤ
utc _ = pos 0

abbrev pub same : ℕ → ℕ
same t = t

abbrev pub sample : ℕ → ℕ → Sample ℕ
sample t v = record { t = t; v = v }

abbrev line : Str → List (Sample ℕ) → ChartSeries ℕ
line key samples = record {
  key = key;
  label = key;
  color = codes "#0d9488";
  samples = samples;
  format = decimal;
}

abbrev weight_line : ChartSeries ℕ
weight_line = line (codes "weight") (sample 1000 10 ∷ sample 4000 20 ∷ sample 9000 30 ∷ [])

abbrev door_line : ChartSeries ℕ
door_line = line (codes "door") (sample 4000 1 ∷ sample 5000 0 ∷ [])

abbrev two_lines : List (ChartSeries ℕ)
two_lines = door_line ∷ weight_line ∷ []

pub weight_key : codes "weight" ≢ codes "t"
weight_key e = cc

two_lines-HasNoTimeKey : HasNoTimeKey two_lines
two_lines-HasNoTimeKey = ((λ e. cc), ((λ e. cc), tt))

build_rows-times_example :
    map (λ r. r.t) (build_rows same two_lines)
    ≡ sort ltb (add_all ℕ_discrete [] (sample_times two_lines))
build_rows-times_example = build_rows-times same two_lines two_lines-HasNoTimeKey

abbrev row_at_four : Row ℕ
row_at_four = record { t = 4000; cells = (codes "door", 1) ∷ (codes "weight", 20) ∷ [] }

row_at_four-Among : Among row_at_four (build_rows same two_lines)
unfolding build_rows sort assign ℕ_discrete Str_discrete lookup
row_at_four-Among = inr (inl refl)

read_cell-build_rows_example :
    read_cell same (codes "weight") row_at_four ≡ value_at (codes "weight") 4000 two_lines
read_cell-build_rows_example =
    read_cell-build_rows same same two_lines (codes "weight") row_at_four two_lines-HasNoTimeKey
      weight_key row_at_four-Among

nice_time_ticks_iff_example :
    Among 60_000 (nice_time_ticks utc 1_000 90_000 6).ticks
    ↔ (IsRound (utc 1_000) (pick_step 89_000 6) 60_000 × (1_000 ≤ 60_000) × (60_000 ≤ 90_000))
nice_time_ticks_iff_example = nice_time_ticks_iff utc 1_000 90_000 6 60_000 (omega arith)

length-nice_time_ticks_example : length (nice_time_ticks utc 1_000 90_000 6).ticks ≤ 7
length-nice_time_ticks_example = length-nice_time_ticks utc 1_000 90_000 6 (omega arith)

chart-waiting_example :
    (chart doubles same utc same two_lines (some 60_000) false (initial_chart none) ≡ waiting)
    ↔ (sample_times two_lines ≡ [])
chart-waiting_example =
    chart-waiting doubles same utc same two_lines (some 60_000) false (initial_chart none)

-- The frame of a chart that has one.
abbrev frame_of : ChartView ℕ → Option (Frame ℕ)
frame_of waiting = none
frame_of (frame f) = some f

abbrev blank : Frame ℕ
blank = record {
  rows = [];
  x_domain = (0, 0);
  grid = record { ticks = []; seconds_grid = true };
  y_domain = (Bound.auto, Bound.auto);
  manual_y = false;
  has_brush = false;
  start_index = 0;
  end_index = 0;
  values = [];
  reference_lines = [];
}

abbrev two_frame : Frame ℕ
two_frame =
    or_else
      (frame_of
        (chart doubles same utc same two_lines (some 6_000) false (initial_chart (some 6_000))))
      blank

two_chart :
    chart doubles same utc same two_lines (some 6_000) false (initial_chart (some 6_000))
    ≡ frame two_frame
unfolding chart show_rows adjust_window windowed keep build_rows sort assign ℕ_discrete Str_discrete
    lookup
two_chart = refl

chart-IsBounded_example : IsBounded two_frame
chart-IsBounded_example =
    chart-IsBounded doubles same utc same two_lines (some 6_000) false (initial_chart (some 6_000))
      two_frame two_lines-HasNoTimeKey two_chart

weight-IsAscending : IsAscending (map (λ s. s.t) weight_line.samples)
weight-IsAscending = ((omega arith, (omega arith, tt)), ((omega arith, tt), (tt, tt)))

-- The lines a little later: two more times, and the first one gone.
abbrev later_lines : List (ChartSeries ℕ)
later_lines =
    line (codes "door") (sample 4000 1 ∷ sample 5000 0 ∷ sample 10_000 1 ∷ [])
    ∷ line (codes "weight") (sample 4000 20 ∷ sample 9000 30 ∷ sample 11_000 5 ∷ [])
    ∷ []

later_lines-HasNoTimeKey : HasNoTimeKey later_lines
later_lines-HasNoTimeKey = ((λ e. cc), ((λ e. cc), tt))

abbrev dragged : ChartState
dragged = drag_brush (chart_times same two_lines) (some 1) (some 2) (initial_chart none)

later_times :
    chart_times same later_lines ≡ drop 1 (chart_times same two_lines ++ 10_000 ∷ 11_000 ∷ [])
unfolding build_rows sort assign ℕ_discrete Str_discrete lookup
later_times = refl

dragged_range : dragged.brush ≡ some (record { start_t = 4000; end_t = 5000 })
unfolding drag_brush to_time_range build_rows sort assign ℕ_discrete Str_discrete lookup
dragged_range = refl

drag_brush-stable_example :
    (brush_start (adjust_window none dragged).brush (chart_times same later_lines) ≡ 1 - 1)
    × (brush_end (adjust_window none dragged).brush (chart_times same later_lines) ≡ 2 - 1)
drag_brush-stable_example =
    drag_brush-stable same two_lines later_lines (10_000 ∷ 11_000 ∷ []) 1 1 2 (initial_chart none)
      (record { start_t = 4000; end_t = 5000 }) later_lines-HasNoTimeKey refl later_times
      dragged_range (omega arith) (omega arith)

chart-single_example :
    (f : Frame ℕ) × (chart doubles same utc same
        (weight_line ∷ [])
        (some 6_000)
        false
        (initial_chart (some 6_000))
      ≡ frame f)
    × (f.rows ≡ map (row_of (codes "weight")) (recent (some 6_000) weight_line.samples))
    × (f.values ≡ map (λ s. s.v) (recent (some 6_000) weight_line.samples))
unfolding adjust_window
chart-single_example =
    chart-single doubles same utc same weight_line (some 6_000) false (initial_chart (some 6_000))
      weight_key (λ e. cc) weight-IsAscending refl
