-- ===== src/Chart/Legend.antt =====
-- The texts around a chart: the statistics and buttons of a single line, `LegendItem` and
-- `ChartTooltip` of web/tstlan-web/components/time-series-chart.tsx. The text of a time, which the
-- locale gives, is a parameter.
use tstlan_web.Base.{
  ℕ, Bool, true, List, [], ◌∷◌, ◌++◌, map, Option, none, some, ltb, if◌then◌else◌, or_else, length,
}
use tstlan_web.Base.Text.{Str, codes, Str_discrete}
use tstlan_web.Base.Record.{has, lookup, assign}
use tstlan_web.Chart.Rows.{ChartSeries, latest}
use tstlan_web.Chart.Indicators.{Doubles, min_of, max_of, Indicator, indicators}

pub record Stat : Type 0 where
  pub label : Str
  pub value : Str

pub record IndicatorButton : Type 0 where
  pub id : Str
  pub pressed : Bool
  pub text : Str

pub record LegendItem : Type 0 where
  pub key : Str
  pub color : Str
  pub label : Str
  pub text : Str
  pub has_remove : Bool

-- Below the chart: the statistics of a single line, or else the legend.
pub data Footer : Type 0 where
  statistics : List Stat → List IndicatorButton → Footer
  legend : List LegendItem → Footer

module _ {V : Type 0} (doubles : Doubles V) where
  unfoldable pub stats : ChartSeries V → List V → List Stat
  unfolding latest min_of max_of
  stats primary values =
      record {
        label = codes "тек";
        value = primary.format (or_else (latest primary.samples) doubles.nan);
      }
      ∷ record { label = codes "мин"; value = primary.format (min_of doubles values) }
      ∷ record { label = codes "макс"; value = primary.format (max_of doubles values) }
      ∷ []

  unfoldable pub indicator_button :
      ChartSeries V → List V → List Str → Indicator V → IndicatorButton
  indicator_button primary values shown indicator = record {
    id = indicator.id;
    pressed = has Str_discrete indicator.id shown;
    text = indicator.label ++ codes " " ++ primary.format (indicator.compute values);
  }

  -- `value === undefined ? "..." : line.format(value)`
  abbrev pub item_text : (V → Str) → Option V → Str
  item_text format none = codes "..."
  item_text format (some v) = format v

  unfoldable pub legend_item : Bool → ChartSeries V → LegendItem
  unfolding latest
  legend_item can_remove line = record {
    key = line.key;
    color = line.color;
    label = line.label;
    text = item_text line.format (latest line.samples);
    has_remove = can_remove;
  }

  unfoldable pub footer : List (ChartSeries V) → List V → List Str → Bool → Footer
  unfolding stats indicator_button legend_item
  footer (primary ∷ []) values shown can_remove =
      statistics (stats primary values)
        (map (indicator_button primary values shown) (indicators doubles))
  footer [] values shown can_remove = legend []
  footer (first ∷ second ∷ lines) values shown can_remove =
      legend (map (legend_item can_remove) (first ∷ second ∷ lines))

-- One entry of the tooltip: the mark of its line, if there are several, and its value.
pub record TooltipRow : Type 0 where
  pub key : Str
  pub mark : Option (Str × Str)
  pub value : Str

pub record TooltipView : Type 0 where
  pub time : Str
  pub rows : List TooltipRow

-- An entry without a line or a value shows nothing.
abbrev pub with_row : Option TooltipRow → List TooltipRow → List TooltipRow
with_row none rows = rows
with_row (some row) rows = row ∷ rows

module _ {V : Type 0} (format_tick : ℕ → Bool → Str) where
  -- `new Map(series.map((line) => [line.key, line]))`, started from `by_key`
  unfoldable pub lines_by_key :
      List (Str × ChartSeries V) → List (ChartSeries V) → List (Str × ChartSeries V)
  lines_by_key by_key [] = by_key
  lines_by_key by_key (line ∷ lines) = lines_by_key (assign Str_discrete line.key line by_key) lines

  abbrev pub tooltip_row : Bool → Option (ChartSeries V) → Option V → Option TooltipRow
  tooltip_row several (some line) (some v) = some (record {
    key = line.key;
    mark = if several then some (line.color, line.label) else none;
    value = line.format v;
  })
  tooltip_row several _ _ = none

  unfoldable pub tooltip_rows :
      Bool → List (Str × ChartSeries V) → List (Str × Option V) → List TooltipRow
  tooltip_rows several by_key [] = []
  tooltip_rows several by_key ((key, v) ∷ payload) =
      with_row (tooltip_row several (lookup Str_discrete key by_key) v)
        (tooltip_rows several by_key payload)

  -- Nothing is shown off the chart, without entries, or without a time.
  unfoldable pub chart_tooltip :
      Bool → List (Str × Option V) → Option ℕ → List (ChartSeries V) → Option TooltipView
  unfolding lines_by_key tooltip_rows
  chart_tooltip true (entry ∷ payload) (some t) series = some (record {
    time = format_tick t true;
    rows = tooltip_rows (ltb 1 (length series)) (lines_by_key [] series) (entry ∷ payload);
  })
  chart_tooltip _ _ _ series = none
