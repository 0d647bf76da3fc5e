-- ===== src/Tests/Panels.antt =====
-- The theorems on the charts of a device, at concrete inputs.
use tstlan_web.Base.{
  ℕ, zero, suc, ◌+◌, ◌-◌, ◌*◌, ◌/◌, ◌%◌, ◌^◌, ◌≤◌, ◌<◌, ◌≡◌, ◌≢◌, refl, ap, sym, ◌∙◌, ◌↔◌, ◌⊎◌, inl,
  inr, Bool, true, false, ◌&&◌, ◌||◌, not, List, [], ◌∷◌, ◌++◌, map, append-nil, append_assoc,
  Option, none, some, arith, ltb, leb, ◌==◌, if◌then◌else◌, ltb→lt, lt→ltb, leb→le, le→leb, or_else,
  All, All-append, All-drop, length, drop, get_elem?, keep, Among, Empty, Among-map, map-Among,
  keep-append, Among-keep, get_elem?-drop-append, get_elem?-map, some_eq, length-append,
  length-drop, length-map, Bool-cases, Option-cases, ite, ℕ_discrete,
}
use tstlan_web.Base.Text.{codes, Str_discrete}
use tstlan_web.Base.Number.Decimal.{decimal}
use tstlan_web.Base.Record.{
  has, add, add_all, has-add_all, AreDistinct, add_all-distinct, has-Among, delete, has-append,
  has-add, has-delete, lookup, assign, remove, lookup-assign, lookup-remove,
}
use tstlan_web.Api.{NetVarCType, NetVarMode, VariableInfo}
use tstlan_web.Base.Sort.{sort}
use tstlan_web.History.{HistoryPoint, Sample, Series, samples_or_empty}
use tstlan_web.Chart.Rows.{ChartSeries, latest, Row, build_rows, read_cell}
use tstlan_web.Chart.Rows.Cells.{value_in}
use tstlan_web.Chart.View.{initial_chart, adjust_window, Frame, frame, chart}
use tstlan_web.Chart.Rows.Single.{row_of}
use tstlan_web.Chart.View.Single.{recent}
use tstlan_web.Device.Panel.{ChartGroup}
use tstlan_web.Device.Monitor.{VariableValue, Monitor, initial, on_snapshot, history_loaded}
use tstlan_web.Device.Monitor.Stream.{AreInOrder, IsOrderedBefore}
use tstlan_web.Device.Monitor.Seeded.{stored}
use tstlan_web.History.Order.{AreOrdered}
use tstlan_web.Device.Charts.{Prints, series_of, to_series, PanelChart, panel_chart}
use tstlan_web.Device.Charts.Lines.{read_cell-series_of}
use tstlan_web.Device.Charts.Latest.{IsHeaderOf, on_snapshot-latest}
use tstlan_web.Device.Charts.Stored.{chart-stored}
use tstlan_web.Tests.Charts.{doubles, utc, same, sample, weight_key}

abbrev weight_variable : VariableInfo
weight_variable = record { name = codes "weight"; ctype = NetVarCType.f32; mode = NetVarMode.r }

abbrev weight_group : ChartGroup
weight_group = record { id = codes "solo:weight"; members = weight_variable ∷ [] }

abbrev past : Series ℕ
past = (codes "weight", sample 1000 10 ∷ sample 4000 20 ∷ []) ∷ []

abbrev prints : Prints ℕ
prints = record {
  text = decimal;
  to_fixed_one = λ n. decimal n ++ codes ".0";
  to_precision_six = decimal;
  is_integer = λ n. true;
}

abbrev weight_row : Row ℕ
weight_row = record { t = 4000; cells = (codes "weight", 20) ∷ [] }

weight_row-Among : Among weight_row (build_rows same (series_of prints past weight_group))
unfolding series_of build_rows sort assign ℕ_discrete Str_discrete lookup
weight_row-Among = inr (inl refl)

read_cell-series_of_example :
    read_cell same (codes "weight") weight_row
    ≡ value_in 4000 (samples_or_empty (codes "weight") past)
read_cell-series_of_example =
    read_cell-series_of prints same same past weight_group weight_variable weight_row
      (weight_key, tt) (inl refl) weight_row-Among

abbrev empty_page : Monitor ℕ
empty_page = initial 0

abbrev weight_value : VariableValue ℕ
weight_value = record { name = codes "weight"; ctype = NetVarCType.u16; value = 42 }

abbrev after_snapshot : Monitor ℕ
after_snapshot = on_snapshot (weight_value ∷ []) 5000 empty_page

abbrev weight_chart : PanelChart ℕ
weight_chart =
    panel_chart prints [] after_snapshot.history after_snapshot.values (weight_variable ∷ [])
      weight_group

abbrev weight_line : ChartSeries ℕ
weight_line = to_series prints after_snapshot.history weight_variable (codes "var(--foreground)")

weight_line-Among : Among weight_line weight_chart.series
unfolding panel_chart series_of
weight_line-Among = inl refl

weight_line-key : weight_line.key ≡ weight_value.name
unfolding to_series
weight_line-key = refl

on_snapshot-latest_example :
    (latest weight_line.samples ≡ some 42)
    × (map (λ l. l.key) weight_chart.series ≡ codes "weight" ∷ [])
    × IsHeaderOf prints weight_value (weight_variable ∷ []) weight_chart.header_value
unfolding tstlan_web.Base.Record.has
on_snapshot-latest_example =
    on_snapshot-latest prints (weight_value ∷ []) 5000 empty_page weight_value []
      (weight_variable ∷ []) weight_group weight_line (refl, tt) (inl refl) weight_line-Among
      weight_line-key

abbrev former : List (ℕ × List (VariableValue ℕ))
former = (5000, weight_value ∷ []) ∷ []

abbrev later : List (ℕ × List (VariableValue ℕ))
later = (6000, record weight_value { value = 43 } ∷ []) ∷ []

-- The history ends with the time of the first message.
abbrev points : List (HistoryPoint ℕ)
points =
    record { t = 4000; values = (codes "weight", 40) ∷ [] }
    ∷ record { t = 5000; values = (codes "weight", 41) ∷ [] }
    ∷ []

former-AreInOrder : AreInOrder 0 former
unfolding tstlan_web.Base.Record.has
former-AreInOrder = (omega arith, (refl, tt), tt)

later-AreInOrder : AreInOrder 5001 later
unfolding tstlan_web.Base.Record.has
later-AreInOrder = (omega arith, (refl, tt), tt)

points-AreOrdered : AreOrdered points
unfolding lookup
points-AreOrdered = ((refl, tt), (omega arith, tt), ((refl, tt), tt, tt))

empty_page-IsOrderedBefore : IsOrderedBefore 0 empty_page
unfolding initial lookup
empty_page-IsOrderedBefore name = (tt, tt)

abbrev on_page : Series ℕ
on_page = (stored former points later empty_page).history

on_page_weight :
    samples_or_empty (codes "weight") on_page
    ≡ sample 4000 40 ∷ sample 5000 42 ∷ sample 6000 43 ∷ []
unfolding on_snapshot history_loaded initial tstlan_web.History.slice_last assign Str_discrete
    lookup tstlan_web.History.seed_history
on_page_weight = refl

chart-stored_example :
    (f : Frame ℕ) × (chart doubles same utc same
        (series_of prints on_page weight_group)
        none
        true
        (initial_chart none)
      ≡ frame f)
    × (f.rows
        ≡ map (row_of (codes "weight")) (recent none (samples_or_empty (codes "weight") on_page)))
    × (f.values ≡ map (λ x. x.v) (recent none (samples_or_empty (codes "weight") on_page)))
unfolding adjust_window
chart-stored_example =
    chart-stored prints doubles same utc same 0 5001 former later points empty_page
      (codes "solo:weight") weight_variable none true (initial_chart none) (omega arith)
      former-AreInOrder (omega arith, tt) points-AreOrdered (omega arith, (omega arith, tt))
      later-AreInOrder empty_page-IsOrderedBefore weight_key (λ e. absurd (cc (on_page_weight)))
      refl
