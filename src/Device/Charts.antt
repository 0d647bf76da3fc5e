-- ===== src/Device/Charts.antt =====
-- What `ChartPanel` shows: its charts with their headers, the windows of time, and the dialog of one
-- chart, in web/tstlan-web/components/device-monitor.tsx. The prints of a number are parameters.
pub mod Lines
pub mod Latest
pub mod Stored
use tstlan_web.Base.{
  ℕ, zero, suc, ◌+◌, ◌-◌, ◌*◌, ◌/◌, ◌%◌, ◌^◌, ◌≤◌, ◌<◌, ◌≡◌, ◌≢◌, refl, ap, sym, ◌∙◌, ◌↔◌, ◌⊎◌, inl,
  inr, Bool, true, false, ◌&&◌, ◌||◌, not, List, [], ◌∷◌, ◌++◌, map, append-nil, append_assoc,
  Option, none, some, arith, ltb, leb, ◌==◌, if◌then◌else◌, ltb→lt, lt→ltb, leb→le, le→leb, or_else,
  All, All-append, All-drop, length, drop, get_elem?, keep, Among, Empty, Among-map, map-Among,
  keep-append, Among-keep, get_elem?-drop-append, get_elem?-map, some_eq, length-append,
  length-drop, length-map, Bool-cases, Option-cases, ite, ℕ_discrete,
}
use tstlan_web.Base.Text.{
  Str, codes, Str_discrete, is_space, trim, is_empty, NoSpace, trim_of_NoSpace, trim_idempotent,
}
use tstlan_web.Base.Number.{
  ℤ, pos, negsuc, neg, Num, fin, inf, neg_inf, int, less_than, more_than, number_of, to_double,
  round_from, round_half_even, finite_magnitude,
}
use tstlan_web.Base.Number.Decimal.{
  decimal, all_digits, is_digit, value, number_text, decimal_lem, digit_plain,
  NoSpace-of_all_digits, IsDigits, IsDigits-of_all_digits,
}
use tstlan_web.Base.Record.{
  has, add, add_all, has-add_all, AreDistinct, add_all-distinct, has-Among, delete, has-append,
  has-add, has-delete, lookup, assign, remove, lookup-assign, lookup-remove,
}
use tstlan_web.Api.{
  Role, Identity, Cause, api_error, other, UserSummary, DeviceStatus, NetVarCType, NetVarMode,
  VariableInfo, DeviceDetail, ConfigVisibility, SharePermission, ConfigAccess, Transport, ModbusMap,
  ConnectionSettings, ConfigVar, ConfigPayload, ShareInfo, ConfigSummary, ConfigDetail,
  ConfigCreate, ConfigUpdate, has_status, Result, success, failure,
}
use tstlan_web.History.{Series, samples_or_empty}
use tstlan_web.Chart.Rows.{ChartSeries}
use tstlan_web.Device.Panel.{Grouping, ChartGroup, group_id_of, charted_variables, chart_groups}

-- The prints of a number: `String(v)`, `v.toFixed(1)`, `Number(v.toPrecision(6)).toString()`; and the
-- test `Number.isInteger(v)`.
pub record Prints (V : Type 0) : Type 0 where
  pub text : V → Str
  pub to_fixed_one : V → Str
  pub to_precision_six : V → Str
  pub is_integer : V → Bool

abbrev pub is_float : NetVarCType → Bool
is_float NetVarCType.f32 = true
is_float NetVarCType.f64 = true
is_float _ = false

module _ {V : Type 0} (prints : Prints V) where
  unfoldable pub format_value : NetVarCType → V → Str
  format_value ctype value =
      if is_float ctype
      then (if prints.is_integer value then prints.to_fixed_one value else prints.text value)
      else prints.text value

  unfoldable pub format_chart_value : NetVarCType → V → Str
  format_chart_value ctype value =
      if is_float ctype then prints.to_precision_six value else prints.text value

-- `WINDOW_OPTIONS`, in milliseconds; none is the whole series.
abbrev pub window_options : List (Str × Option ℕ)
window_options =
    (codes "30с", some 30_000)
    ∷ (codes "1м", some 60_000)
    ∷ (codes "5м", some 300_000)
    ∷ (codes "15м", some 900_000)
    ∷ (codes "всё", none)
    ∷ []

-- `SERIES_COLORS`
abbrev pub series_colors : List Str
series_colors =
    codes "#0d9488"
    ∷ codes "#2563eb"
    ∷ codes "#d97706"
    ∷ codes "#dc2626"
    ∷ codes "#7c3aed"
    ∷ codes "#0891b2"
    ∷ codes "#65a30d"
    ∷ codes "#db2777"
    ∷ []

-- `names.join(" + ")`
unfoldable pub join_plus : List Str → Str
join_plus [] = []
join_plus (name ∷ []) = name
join_plus (name ∷ next ∷ names) = name ++ codes " + " ++ join_plus (next ∷ names)

unfoldable pub group_title : ChartGroup → Str
unfolding join_plus
group_title group = join_plus (map (λ v. v.name) group.members)

-- The states of `ChartPanel`.
pub record Panel : Type 0 where
  pub window_ms : Option ℕ
  pub fullscreen_id : Option Str

abbrev pub initial_panel : Panel
initial_panel = record { window_ms = some 60_000; fullscreen_id = none }

unfoldable pub select_window : Option ℕ → Panel → Panel
select_window window_ms p = record p { window_ms = window_ms }

unfoldable pub expand : ChartGroup → Panel → Panel
expand group p = record p { fullscreen_id = some group.id }

unfoldable pub close_dialog : Panel → Panel
close_dialog p = record p { fullscreen_id = none }

-- `groups.find((group) => group.id === fullscreenId)`
unfoldable pub find_group : Str → List ChartGroup → Option ChartGroup
find_group id [] = none
find_group id (g ∷ groups) = ite (Str_discrete g.id id) (some g) (find_group id groups)

abbrev pub fullscreen_group : Option Str → List ChartGroup → Option ChartGroup
fullscreen_group none groups = none
fullscreen_group (some id) groups = find_group id groups

abbrev same_window : Option ℕ → Option ℕ → Bool
same_window none none = true
same_window (some a) (some b) = a == b
same_window _ _ = false

-- The buttons of `Segmented`, each with whether it is pressed.
unfoldable pub segmented : Option ℕ → List (Str × Bool)
segmented window_ms = map (λ option. (option.0, same_window window_ms option.1)) window_options

-- A chart of the panel: what `ChartHeader` is given, and the lines.
pub record PanelChart (V : Type 0) : Type 0 where
  pub id : Str
  pub title : Str
  pub ctype : Option NetVarCType
  pub header_value : Option Str
  pub mergeable : List VariableInfo
  pub series : List (ChartSeries V)

pub record PanelView (V : Type 0) : Type 0 where
  pub windows : List (Str × Bool)
  pub charts : List (PanelChart V)
  pub dialog : Option (Str × List (ChartSeries V))

module _ {V : Type 0} (prints : Prints V) where
  unfoldable pub to_series : Series V → VariableInfo → Str → ChartSeries V
  unfolding format_chart_value
  to_series history variable color = record {
    key = variable.name;
    label = variable.name;
    color = color;
    samples = samples_or_empty variable.name history;
    format = format_chart_value prints variable.ctype;
  }

  -- The lines from index `i` on, in the colors of the palette.
  unfoldable pub colored_series : Series V → ℕ → List VariableInfo → List (ChartSeries V)
  unfolding to_series
  colored_series history i [] = []
  colored_series history i (v ∷ vs) =
      to_series history v (or_else (get_elem? series_colors (i % length series_colors)) [])
      ∷ colored_series history (suc i) vs

  unfoldable pub series_of : Series V → ChartGroup → List (ChartSeries V)
  unfolding colored_series
  series_of history group = elim group.members [
    | [] ↦ []
    | v ∷ vs ↦ elim vs [
      | [] ↦ to_series history v (codes "var(--foreground)") ∷ []
      | w ∷ ws ↦ colored_series history 0 (v ∷ w ∷ ws)
    ]
  ]

  abbrev pub value_text : NetVarCType → Option V → Str
  value_text ctype none = codes "..."
  value_text ctype (some v) = format_value prints ctype v

  abbrev pub lead_ctype : List VariableInfo → Option NetVarCType
  lead_ctype (lead ∷ []) = some lead.ctype
  lead_ctype _ = none

  unfoldable pub header_value : List (Str × V) → List VariableInfo → Option Str
  unfolding format_value
  header_value values (lead ∷ []) =
      some (value_text lead.ctype (lookup Str_discrete lead.name values))
  header_value values _ = none

  -- The charted variables that stand on other charts.
  unfoldable pub mergeable : Grouping → List VariableInfo → ChartGroup → List VariableInfo
  unfolding group_id_of
  mergeable grouping charted group =
      keep (λ v. ite (Str_discrete (group_id_of grouping v.name) group.id) false true) charted

  unfoldable pub panel_chart :
      Grouping → Series V → List (Str × V) → List VariableInfo → ChartGroup → PanelChart V
  unfolding group_title header_value mergeable series_of
  panel_chart grouping history values charted group = record {
    id = group.id;
    title = group_title group;
    ctype = lead_ctype group.members;
    header_value = header_value values group.members;
    mergeable = mergeable grouping charted group;
    series = series_of history group;
  }

  abbrev pub dialog_of : Series V → Option ChartGroup → Option (Str × List (ChartSeries V))
  dialog_of history none = none
  dialog_of history (some group) = some (group_title group, series_of history group)

  -- Nothing is shown if no variable is charted.
  unfoldable pub panel_view :
      List VariableInfo
      → List Str
      → Grouping
      → Series V
      → List (Str × V)
      → Panel
      → Option (PanelView V)
  unfolding panel_chart segmented charted_variables chart_groups
  panel_view variables selected grouping history values p =
      let charted = charted_variables variables selected in
      let groups = chart_groups grouping charted in
      if ltb 0 (length charted)
      then some (record {
        windows = segmented p.window_ms;
        charts = map (panel_chart grouping history values charted) groups;
        dialog = dialog_of history (fullscreen_group p.fullscreen_id groups);
      })
      else none
