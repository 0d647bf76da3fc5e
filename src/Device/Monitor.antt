-- ===== src/Device/Monitor.antt =====
-- The page of a device: the state and the handlers of `DeviceMonitor` in
-- web/tstlan-web/components/device-monitor.tsx, with `setGrouping` and `onToggle` as `ChartPanel`
-- uses them. Values are of any type. A handler that the source guards by `active` takes that flag,
-- which the cleanup of its effect clears.
pub mod Steps
pub mod Charted
pub mod Stream
pub mod Seeded
use tstlan_web.Base.{
  ℕ, zero, suc, ◌+◌, ◌-◌, ◌*◌, ◌/◌, ◌%◌, ◌^◌, ◌≤◌, ◌<◌, ◌≡◌, ◌≢◌, refl, ap, sym, ◌∙◌, ◌↔◌, ◌⊎◌, inl,
  inr, Bool, true, false, ◌&&◌, ◌||◌, not, List, [], ◌∷◌, ◌++◌, map, append-nil, append_assoc,
  Option, none, some, arith, ltb, leb, ◌==◌, if◌then◌else◌, ltb→lt, lt→ltb, leb→le, le→leb, or_else,
  All, All-append, All-drop, length, drop, get_elem?, keep, Among, Empty, Among-map, map-Among,
  keep-append, Among-keep, get_elem?-drop-append, get_elem?-map, some_eq, length-append,
  length-drop, length-map, Bool-cases, Option-cases, ite, ℕ_discrete,
}
use tstlan_web.Base.Text.{
  Str, codes, Str_discrete, is_space, trim, is_empty, NoSpace, trim_of_NoSpace, trim_idempotent,
}
use tstlan_web.Base.Number.{
  ℤ, pos, negsuc, neg, Num, fin, inf, neg_inf, int, less_than, more_than, number_of, to_double,
  round_from, round_half_even, finite_magnitude,
}
use tstlan_web.Base.Number.Decimal.{
  decimal, all_digits, is_digit, value, number_text, decimal_lem, digit_plain,
  NoSpace-of_all_digits, IsDigits, IsDigits-of_all_digits,
}
use tstlan_web.Base.Record.{
  has, add, add_all, has-add_all, AreDistinct, add_all-distinct, has-Among, delete, has-append,
  has-add, has-delete, lookup, assign, remove, lookup-assign, lookup-remove,
}
use tstlan_web.Api.{
  Role, Identity, Cause, api_error, other, UserSummary, DeviceStatus, NetVarCType, NetVarMode,
  VariableInfo, DeviceDetail, ConfigVisibility, SharePermission, ConfigAccess, Transport, ModbusMap,
  ConnectionSettings, ConfigVar, ConfigPayload, ShareInfo, ConfigSummary, ConfigDetail,
  ConfigCreate, ConfigUpdate, has_status,
}
use tstlan_web.History.{Sample, HistoryPoint, Series, samples_or_empty, slice_last, seed_history}
use tstlan_web.Device.Graph.{graph_selection}
use tstlan_web.Device.Panel.{Grouping, ChartGroup, Merged, merge_into, split_out}

pub data LoadState : Type 0 where
  loading notfound error : LoadState
  ready : DeviceDetail → LoadState

pub data Connection : Type 0 where
  connecting live lost : Connection

abbrev pub max_points : ℕ
max_points = 1000

pub record VariableValue (V : Type 0) : Type 0 where
  pub name : Str
  pub ctype : NetVarCType
  pub value : V

-- The states of the component, and the counter of group ids, which is the module's.
pub record Monitor (V : Type 0) : Type 0 where
  pub load : LoadState
  pub values : List (Str × V)
  pub history : Series V
  pub selected : List Str
  pub grouping : Grouping
  pub connection : Connection
  pub query : Str
  pub group_seq : ℕ

abbrev pub is_some {ℓ} : {A : Type ℓ} → Option A → Bool
is_some none = false
is_some (some _) = true

abbrev pub is_nil {ℓ} : {A : Type ℓ} → List A → Bool
is_nil [] = true
is_nil (_ ∷ _) = false

abbrev pub names_of : DeviceDetail → List Str
names_of device = map (λ v. v.name) device.variables

module _ {V : Type 0} where
  unfoldable pub initial : ℕ → Monitor V
  initial group_seq = record {
    load = loading;
    values = [];
    history = [];
    selected = [];
    grouping = [];
    connection = connecting;
    query = [];
    group_seq = group_seq;
  }

  unfoldable pub handle_written : Str → V → Monitor V → Monitor V
  handle_written name value m = record m { values = assign Str_discrete name value m.values }

  -- `setSelected` and `setGrouping` of one toggle.
  unfoldable pub toggle_selected : Str → Monitor V → Monitor V
  toggle_selected name m = record m {
    selected =
        if has Str_discrete name m.selected
        then delete Str_discrete name m.selected
        else add Str_discrete name m.selected;
    grouping =
        if is_some (lookup Str_discrete name m.grouping)
        then remove Str_discrete name m.grouping
        else m.grouping;
  }

  unfoldable pub device_loaded : Bool → DeviceDetail → Monitor V → Monitor V
  device_loaded active device m = if active then record m { load = ready device } else m

  unfoldable pub device_failed : Bool → Cause → Monitor V → Monitor V
  unfolding has_status
  device_failed active cause m =
      if active then record m { load = if has_status 404 cause then notfound else error } else m

  unfoldable pub history_loaded : Bool → List (HistoryPoint V) → Monitor V → Monitor V
  history_loaded active points m =
      if not active || is_nil points
      then m
      else record m { history = seed_history m.history points max_points }

  -- The default selection from the configuration of the device; a selection of the user stays.
  unfoldable pub config_loaded : Bool → DeviceDetail → List ConfigVar → Monitor V → Monitor V
  config_loaded active device variables m =
      let names = graph_selection variables (names_of device) in
      if not active || is_nil names
      then m
      else record m { selected = if is_nil m.selected then names else m.selected }

  -- `Object.fromEntries` of the snapshot
  unfoldable pub from_entries : List (VariableValue V) → List (Str × V) → List (Str × V)
  from_entries [] m = m
  from_entries (v ∷ vs) m = from_entries vs (assign Str_discrete v.name v.value m)

  -- The loop over the snapshot: each sample goes to the end of its series, which is cut at the front.
  unfoldable pub append_samples : ℕ → List (VariableValue V) → Series V → Series V
  append_samples t [] next = next
  append_samples t (v ∷ vs) next = append_samples t vs (
      assign Str_discrete v.name
        (slice_last max_points (samples_or_empty v.name next ++ record { t = t; v = v.value } ∷ []))
        next)

  unfoldable pub on_snapshot : List (VariableValue V) → ℕ → Monitor V → Monitor V
  unfolding from_entries append_samples
  on_snapshot snapshot t m = record m {
    values = from_entries snapshot [];
    history = append_samples t snapshot m.history;
    connection = live;
  }

  unfoldable pub on_stream_error : Monitor V → Monitor V
  on_stream_error m = record m { connection = lost }

  unfoldable pub on_query : Str → Monitor V → Monitor V
  on_query query m = record m { query = query }

  -- `mergeInto` of the panel
  unfoldable pub on_merge : ChartGroup → Str → Monitor V → Monitor V
  on_merge group name m =
      let next =
        merge_into group name (record { grouping = m.grouping; group_seq = m.group_seq }) in
      record m { grouping = next.grouping; group_seq = next.group_seq }

  unfoldable pub on_split : Str → Monitor V → Monitor V
  on_split name m = record m { grouping = split_out name m.grouping }

  -- `closeGroup`: every line of the chart is toggled.
  unfoldable pub close_members : List VariableInfo → Monitor V → Monitor V
  close_members [] m = m
  close_members (v ∷ vs) m = close_members vs (toggle_selected v.name m)

  unfoldable pub close_group : ChartGroup → Monitor V → Monitor V
  unfolding close_members
  close_group group m = close_members group.members m
