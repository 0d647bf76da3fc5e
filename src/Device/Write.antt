-- ===== src/Device/Write.antt =====
-- The rows of the table of variables and the field that writes a value: `VariableRow`, `ValueCell`,
-- `WritableValue` and `describeWriteError` of web/tstlan-web/components/device-monitor.tsx. Values are
-- of any type; `Number` of a draft, with none for NaN, and the print of a value are parameters.
pub mod Laws
use tstlan_web.Base.{
  ℕ, zero, suc, ◌+◌, ◌-◌, ◌*◌, ◌/◌, ◌%◌, ◌^◌, ◌≤◌, ◌<◌, ◌≡◌, ◌≢◌, refl, ap, sym, ◌∙◌, ◌↔◌, ◌⊎◌, inl,
  inr, Bool, true, false, ◌&&◌, ◌||◌, not, List, [], ◌∷◌, ◌++◌, map, append-nil, append_assoc,
  Option, none, some, arith, ltb, leb, ◌==◌, if◌then◌else◌, ltb→lt, lt→ltb, leb→le, le→leb, or_else,
  All, All-append, All-drop, length, drop, get_elem?, keep, Among, Empty, Among-map, map-Among,
  keep-append, Among-keep, get_elem?-drop-append, get_elem?-map, some_eq, length-append,
  length-drop, length-map, Bool-cases, Option-cases, ite, ℕ_discrete,
}
use tstlan_web.Base.Text.{
  Str, codes, Str_discrete, is_space, trim, is_empty, NoSpace, trim_of_NoSpace, trim_idempotent,
}
use tstlan_web.Base.Number.{
  ℤ, pos, negsuc, neg, Num, fin, inf, neg_inf, int, less_than, more_than, number_of, to_double,
  round_from, round_half_even, finite_magnitude,
}
use tstlan_web.Base.Number.Decimal.{
  decimal, all_digits, is_digit, value, number_text, decimal_lem, digit_plain,
  NoSpace-of_all_digits, IsDigits, IsDigits-of_all_digits,
}
use tstlan_web.Base.Record.{
  has, add, add_all, has-add_all, AreDistinct, add_all-distinct, has-Among, delete, has-append,
  has-add, has-delete, lookup, assign, remove, lookup-assign, lookup-remove,
}
use tstlan_web.Api.{
  Role, Identity, Cause, api_error, other, UserSummary, DeviceStatus, NetVarCType, NetVarMode,
  VariableInfo, DeviceDetail, ConfigVisibility, SharePermission, ConfigAccess, Transport, ModbusMap,
  ConnectionSettings, ConfigVar, ConfigPayload, ShareInfo, ConfigSummary, ConfigDetail,
  ConfigCreate, ConfigUpdate, has_status, Result, success, failure,
}
use tstlan_web.Config.Access.{is_writable}
use tstlan_web.Device.Monitor.{Monitor, VariableValue, handle_written}

abbrev is_write_only : NetVarMode → Bool
is_write_only NetVarMode.w = true
is_write_only _ = false

-- `if (cause.detail) return cause.detail`, for a detail that is not empty
abbrev detail_or : Option Str → Str → Str
detail_or none message = message
detail_or (some []) message = message
detail_or (some (c ∷ s)) message = c ∷ s

unfoldable pub describe_write_error : Cause → Str
describe_write_error (api_error status detail) = detail_or detail (
    if status == 403
    then codes "запись запрещена"
    else if status == 422
    then codes "недопустимое значение"
    else codes "не удалось записать")
describe_write_error other = codes "не удалось записать"

-- The state of a field that is open or closed.
pub record WriteField : Type 0 where
  pub editing : Bool
  pub draft : Str
  pub pending : Bool
  pub error : Option Str

abbrev pub closed_field : WriteField
closed_field = record { editing = false; draft = []; pending = false; error = none }

-- What a row offers: a field or a text for its value, and a switch for the chart.
pub record Row : Type 0 where
  pub writable : Bool
  pub text : Str
  pub plottable : Bool
  pub charted : Bool

module _ {V : Type 0} (format : NetVarCType → V → Str) where
  abbrev pub cell_text : NetVarCType → Option V → Str
  cell_text ctype none = codes "..."
  cell_text ctype (some value) = format ctype value

  -- The text of the closed field
  abbrev pub closed_text : VariableInfo → Option V → Str
  closed_text v none = codes "задать"
  closed_text v (some value) = if is_write_only v.mode then codes "задать" else format v.ctype value

  unfoldable pub row_of : VariableInfo → List (Str × V) → List Str → Row
  row_of v values selected =
      let value = lookup Str_discrete v.name values in
      record {
        writable = is_writable v.mode;
        text = if is_writable v.mode then closed_text v value else cell_text v.ctype value;
        plottable = not (is_write_only v.mode);
        charted = has Str_discrete v.name selected;
      }

  abbrev draft_of : NetVarCType → Option V → Str
  draft_of ctype none = []
  draft_of ctype (some value) = format ctype value

  unfoldable pub start_editing : VariableInfo → Option V → WriteField → WriteField
  start_editing v value f = record f {
    draft = draft_of v.ctype value;
    error = none;
    editing = true;
  }

unfoldable pub cancel_editing : WriteField → WriteField
cancel_editing f = record f { editing = false }

module _ {V : Type 0} where
  abbrev pub written : Result (VariableValue V) → WriteField → Monitor V → WriteField × Monitor V
  written (success w) f m =
      (record f { editing = false; pending = false; error = none }, handle_written w.name w.value m)
  written (failure cause) f m =
      (record f { pending = false; error = some (describe_write_error cause) }, m)

  abbrev pub send_value :
      Option Str
      → (V → Str → Result (VariableValue V))
      → V
      → WriteField
      → Monitor V
      → WriteField × Monitor V
  send_value none server value f m = (record f { error = some (codes "нет сессии") }, m)
  send_value (some csrf) server value f m = written (server value csrf) f m

  abbrev pub parsed_value :
      Option V
      → Option Str
      → (V → Str → Result (VariableValue V))
      → WriteField
      → Monitor V
      → WriteField × Monitor V
  parsed_value none csrf server f m = (record f { error = some (codes "введите число") }, m)
  parsed_value (some value) csrf server f m = send_value csrf server value f m

  -- `submit`: the field and the page after the request.
  unfoldable pub submit_value :
      (Str → Option V)
      → Option Str
      → (V → Str → Result (VariableValue V))
      → WriteField
      → Monitor V
      → WriteField × Monitor V
  submit_value number csrf server f m =
      if is_empty (trim f.draft)
      then (record f { error = some (codes "введите число") }, m)
      else parsed_value (number f.draft) csrf server f m
