-- ===== src/Form.antt =====
-- The form of a configuration: web/tstlan-web/components/config-form.tsx. Its inputs are a list of
-- fields with what an input shows of its state: whether it is enabled, and its message.
pub mod Messages
pub mod Shown
pub mod Rows
pub mod Saving
use tstlan_web.Base.{
  ℕ, zero, suc, ◌+◌, ◌-◌, ◌*◌, ◌/◌, ◌%◌, ◌^◌, ◌≤◌, ◌<◌, ◌≡◌, ◌≢◌, refl, ap, sym, ◌∙◌, ◌↔◌, ◌⊎◌, inl,
  inr, Bool, true, false, ◌&&◌, ◌||◌, not, List, [], ◌∷◌, ◌++◌, map, append-nil, append_assoc,
  Option, none, some, arith, ltb, leb, ◌==◌, if◌then◌else◌, ltb→lt, lt→ltb, leb→le, le→leb, or_else,
  All, All-append, All-drop, length, drop, get_elem?, keep, Among, Empty, Among-map, map-Among,
  keep-append, Among-keep, get_elem?-drop-append, get_elem?-map, some_eq, length-append,
  length-drop, length-map, Bool-cases, Option-cases, ite, ℕ_discrete,
}
use tstlan_web.Base.Text.{
  Str, codes, Str_discrete, is_space, trim, is_empty, NoSpace, trim_of_NoSpace, trim_idempotent,
}
use tstlan_web.Base.Number.{
  ℤ, pos, negsuc, neg, Num, fin, inf, neg_inf, int, less_than, more_than, number_of, to_double,
  round_from, round_half_even, finite_magnitude,
}
use tstlan_web.Base.Number.Decimal.{
  decimal, all_digits, is_digit, value, number_text, decimal_lem, digit_plain,
  NoSpace-of_all_digits, IsDigits, IsDigits-of_all_digits,
}
use tstlan_web.Base.Record.{
  has, add, add_all, has-add_all, AreDistinct, add_all-distinct, has-Among, delete, has-append,
  has-add, has-delete, lookup, assign, remove, lookup-assign, lookup-remove,
}
use tstlan_web.Api.{
  Role, Identity, Cause, api_error, other, UserSummary, DeviceStatus, NetVarCType, NetVarMode,
  VariableInfo, DeviceDetail, ConfigVisibility, SharePermission, ConfigAccess, Transport, ModbusMap,
  ConnectionSettings, ConfigVar, ConfigPayload, ShareInfo, ConfigSummary, ConfigDetail,
  ConfigCreate, ConfigUpdate, has_status, Result, success, failure,
}
use tstlan_web.Config.{
  VariableDraft, ConfigFormDraft, can_publish, needs_network, is_modbus, is_gpib, is_com,
}
use tstlan_web.Config.Validate.{
  ModbusField, modbus_fields, ConfigFieldErrors, validate_config_form, has_errors, is_none,
}
use tstlan_web.Editor.{ConfigFormMode}

pub record Form : Type 0 where
  pub draft : ConfigFormDraft
  pub show_errors : Bool
  pub saved : Bool

unfoldable pub initial : ConfigFormDraft → Form
initial draft = record { draft = draft; show_errors = false; saved = false }

unfoldable pub meta_editable : ConfigFormMode → Bool
meta_editable ConfigFormMode.create = true
meta_editable ConfigFormMode.owner = true
meta_editable _ = false

unfoldable pub device_type_editable : ConfigFormMode → Bool
device_type_editable ConfigFormMode.create = true
device_type_editable _ = false

-- `payloadEditable` and `showSubmit`
unfoldable pub payload_editable : ConfigFormMode → Bool
payload_editable ConfigFormMode.read = false
payload_editable _ = true

-- `update`; the patch is a function on the draft.
unfoldable pub update : (ConfigFormDraft → ConfigFormDraft) → Form → Form
update patch f = record f { saved = false; draft = patch f.draft }

-- `onFormSubmit`: the form after it, and the draft that is handed to `onSubmit`, which is `save`.
unfoldable pub on_form_submit : (ConfigFormDraft → Bool) → Form → Form × Option ConfigFormDraft
on_form_submit save f =
    if has_errors (validate_config_form f.draft)
    then (record f { show_errors = true }, none)
    else (record f { show_errors = true; saved = save f.draft }, some f.draft)

-- The end of the time that the confirmation is shown.
unfoldable pub confirmation_over : Form → Form
confirmation_over f = record f { saved = false }

pub data FieldId : Type 0 where
  name device_type visibility transport poll_period_ms ip port gpib_addr com_name ip_request :
      FieldId
  count : ModbusField → FieldId
  variable : ℕ → FieldId

pub record Field : Type 0 where
  pub id : FieldId
  pub enabled : Bool
  pub error : Option Str

abbrev pub only {ℓ} : {A : Type ℓ} → Bool → List A → List A
only true xs = xs
only false xs = []

-- `errors?.[key]`; the keys are compared by `same`.
abbrev pub error_at {ℓ} : {K : Type ℓ} → (K → K → Bool) → K → List (K × Str) → Option Str
error_at same k [] = none
error_at same k ((j, message) ∷ rest) =
    let later = error_at same k rest in if same j k then some message else later

abbrev pub error_in {ℓ} : {K : Type ℓ} → (K → K → Bool) → K → Option (List (K × Str)) → Option Str
error_in same k none = none
error_in same k (some errors) = error_at same k errors

abbrev pub same_field : ModbusField → ModbusField → Bool
same_field ModbusField.discrete_inputs_bytes ModbusField.discrete_inputs_bytes = true
same_field ModbusField.coils_bytes ModbusField.coils_bytes = true
same_field ModbusField.holding_registers ModbusField.holding_registers = true
same_field ModbusField.input_registers ModbusField.input_registers = true
same_field _ _ = false

-- The positions of the rows of `VariablesSection`.
abbrev pub positions : ℕ → List VariableDraft → List ℕ
positions i [] = []
positions i (v ∷ vs) = i ∷ positions (suc i) vs

module _ (editable : Bool) where
  abbrev pub plain : FieldId → Option Str → Field
  plain id error = record { id = id; enabled = editable; error = error }

  -- The fields of a draft that depend on the transport.
  unfoldable pub transport_fields : ConfigFormDraft → ConfigFieldErrors → List Field
  transport_fields d e =
      only (needs_network d.transport) (plain ip e.ip ∷ plain port e.port ∷ [])
      ++ (only (is_gpib d.transport) (plain gpib_addr e.gpib_addr ∷ [])
          ++ (only (is_com d.transport) (plain com_name e.com_name ∷ [])
              ++ only (is_modbus d.transport) (
                  plain ip_request none
                  ∷ map (λ k. plain (count k) (error_in same_field k e.modbus)) modbus_fields)))

  unfoldable pub variable_fields : ConfigFormDraft → ConfigFieldErrors → List Field
  variable_fields d e =
      map (λ i. plain (variable i) (error_in (λ a b. a == b) i e.variables))
        (positions 0 d.variables)

abbrev no_messages : ConfigFieldErrors
no_messages = record {
  name = none;
  device_type = none;
  ip = none;
  port = none;
  gpib_addr = none;
  com_name = none;
  poll_period_ms = none;
  modbus = none;
  variables = none;
}

-- `at` applied to every message: nothing is told before the first submission.
abbrev pub told : Form → ConfigFieldErrors
told f = if f.show_errors then validate_config_form f.draft else no_messages

unfoldable pub shown_fields : Role → ConfigFormMode → Form → List Field
shown_fields role mode f =
    let e = told f in
    let p = payload_editable mode in
    record { id = name; enabled = meta_editable mode; error = e.name }
    ∷ record { id = device_type; enabled = device_type_editable mode; error = e.device_type }
    ∷ (only (can_publish role && meta_editable mode)
          (record { id = visibility; enabled = true; error = none } ∷ [])
        ++ record { id = transport; enabled = p; error = none }
          ∷ record { id = poll_period_ms; enabled = p; error = e.poll_period_ms }
          ∷ (transport_fields p f.draft e ++ variable_fields p f.draft e))

unfoldable pub update_from :
    ℕ → ℕ → (VariableDraft → VariableDraft) → List VariableDraft → List VariableDraft
update_from position index patch [] = []
update_from position index patch (v ∷ vs) =
    let rest = update_from (suc position) index patch vs in
    if position == index then patch v ∷ rest else v ∷ rest

unfoldable pub update_at :
    ℕ → (VariableDraft → VariableDraft) → List VariableDraft → List VariableDraft
update_at index patch vs = update_from 0 index patch vs

unfoldable pub add_variable : List VariableDraft → List VariableDraft
add_variable vs =
    vs ++ record { name = []; ctype = NetVarCType.f32; graph = false; category = [] } ∷ []

unfoldable pub remove_from : ℕ → ℕ → List VariableDraft → List VariableDraft
remove_from position index [] = []
remove_from position index (v ∷ vs) =
    let rest = remove_from (suc position) index vs in if position == index then rest else v ∷ rest

unfoldable pub remove_at : ℕ → List VariableDraft → List VariableDraft
remove_at index vs = remove_from 0 index vs
