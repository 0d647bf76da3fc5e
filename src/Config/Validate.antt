-- ===== src/Config/Validate.antt =====
-- The checks of the form before it is sent: `validateConfigForm`, `validateVariables` and
-- `hasErrors` of web/tstlan-web/lib/configs.ts. A property of `errors` that is absent is `none`; the
-- source sets each property in a statement of its own, here each is a function.
pub mod Fields
pub mod Variables
pub mod Laws
use tstlan_web.Base.{
  ℕ, zero, suc, ◌+◌, ◌-◌, ◌*◌, ◌/◌, ◌%◌, ◌^◌, ◌≤◌, ◌<◌, ◌≡◌, ◌≢◌, refl, ap, sym, ◌∙◌, ◌↔◌, ◌⊎◌, inl,
  inr, Bool, true, false, ◌&&◌, ◌||◌, not, List, [], ◌∷◌, ◌++◌, map, append-nil, append_assoc,
  Option, none, some, arith, ltb, leb, ◌==◌, if◌then◌else◌, ltb→lt, lt→ltb, leb→le, le→leb, or_else,
  All, All-append, All-drop, length, drop, get_elem?, get_elem?-map, length-append, length-drop,
  length-map, Bool-cases, Option-cases, ite, ℕ_discrete,
}
use tstlan_web.Base.Text.{
  Str, codes, Str_discrete, is_space, trim, is_empty, NoSpace, trim_of_NoSpace, trim_idempotent,
}
use tstlan_web.Base.Number.{
  ℤ, pos, negsuc, neg, Num, fin, inf, neg_inf, int, less_than, more_than, number_of, to_double,
  round_from, round_half_even, finite_magnitude,
}
use tstlan_web.Base.Number.Decimal.{
  decimal, all_digits, is_digit, value, number_text, decimal_lem, digit_plain,
  NoSpace-of_all_digits, IsDigits, IsDigits-of_all_digits,
}
use tstlan_web.Base.Record.{
  has, add, delete, has-append, has-add, has-delete, lookup, assign, remove, lookup-assign,
  lookup-remove,
}
use tstlan_web.Api.{
  Role, Identity, Cause, api_error, other, UserSummary, DeviceStatus, NetVarCType, NetVarMode,
  VariableInfo, DeviceDetail, ConfigVisibility, SharePermission, ConfigAccess, Transport, ModbusMap,
  ConnectionSettings, ConfigVar, ConfigPayload, ShareInfo, ConfigSummary, ConfigDetail,
  ConfigCreate, ConfigUpdate, has_status,
}
use tstlan_web.Config.{
  VariableDraft, ConfigFormDraft, port_min, port_max, gpib_min, gpib_max, name_max, device_type_max,
  is_modbus, needs_network, is_gpib, is_com,
}
use tstlan_web.Config.Fields.{parse_int_strict, parse_count, out_of_range, not_positive}

pub data ModbusField : Type 0 where
  discrete_inputs_bytes coils_bytes holding_registers input_registers : ModbusField

abbrev pub modbus_fields : List ModbusField
modbus_fields = discrete_inputs_bytes ∷ coils_bytes ∷ holding_registers ∷ input_registers ∷ []

-- `draft[field.key]`
abbrev pub modbus_text : ConfigFormDraft → ModbusField → Str
modbus_text d discrete_inputs_bytes = d.discrete_inputs_bytes
modbus_text d coils_bytes = d.coils_bytes
modbus_text d holding_registers = d.holding_registers
modbus_text d input_registers = d.input_registers

pub record ConfigFieldErrors : Type 0 where
  pub name : Option Str
  pub device_type : Option Str
  pub ip : Option Str
  pub port : Option Str
  pub gpib_addr : Option Str
  pub com_name : Option Str
  pub poll_period_ms : Option Str
  pub modbus : Option (List (ModbusField × Str))
  pub variables : Option (List (ℕ × Str))

-- A text that must not be empty and has at most `most` code units.
unfoldable pub text_error : Str → Str → ℕ → Option Str
text_error missing t most =
    if is_empty t
    then some missing
    else if ltb most (length t)
    then some (codes "не длиннее " ++ decimal most ++ codes " символов")
    else none

abbrev pub when : Bool → Str → Option Str
when true message = some message
when false message = none

unfoldable pub ip_error : ConfigFormDraft → Option Str
ip_error d =
    if needs_network d.transport
    then when (is_empty (trim d.ip)) (codes "укажите IP-адрес")
    else none

unfoldable pub port_error : ConfigFormDraft → Option Str
port_error d =
    if needs_network d.transport
    then when (out_of_range port_min port_max (parse_int_strict d.port))
        (codes "порт " ++ decimal port_min ++ codes "-" ++ decimal port_max)
    else none

unfoldable pub gpib_error : ConfigFormDraft → Option Str
gpib_error d =
    if is_gpib d.transport
    then when (out_of_range gpib_min gpib_max (parse_int_strict d.gpib_addr))
        (codes "адрес GPIB " ++ decimal gpib_min ++ codes "-" ++ decimal gpib_max)
    else none

unfoldable pub com_error : ConfigFormDraft → Option Str
com_error d =
    when (is_com d.transport && is_empty (trim d.com_name)) (codes "укажите имя COM-порта")

unfoldable pub period_error : ConfigFormDraft → Option Str
period_error d =
    when (not_positive (parse_int_strict d.poll_period_ms)) (codes "период опроса: целое > 0")

abbrev pub is_none {ℓ} : {A : Type ℓ} → Option A → Bool
is_none none = true
is_none (some _) = false

-- `Object.keys(found).length > 0 ? found : undefined`
abbrev pub if_any {ℓ} : {A : Type ℓ} → List A → Option (List A)
if_any [] = none
if_any (x ∷ xs) = some (x ∷ xs)

-- The loop over the fields of Modbus.
unfoldable pub modbus_errors : ConfigFormDraft → List ModbusField → List (ModbusField × Str)
modbus_errors d [] = []
modbus_errors d (field ∷ fields) =
    let rest = modbus_errors d fields in
    if is_none (parse_count (modbus_text d field)) then (field, codes "целое >= 0") ∷ rest else rest

unfoldable pub modbus_error : ConfigFormDraft → Option (List (ModbusField × Str))
modbus_error d = if is_modbus d.transport then if_any (modbus_errors d modbus_fields) else none

-- What one round of `validateVariables` reports of a trimmed name.
unfoldable pub variable_error : List Str → Str → Option Str
variable_error seen name =
    if is_empty name
    then some (codes "укажите имя")
    else when (has Str_discrete name seen) (codes "имя повторяется")

abbrev pub report : ℕ → Option Str → List (ℕ × Str) → List (ℕ × Str)
report position none rest = rest
report position (some message) rest = (position, message) ∷ rest

-- The loop of `validateVariables`; `seen` grows by every name, an empty one too.
unfoldable pub variable_errors : ℕ → List Str → List VariableDraft → List (ℕ × Str)
variable_errors position seen [] = []
variable_errors position seen (v ∷ vs) =
    let name = trim v.name in
    report position (variable_error seen name)
      (variable_errors (suc position) (add Str_discrete name seen) vs)

unfoldable pub validate_variables : List VariableDraft → List (ℕ × Str)
unfolding variable_errors variable_error
validate_variables vs = variable_errors 0 [] vs

unfoldable pub validate_config_form : ConfigFormDraft → ConfigFieldErrors
validate_config_form d = record {
  name = text_error (codes "укажите название") (trim d.name) name_max;
  device_type = text_error (codes "укажите тип прибора") (trim d.device_type) device_type_max;
  ip = ip_error d;
  port = port_error d;
  gpib_addr = gpib_error d;
  com_name = com_error d;
  poll_period_ms = period_error d;
  modbus = modbus_error d;
  variables = if_any (validate_variables d.variables);
}

-- `Object.keys(errors).length > 0`
unfoldable pub has_errors : ConfigFieldErrors → Bool
has_errors e =
    not (is_none e.name)
    || not (is_none e.device_type)
    || not (is_none e.ip)
    || not (is_none e.port)
    || not (is_none e.gpib_addr)
    || not (is_none e.com_name)
    || not (is_none e.poll_period_ms)
    || not (is_none e.modbus)
    || not (is_none e.variables)
