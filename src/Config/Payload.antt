-- ===== src/Config/Payload.antt =====
-- From the form to the payload of a request and back: `draftToPayload` and `configToDraft` of
-- web/tstlan-web/lib/configs.ts.
pub mod RoundTrip
pub mod Sound
use tstlan_web.Base.{
  ℕ, zero, suc, ◌+◌, ◌-◌, ◌*◌, ◌/◌, ◌%◌, ◌^◌, ◌≤◌, ◌<◌, ◌≡◌, ◌≢◌, refl, ap, sym, ◌∙◌, ◌↔◌, ◌⊎◌, inl,
  inr, Bool, true, false, ◌&&◌, ◌||◌, not, List, [], ◌∷◌, ◌++◌, map, append-nil, append_assoc,
  Option, none, some, arith, ltb, leb, ◌==◌, if◌then◌else◌, ltb→lt, lt→ltb, leb→le, le→leb, or_else,
  All, All-append, All-drop, length, drop, get_elem?, get_elem?-map, some_eq, length-append,
  length-drop, length-map, Bool-cases, Option-cases, ite, ℕ_discrete,
}
use tstlan_web.Base.Text.{
  Str, codes, Str_discrete, is_space, trim, is_empty, NoSpace, trim_of_NoSpace, trim_idempotent,
}
use tstlan_web.Base.Number.{
  ℤ, pos, negsuc, neg, Num, fin, inf, neg_inf, int, less_than, more_than, number_of, to_double,
  round_from, round_half_even, finite_magnitude,
}
use tstlan_web.Base.Number.Decimal.{
  decimal, all_digits, is_digit, value, number_text, decimal_lem, digit_plain,
  NoSpace-of_all_digits, IsDigits, IsDigits-of_all_digits,
}
use tstlan_web.Base.Record.{
  has, add, delete, has-append, has-add, has-delete, lookup, assign, remove, lookup-assign,
  lookup-remove,
}
use tstlan_web.Api.{
  Role, Identity, Cause, api_error, other, UserSummary, DeviceStatus, NetVarCType, NetVarMode,
  VariableInfo, DeviceDetail, ConfigVisibility, SharePermission, ConfigAccess, Transport, ModbusMap,
  ConnectionSettings, ConfigVar, ConfigPayload, ShareInfo, ConfigSummary, ConfigDetail,
  ConfigCreate, ConfigUpdate, has_status,
}
use tstlan_web.Config.{VariableDraft, ConfigFormDraft, is_modbus, needs_network, is_gpib, is_com}
use tstlan_web.Config.Fields.{parse_int_strict, parse_count}

-- `s !== "" ? s : null`
abbrev pub some_text : Str → Option Str
some_text [] = none
some_text (c ∷ s) = some (c ∷ s)

abbrev pub if_some {ℓ} : {A : Type ℓ} → Bool → Option A → Option A
if_some true o = o
if_some false o = none

unfoldable pub payload_variable : VariableDraft → ConfigVar
payload_variable v = record {
  name = trim v.name;
  ctype = v.ctype;
  graph = v.graph;
  category = trim v.category;
}

unfoldable pub modbus_map : ConfigFormDraft → ModbusMap
modbus_map d = record {
  discrete_inputs_bytes = or_else (parse_count d.discrete_inputs_bytes) (int 0);
  coils_bytes = or_else (parse_count d.coils_bytes) (int 0);
  holding_registers = or_else (parse_count d.holding_registers) (int 0);
  input_registers = or_else (parse_count d.input_registers) (int 0);
}

unfoldable pub draft_to_payload : ConfigFormDraft → ConfigPayload
unfolding payload_variable modbus_map
draft_to_payload d = record {
  connection = record {
    transport = d.transport;
    ip = if_some (needs_network d.transport) (some_text (trim d.ip));
    port = if_some (needs_network d.transport) (parse_int_strict d.port);
    gpib_addr = if_some (is_gpib d.transport) (parse_int_strict d.gpib_addr);
    com_name = if_some (is_com d.transport) (some_text (trim d.com_name));
    ip_request = some_text (trim d.ip_request);
    poll_period_ms = or_else (parse_int_strict d.poll_period_ms) (int 0);
    modbus = if_some (is_modbus d.transport) (some (modbus_map d));
    params = d.params;
  };
  variables = map payload_variable d.variables;
}

unfoldable pub draft_variable : ConfigVar → VariableDraft
draft_variable v = record { name = v.name; ctype = v.ctype; graph = v.graph; category = v.category }

abbrev pub no_counts : ModbusMap
no_counts = record {
  discrete_inputs_bytes = int 0;
  coils_bytes = int 0;
  holding_registers = int 0;
  input_registers = int 0;
}

-- `modbus?.field ?? 0`
abbrev pub counts_or_zero : Option ModbusMap → ModbusMap
counts_or_zero none = no_counts
counts_or_zero (some m) = m

module _ (large : ℤ → Str) where
  -- `x === null ? "" : String(x)`
  abbrev pub text_of : Option Num → Str
  text_of none = []
  text_of (some x) = number_text large x

  unfoldable pub config_to_draft : ConfigDetail → ConfigFormDraft
  unfolding draft_variable
  config_to_draft config =
      let c = config.payload.connection in
      let counts = counts_or_zero c.modbus in
      record {
        name = config.name;
        device_type = config.device_type;
        visibility = config.visibility;
        transport = c.transport;
        ip = or_else c.ip [];
        port = text_of c.port;
        gpib_addr = text_of c.gpib_addr;
        com_name = or_else c.com_name [];
        ip_request = or_else c.ip_request [];
        poll_period_ms = number_text large c.poll_period_ms;
        discrete_inputs_bytes = number_text large counts.discrete_inputs_bytes;
        coils_bytes = number_text large counts.coils_bytes;
        holding_registers = number_text large counts.holding_registers;
        input_registers = number_text large counts.input_registers;
        params = c.params;
        variables = map draft_variable config.payload.variables;
      }
