-- ===== src/Config.antt =====
-- The configuration of a device: web/tstlan-web/lib/configs.ts. Here are the draft of a form and the
-- tables that the parts share; the parts are the child modules.
pub mod Access
pub mod Fields
pub mod Offsets
pub mod Payload
pub mod Validate
use tstlan_web.Base.{
  ℕ, zero, suc, ◌+◌, ◌-◌, ◌*◌, ◌/◌, ◌%◌, ◌^◌, ◌≤◌, ◌<◌, ◌≡◌, ◌≢◌, refl, ap, sym, ◌∙◌, ◌↔◌, ◌⊎◌, inl,
  inr, Bool, true, false, ◌&&◌, ◌||◌, not, List, [], ◌∷◌, ◌++◌, map, append-nil, append_assoc,
  Option, none, some, arith, ltb, leb, ◌==◌, if◌then◌else◌, ltb→lt, lt→ltb, leb→le, le→leb, or_else,
  All, All-append, All-drop, length, drop, get_elem?, length-append, length-drop, length-map,
  Bool-cases, Option-cases, ite, ℕ_discrete,
}
use tstlan_web.Base.Text.{
  Str, codes, Str_discrete, is_space, trim, is_empty, NoSpace, trim_of_NoSpace, trim_idempotent,
}
use tstlan_web.Base.Number.{
  ℤ, pos, negsuc, neg, Num, fin, inf, neg_inf, int, less_than, more_than, number_of, to_double,
  round_from, round_half_even, finite_magnitude,
}
use tstlan_web.Base.Number.Decimal.{
  decimal, all_digits, is_digit, value, number_text, decimal_lem, digit_plain,
  NoSpace-of_all_digits,
}
use tstlan_web.Base.Record.{
  has, add, delete, has-append, has-add, has-delete, lookup, assign, remove, lookup-assign,
  lookup-remove,
}
use tstlan_web.Api.{
  Role, Identity, Cause, api_error, other, UserSummary, DeviceStatus, NetVarCType, NetVarMode,
  VariableInfo, DeviceDetail, ConfigVisibility, SharePermission, ConfigAccess, Transport, ModbusMap,
  ConnectionSettings, ConfigVar, ConfigPayload, ShareInfo, ConfigSummary, ConfigDetail,
  ConfigCreate, ConfigUpdate, has_status,
}

pub record VariableDraft : Type 0 where
  pub name : Str
  pub ctype : NetVarCType
  pub graph : Bool
  pub category : Str

pub record ConfigFormDraft : Type 0 where
  pub name : Str
  pub device_type : Str
  pub visibility : ConfigVisibility
  pub transport : Transport
  pub ip : Str
  pub port : Str
  pub gpib_addr : Str
  pub com_name : Str
  pub ip_request : Str
  pub poll_period_ms : Str
  pub discrete_inputs_bytes : Str
  pub coils_bytes : Str
  pub holding_registers : Str
  pub input_registers : Str
  pub params : List (Str × Str)
  pub variables : List VariableDraft

abbrev pub port_min : ℕ
port_min = 1

abbrev pub port_max : ℕ
port_max = 65535

abbrev pub gpib_min : ℕ
gpib_min = 0

abbrev pub gpib_max : ℕ
gpib_max = 30

abbrev pub name_max : ℕ
name_max = 128

abbrev pub device_type_max : ℕ
device_type_max = 64

-- Roles that may choose the public visibility.
unfoldable pub can_publish : Role → Bool
can_publish Role.dev = true
can_publish Role.admin = true
can_publish Role.user = false

unfoldable pub is_modbus : Transport → Bool
is_modbus Transport.modbus_tcp = true
is_modbus Transport.modbus_udp = true
is_modbus _ = false

abbrev is_ethernet : Transport → Bool
is_ethernet Transport.ethernet = true
is_ethernet _ = false

unfoldable pub needs_network : Transport → Bool
unfolding is_modbus
needs_network t = is_ethernet t || is_modbus t

-- `transport === "gpib"`
abbrev pub is_gpib : Transport → Bool
is_gpib Transport.gpib = true
is_gpib _ = false

-- `transport === "com"`
abbrev pub is_com : Transport → Bool
is_com Transport.com_port = true
is_com _ = false

unfoldable pub empty_draft : ConfigFormDraft
empty_draft = record {
  name = [];
  device_type = [];
  visibility = ConfigVisibility.private;
  transport = Transport.ethernet;
  ip = [];
  port = [];
  gpib_addr = [];
  com_name = [];
  ip_request = [];
  poll_period_ms = codes "200";
  discrete_inputs_bytes = codes "0";
  coils_bytes = codes "0";
  holding_registers = codes "0";
  input_registers = codes "0";
  params = [];
  variables = [];
}
