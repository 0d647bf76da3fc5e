-- ===== src/Config/Offsets.antt =====
-- The address of each variable of a configuration: `variableOffsets` and `formatOffset` of
-- web/tstlan-web/lib/configs.ts.
pub mod Layout
pub mod Format
use tstlan_web.Base.{
  ℕ, zero, suc, ◌+◌, ◌-◌, ◌*◌, ◌/◌, ◌%◌, ◌^◌, ◌≤◌, ◌<◌, ◌≡◌, ◌≢◌, refl, ap, sym, ◌∙◌, ◌↔◌, ◌⊎◌, inl,
  inr, Bool, true, false, ◌&&◌, ◌||◌, not, List, [], ◌∷◌, ◌++◌, map, append-nil, append_assoc,
  Option, none, some, arith, ltb, leb, ◌==◌, if◌then◌else◌, ltb→lt, lt→ltb, leb→le, le→leb, or_else,
  All, All-append, All-drop, length, drop, get_elem?, length-append, length-drop, length-map,
  Bool-cases, Option-cases, ite, ℕ_discrete,
}
use tstlan_web.Base.Text.{
  Str, codes, Str_discrete, is_space, trim, is_empty, NoSpace, trim_of_NoSpace, trim_idempotent,
}
use tstlan_web.Base.Number.{
  ℤ, pos, negsuc, neg, Num, fin, inf, neg_inf, int, less_than, more_than, number_of, to_double,
  round_from, round_half_even, finite_magnitude,
}
use tstlan_web.Base.Number.Decimal.{
  decimal, all_digits, is_digit, value, number_text, decimal_lem, digit_plain,
  NoSpace-of_all_digits,
}
use tstlan_web.Base.Record.{
  has, add, delete, has-append, has-add, has-delete, lookup, assign, remove, lookup-assign,
  lookup-remove,
}
use tstlan_web.Api.{
  Role, Identity, Cause, api_error, other, UserSummary, DeviceStatus, NetVarCType, NetVarMode,
  VariableInfo, DeviceDetail, ConfigVisibility, SharePermission, ConfigAccess, Transport, ModbusMap,
  ConnectionSettings, ConfigVar, ConfigPayload, ShareInfo, ConfigSummary, ConfigDetail,
  ConfigCreate, ConfigUpdate, has_status,
}
use tstlan_web.Config.{VariableDraft}

-- `ctype === "bit"`
unfoldable pub is_bit : NetVarCType → Bool
is_bit NetVarCType.bit = true
is_bit _ = false

-- The size of a value in bytes.
unfoldable pub byte_size : NetVarCType → ℕ
byte_size NetVarCType.bit = 1
byte_size NetVarCType.u8 = 1
byte_size NetVarCType.i8 = 1
byte_size NetVarCType.u16 = 2
byte_size NetVarCType.i16 = 2
byte_size NetVarCType.u32 = 4
byte_size NetVarCType.i32 = 4
byte_size NetVarCType.u64 = 8
byte_size NetVarCType.i64 = 8
byte_size NetVarCType.f32 = 4
byte_size NetVarCType.f64 = 8

pub record VarOffset : Type 0 where
  pub byte : ℕ
  pub bit : Option ℕ

-- `isBit ? 0 : null`
abbrev pub first_bit : Bool → Option ℕ
first_bit true = some 0
first_bit false = none

-- One round of the loop behind a variable at `o` of type `c`.
unfoldable pub next_offset : VarOffset → NetVarCType → Bool → VarOffset
next_offset o c bit =
    if is_bit c && bit
    then if leb 7 (or_else o.bit 0)
      then record { byte = o.byte + 1; bit = some 0 }
      else record { byte = o.byte; bit = some (or_else o.bit 0 + 1) }
    else record { byte = o.byte + byte_size c; bit = first_bit bit }

-- `cur` from `prev` and `prevCtype`, which are `null` before the first round.
unfoldable pub current_offset : Option VarOffset → Option NetVarCType → Bool → VarOffset
unfolding next_offset
current_offset (some o) (some c) bit = next_offset o c bit
current_offset _ _ bit = record { byte = 0; bit = first_bit bit }

-- The loop, with the variables that it keeps from round to round.
unfoldable pub offsets_from :
    Option VarOffset → Option NetVarCType → List VariableDraft → List VarOffset
offsets_from prev prev_ctype [] = []
offsets_from prev prev_ctype (v ∷ vs) =
    let cur = current_offset prev prev_ctype (is_bit v.ctype) in
    cur ∷ offsets_from (some cur) (some v.ctype) vs

unfoldable pub variable_offsets : List VariableDraft → List VarOffset
unfolding offsets_from current_offset
variable_offsets vs = offsets_from none none vs

abbrev bit_text : Option ℕ → Str
bit_text none = []
bit_text (some b) = b'-' ∷ decimal b

-- "5" for a variable of whole bytes, "1-3" for a bit; the numbers are below 2 ^ 53.
unfoldable pub format_offset : VarOffset → Str
format_offset o = decimal o.byte ++ bit_text o.bit
