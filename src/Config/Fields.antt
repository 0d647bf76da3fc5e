-- ===== src/Config/Fields.antt =====
-- Numbers typed into the form: `parseIntStrict` and `parseCount` of web/tstlan-web/lib/configs.ts.
pub mod Laws
pub mod Prints
use tstlan_web.Base.{
  ℕ, zero, suc, ◌+◌, ◌-◌, ◌*◌, ◌/◌, ◌%◌, ◌^◌, ◌≤◌, ◌<◌, ◌≡◌, ◌≢◌, refl, ap, sym, ◌∙◌, ◌↔◌, ◌⊎◌, inl,
  inr, Bool, true, false, ◌&&◌, ◌||◌, not, List, [], ◌∷◌, ◌++◌, map, append-nil, append_assoc,
  Option, none, some, arith, ltb, leb, ◌==◌, if◌then◌else◌, ltb→lt, lt→ltb, leb→le, le→leb, or_else,
  All, All-append, All-drop, length, drop, get_elem?, get_elem?-map, length-append, length-drop,
  length-map, Bool-cases, Option-cases, ite, ℕ_discrete,
}
use tstlan_web.Base.Text.{
  Str, codes, Str_discrete, is_space, trim, is_empty, NoSpace, trim_of_NoSpace, trim_idempotent,
}
use tstlan_web.Base.Number.{
  ℤ, pos, negsuc, neg, Num, fin, inf, neg_inf, int, less_than, more_than, number_of, to_double,
  round_from, round_half_even, finite_magnitude,
}
use tstlan_web.Base.Number.Decimal.{
  decimal, all_digits, is_digit, value, number_text, decimal_lem, digit_plain,
  NoSpace-of_all_digits, IsDigits, IsDigits-of_all_digits,
}
use tstlan_web.Base.Record.{
  has, add, delete, has-append, has-add, has-delete, lookup, assign, remove, lookup-assign,
  lookup-remove,
}
use tstlan_web.Api.{
  Role, Identity, Cause, api_error, other, UserSummary, DeviceStatus, NetVarCType, NetVarMode,
  VariableInfo, DeviceDetail, ConfigVisibility, SharePermission, ConfigAccess, Transport, ModbusMap,
  ConnectionSettings, ConfigVar, ConfigPayload, ShareInfo, ConfigSummary, ConfigDetail,
  ConfigCreate, ConfigUpdate, has_status,
}

-- `/^-?\d+$/` on a trimmed text
unfoldable pub matches_int : Str → Bool
matches_int [] = false
matches_int (c ∷ s) = if c == b'-' then all_digits s else all_digits (c ∷ s)

-- `Number` of a text that the pattern matches
unfoldable pub number_of_text : Str → Num
number_of_text [] = int 0
number_of_text (c ∷ s) =
    if c == b'-' then number_of true (value 0 s) else number_of false (value 0 (c ∷ s))

unfoldable pub parse_trimmed : Str → Option Num
unfolding matches_int number_of_text
parse_trimmed t = if matches_int t then some (number_of_text t) else none

unfoldable pub parse_int_strict : Str → Option Num
parse_int_strict raw = parse_trimmed (trim raw)

-- `value === null || value < 0 ? null : value`
unfoldable pub nonnegative : Option Num → Option Num
nonnegative none = none
nonnegative (some x) = if less_than x 0 then none else some x

-- A count of Modbus: an empty field is 0.
unfoldable pub parse_count : Str → Option Num
unfolding nonnegative
parse_count raw = if is_empty (trim raw) then some (int 0) else nonnegative (parse_int_strict raw)

-- `value === null || value < lo || value > hi`
unfoldable pub out_of_range : ℕ → ℕ → Option Num → Bool
out_of_range lo hi none = true
out_of_range lo hi (some x) = less_than x lo || more_than x hi

-- `value === null || value <= 0`; no value is NaN
unfoldable pub not_positive : Option Num → Bool
not_positive none = true
not_positive (some x) = not (more_than x 0)

parses :
    (parse_int_strict (codes " 502 ") ≡ some (int 502)) × (parse_int_strict (codes "5a") ≡ none)
unfolding parse_int_strict parse_trimmed all_digits is_digit value trim number_of to_double
    round_from round_half_even finite_magnitude
parses = (refl, refl)
