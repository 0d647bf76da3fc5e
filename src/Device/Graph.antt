-- ===== src/Device/Graph.antt =====
-- The configuration whose flags choose the variables on the chart of a device:
-- web/tstlan-web/lib/device-graph.ts. `localeCompare` is a parameter: its order depends on the locale.
use tstlan_web.Base.{
  ℕ, zero, suc, ◌+◌, ◌-◌, ◌*◌, ◌/◌, ◌%◌, ◌^◌, ◌≤◌, ◌<◌, ◌≡◌, ◌≢◌, refl, ap, sym, ◌∙◌, ◌↔◌, ◌⊎◌, inl,
  inr, Bool, true, false, ◌&&◌, ◌||◌, not, List, [], ◌∷◌, ◌++◌, map, append-nil, append_assoc,
  Option, none, some, arith, ltb, leb, ◌==◌, if◌then◌else◌, ltb→lt, lt→ltb, leb→le, le→leb, or_else,
  All, All-append, All-drop, length, drop, get_elem?, keep, Among, Empty, keep-append, Among-keep,
  get_elem?-drop-append, get_elem?-map, some_eq, length-append, length-drop, length-map, Bool-cases,
  Option-cases, ite, ℕ_discrete,
}
use tstlan_web.Base.Text.{
  Str, codes, Str_discrete, is_space, trim, is_empty, NoSpace, trim_of_NoSpace, trim_idempotent,
}
use tstlan_web.Base.Number.{
  ℤ, pos, negsuc, neg, Num, fin, inf, neg_inf, int, less_than, more_than, number_of, to_double,
  round_from, round_half_even, finite_magnitude,
}
use tstlan_web.Base.Number.Decimal.{
  decimal, all_digits, is_digit, value, number_text, decimal_lem, digit_plain,
  NoSpace-of_all_digits, IsDigits, IsDigits-of_all_digits,
}
use tstlan_web.Base.Record.{
  has, add, add_all, has-add_all, AreDistinct, add_all-distinct, has-Among, delete, has-append,
  has-add, has-delete, lookup, assign, remove, lookup-assign, lookup-remove,
}
use tstlan_web.Base.Sort.{sort}
use tstlan_web.Api.{
  Role, Identity, Cause, api_error, other, UserSummary, DeviceStatus, NetVarCType, NetVarMode,
  VariableInfo, DeviceDetail, ConfigVisibility, SharePermission, ConfigAccess, Transport, ModbusMap,
  ConnectionSettings, ConfigVar, ConfigPayload, ShareInfo, ConfigSummary, ConfigDetail,
  ConfigCreate, ConfigUpdate, has_status,
}
pub mod Laws
pub mod Selection
use Prim.Native.Nat.{Ordering}
use tstlan_web.Config.Access.{is_owner}

-- `Number(b === "owner") - Number(a === "owner")`, by its sign
abbrev pub owner_order : Bool → Bool → Ordering
owner_order true false = Ordering.lt
owner_order false true = Ordering.gt
owner_order true true = Ordering.eq
owner_order false false = Ordering.eq

-- `o !== 0 ? o : p`
abbrev pub then_by : Ordering → Ordering → Ordering
then_by Ordering.lt p = Ordering.lt
then_by Ordering.eq p = p
then_by Ordering.gt p = Ordering.gt

abbrev pub is_lt : Ordering → Bool
is_lt Ordering.lt = true
is_lt _ = false

abbrev pub head_of {ℓ} : {A : Type ℓ} → List A → Option A
head_of [] = none
head_of (x ∷ _) = some x

-- `localeCompare`, of which a sort needs that it is a consistent order.
pub record Comparison : Type 0 where
  pub compare : Str → Str → Ordering
  pub asymmetric : (a b : Str) → is_lt (compare a b) ≡ true → is_lt (compare b a) ≡ false
  pub transitive :
      (a b c : Str)
      → is_lt (compare b a) ≡ false
      → is_lt (compare c b) ≡ false
      → is_lt (compare c a) ≡ false

module _ (compare : Str → Str → Ordering) where
  unfoldable pub by_preference : ConfigSummary → ConfigSummary → Ordering
  by_preference a b =
      then_by (owner_order (is_owner a.access) (is_owner b.access))
        (compare b.updated_at a.updated_at)

  -- Whether one configuration stands before another.
  unfoldable pub before : ConfigSummary → ConfigSummary → Bool
  unfolding by_preference
  before a b = is_lt (by_preference a b)

  abbrev pub matches : Str → ConfigSummary → Bool
  matches device_id s = ite (Str_discrete s.device_type device_id) true false

  unfoldable pub pick_device_config : List ConfigSummary → Str → Option ConfigSummary
  unfolding before
  pick_device_config summaries device_id =
      head_of (sort before (keep (matches device_id) summaries))

-- `new Set(names)` of the variables that are marked and that the device has.
unfoldable pub graph_selection : List ConfigVar → List Str → List Str
graph_selection config_vars device_var_names = add_all Str_discrete [] (
    map (λ v. v.name)
      (keep (λ v. v.graph && has Str_discrete v.name (add_all Str_discrete [] device_var_names))
        config_vars))
