-- ===== src/Config/Payload/Sound.antt =====
-- The payload of a draft that passed the checks of the form.
use tstlan_web.Base.{
  ℕ, suc, ◌^◌, ◌≤◌, ◌<◌, ◌≡◌, ◌≢◌, refl, ap, inl, inr, Bool, true, false, List, [], ◌∷◌, map,
  Option, none, some, arith, lt→ltb, or_else, All, get_elem?,
}
use tstlan_web.Base.Text.{Str, trim, trim_idempotent}
use tstlan_web.Base.Number.{Num, int, less_than, more_than}
use tstlan_web.Base.Number.Decimal.{all_digits, value}
use tstlan_web.Api.{ModbusMap, ConfigPayload}
use tstlan_web.Base.Number.Rounding.{number_of_small, number_of_negative_zero, number_of_compare}
use tstlan_web.Config.{
  VariableDraft, ConfigFormDraft, port_min, port_max, gpib_min, gpib_max, is_modbus, needs_network,
  is_gpib, is_com,
}
use tstlan_web.Config.Fields.{parse_int_strict, parse_count, parse_trimmed, nonnegative}
use tstlan_web.Config.Fields.Laws.{Spells, parse_digits, parse_minus}
use tstlan_web.Config.Validate.{validate_config_form, has_errors}
use tstlan_web.Config.Validate.Fields.{InRange}
use tstlan_web.Config.Validate.Laws.{IsValidDraft, validate_config_form_iff}
use tstlan_web.Config.Payload.{some_text, if_some, payload_variable, modbus_map, draft_to_payload}

-- `o` is a natural number of the range.
abbrev pub IsInRange : ℕ → ℕ → Option Num → Type 0
IsInRange lo hi o = (n : ℕ) × (o ≡ some (int n)) × (lo ≤ n) × (n ≤ hi)

-- `o` is a trimmed text that is not empty.
abbrev pub IsFilled : Option Str → Type 0
IsFilled o = (s : Str) × (o ≡ some s) × (s ≢ []) × (trim s ≡ s)

-- A field that a transport needs: as `P` says for that transport, absent for another.
abbrev pub IsNeeded {ℓ κ} : {A : Type ℓ} → Bool → (Option A → Type κ) → Option A → Type (ℓ ⊔ κ)
IsNeeded needed P o = ((needed ≡ true → P o) × (needed ≡ false → o ≡ none))

-- All four counts are there, and none is negative.
abbrev pub AreNonnegative : Option ModbusMap → Type 0
AreNonnegative o =
    (m : ModbusMap) × (o ≡ some m)
    × (less_than m.discrete_inputs_bytes 0 ≡ false)
    × (less_than m.coils_bytes 0 ≡ false)
    × (less_than m.holding_registers 0 ≡ false)
    × (less_than m.input_registers 0 ≡ false)

-- The payload names exactly what its transport needs, with numbers in range, a positive polling
-- period, counts that are not negative, and variables whose names are trimmed and not empty.
pub record IsAcceptable (p : ConfigPayload) : Type 0 where
  pub ip : IsNeeded (needs_network p.connection.transport) IsFilled p.connection.ip
  pub port :
      IsNeeded
        (needs_network p.connection.transport)
        (IsInRange port_min port_max)
        p.connection.port
  pub gpib_addr :
      IsNeeded (is_gpib p.connection.transport) (IsInRange gpib_min gpib_max) p.connection.gpib_addr
  pub com_name : IsNeeded (is_com p.connection.transport) IsFilled p.connection.com_name
  pub poll_period_ms : more_than p.connection.poll_period_ms 0 ≡ true
  pub modbus : IsNeeded (is_modbus p.connection.transport) AreNonnegative p.connection.modbus
  pub variables : All (λ v. (v.name ≢ []) × (trim v.name ≡ v.name)) p.variables

parse-Spells : (t : Str) (n : ℕ) → n < 2 ^ 53 → Spells t n → parse_trimmed t ≡ some (int n)
parse-Spells t n h (inl (d, e)) = rw (parse_digits t d, e) (ap some (number_of_small n h))
parse-Spells t n h (inr (ds, s, d, z, e)) =
    rw (s, parse_minus ds d, z, e) (ap some number_of_negative_zero)

range-kept :
    (lo hi : ℕ) (s : Str)
    → hi < 2 ^ 52
    → InRange lo hi (trim s)
    → IsInRange lo hi (parse_int_strict s)
unfolding parse_int_strict
range-kept lo hi s small (n, sp, p, q) = (n, parse-Spells (trim s) n (omega arith) sp, p, q)

if_some-IsNeeded :
    {A : Type 0} (b : Bool) (P : Option A → Type 0) (o : Option A)
    → (b ≡ true → P o)
    → IsNeeded b P (if_some b o)
if_some-IsNeeded true P o h = (λ e. h refl, λ e. cc)
if_some-IsNeeded false P o h = (λ e. cc, λ e. refl)

some_text-IsFilled : (t : Str) → trim t ≡ t → t ≢ [] → IsFilled (some_text t)
some_text-IsFilled [] e h = absurd (h refl)
some_text-IsFilled (c ∷ t) e h = (c ∷ t, refl, h, e)

period-kept :
    (s : Str)
    → all_digits (trim s) ≡ true
    → 0 < value 0 (trim s)
    → more_than (or_else (parse_int_strict s) (int 0)) 0 ≡ true
unfolding parse_int_strict
period-kept s d p =
    rw (parse_digits (trim s) d)
      (rw (number_of_compare (value 0 (trim s)) 0 (omega arith)).1 (lt→ltb _ _ p))

count_nonnegative : (s : Str) → less_than (or_else (parse_count s) (int 0)) 0 ≡ false
unfolding parse_count nonnegative
count_nonnegative s = ground arith

modbus-kept : (d : ConfigFormDraft) → AreNonnegative (some (modbus_map d))
unfolding modbus_map
modbus-kept d = (
  modbus_map d,
  refl,
  count_nonnegative d.discrete_inputs_bytes,
  count_nonnegative d.coils_bytes,
  count_nonnegative d.holding_registers,
  count_nonnegative d.input_registers,
)

variables-kept :
    (vs : List VariableDraft)
    → ((p : ℕ) (v : VariableDraft) → get_elem? vs p ≡ some v → trim v.name ≢ [])
    → All (λ v. (v.name ≢ []) × (trim v.name ≡ v.name)) (map payload_variable vs)
variables-kept [] h = tt
variables-kept (v ∷ vs) h = (
  unfold payload_variable in (h 0 v refl, trim_idempotent v.name),
  variables-kept vs (λ p w e. h (suc p) w e),
)

IsValidDraft-IsAcceptable :
    (d : ConfigFormDraft) → IsValidDraft d → IsAcceptable (draft_to_payload d)
unfolding draft_to_payload
IsValidDraft-IsAcceptable d v = record {
  ip =
      if_some-IsNeeded (needs_network d.transport) IsFilled (some_text (trim d.ip))
        (λ e. some_text-IsFilled (trim d.ip) (trim_idempotent d.ip) (v.ip e));
  port =
      if_some-IsNeeded (needs_network d.transport) (IsInRange port_min port_max)
        (parse_int_strict d.port)
        (λ e. range-kept port_min port_max d.port (omega arith) (v.port e));
  gpib_addr =
      if_some-IsNeeded (is_gpib d.transport) (IsInRange gpib_min gpib_max)
        (parse_int_strict d.gpib_addr)
        (λ e. range-kept gpib_min gpib_max d.gpib_addr (omega arith) (v.gpib_addr e));
  com_name =
      if_some-IsNeeded (is_com d.transport) IsFilled (some_text (trim d.com_name))
        (λ e. some_text-IsFilled (trim d.com_name) (trim_idempotent d.com_name) (v.com_name e));
  poll_period_ms = period-kept d.poll_period_ms v.poll_period_ms.0 v.poll_period_ms.1;
  modbus =
      if_some-IsNeeded (is_modbus d.transport) AreNonnegative (some (modbus_map d))
        (λ e. modbus-kept d);
  variables = variables-kept d.variables (λ p w e. (v.variables p w e).0);
}

-- A draft in which the form reports no error has an acceptable payload.
pub draft_to_payload-IsAcceptable :
    (d : ConfigFormDraft)
    → has_errors (validate_config_form d) ≡ false
    → IsAcceptable (draft_to_payload d)
draft_to_payload-IsAcceptable d h = IsValidDraft-IsAcceptable d ((validate_config_form_iff d).0 h)
