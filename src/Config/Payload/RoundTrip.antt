-- ===== src/Config/Payload/RoundTrip.antt =====
-- A stored configuration that is opened in the form and saved unchanged.
use tstlan_web.Base.{
  ℕ, ◌^◌, ◌<◌, ◌≡◌, ◌≢◌, refl, ap, sym, ◌∙◌, Bool, true, false, List, [], ◌∷◌, map, Option, none,
  some, or_else, All,
}
use tstlan_web.Base.Text.{Str, trim}
use tstlan_web.Base.Number.{ℤ, Num, int}
use tstlan_web.Base.Number.Decimal.{number_text}
use tstlan_web.Api.{ModbusMap, ConfigVar, ConfigPayload, ConfigDetail}
use tstlan_web.Config.{ConfigFormDraft, is_modbus, needs_network, is_gpib, is_com}
use tstlan_web.Config.Fields.{parse_trimmed, parse_int_strict, parse_count}
use tstlan_web.Config.Fields.Prints.{IsSafe, parse_int_strict-number_text, parse_count-number_text}
use tstlan_web.Config.Payload.{
  some_text, if_some, payload_variable, modbus_map, draft_to_payload, draft_variable,
  counts_or_zero, text_of, config_to_draft,
}

-- A text that is absent or else trimmed and not empty.
abbrev pub IsPlainText : Option Str → Type 0
IsPlainText none = Unit
IsPlainText (some s) = (trim s ≡ s) × (s ≢ [])

abbrev pub IsSafeOption : Option Num → Type 0
IsSafeOption none = Unit
IsSafeOption (some x) = IsSafe x

-- A natural number below 2 ^ 53.
abbrev pub IsSafeCount : Num → Type 0
IsSafeCount x = (n : ℕ) × (x ≡ int n) × (n < 2 ^ 53)

pub record AreSafeCounts (m : ModbusMap) : Type 0 where
  pub discrete_inputs_bytes : IsSafeCount m.discrete_inputs_bytes
  pub coils_bytes : IsSafeCount m.coils_bytes
  pub holding_registers : IsSafeCount m.holding_registers
  pub input_registers : IsSafeCount m.input_registers

-- A field of another transport is absent.
abbrev pub IsAbsentUnless {ℓ} : {A : Type ℓ} → Bool → Option A → Type ℓ
IsAbsentUnless true o = Unit
IsAbsentUnless false o = o ≡ none

-- The counts of Modbus are there exactly for its transports.
abbrev pub IsModbusShaped : Bool → Option ModbusMap → Type 0
IsModbusShaped true (some m) = AreSafeCounts m
IsModbusShaped true none = ⊥
IsModbusShaped false o = o ≡ none

-- A payload as the form stores it: texts trimmed, numbers safe, and no field of another transport.
pub record IsCanonical (p : ConfigPayload) : Type 0 where
  pub ip_text : IsPlainText p.connection.ip
  pub ip : IsAbsentUnless (needs_network p.connection.transport) p.connection.ip
  pub port_number : IsSafeOption p.connection.port
  pub port : IsAbsentUnless (needs_network p.connection.transport) p.connection.port
  pub gpib_number : IsSafeOption p.connection.gpib_addr
  pub gpib_addr : IsAbsentUnless (is_gpib p.connection.transport) p.connection.gpib_addr
  pub com_text : IsPlainText p.connection.com_name
  pub com_name : IsAbsentUnless (is_com p.connection.transport) p.connection.com_name
  pub ip_request : IsPlainText p.connection.ip_request
  pub poll_period_ms : IsSafe p.connection.poll_period_ms
  pub modbus : IsModbusShaped (is_modbus p.connection.transport) p.connection.modbus
  pub variables : All (λ v. (trim v.name ≡ v.name) × (trim v.category ≡ v.category)) p.variables

request-back : (o : Option Str) → IsPlainText o → some_text (trim (or_else o [])) ≡ o
request-back none p = unfold trim in refl
request-back (some []) p = absurd (p.1 refl)
request-back (some (c ∷ s)) p = rw p.0

text-back :
    (b : Bool) (o : Option Str)
    → IsPlainText o
    → IsAbsentUnless b o
    → if_some b (some_text (trim (or_else o []))) ≡ o
text-back true o p a = request-back o p
text-back false o p a = sym a

module _ (large : ℤ → Str) where
  number-back :
      (b : Bool) (o : Option Num)
      → IsSafeOption o
      → IsAbsentUnless b o
      → if_some b (parse_int_strict (text_of large o)) ≡ o
  number-back true none s a = unfold parse_int_strict parse_trimmed trim in refl
  number-back true (some x) s a = parse_int_strict-number_text large x s
  number-back false o s a = sym a

  count-back : (x : Num) → IsSafeCount x → or_else (parse_count (number_text large x)) (int 0) ≡ x
  count-back x (n, e, h) = rw (e, parse_count-number_text large n h)

variable-back :
    (v : ConfigVar)
    → trim v.name ≡ v.name
    → trim v.category ≡ v.category
    → payload_variable (draft_variable v) ≡ v
unfolding payload_variable draft_variable
variable-back v p q = λ i. record { name = p i; ctype = v.ctype; graph = v.graph; category = q i }

variables-back :
    (vs : List ConfigVar)
    → All (λ v. (trim v.name ≡ v.name) × (trim v.category ≡ v.category)) vs
    → map payload_variable (map draft_variable vs) ≡ vs
variables-back [] h = refl
variables-back (v ∷ vs) ((p, q), h) = rw (variable-back v p q, variables-back vs h)

module _ (large : ℤ → Str) where
  counts-back :
      (d : ConfigFormDraft) (m : ModbusMap)
      → d.discrete_inputs_bytes ≡ number_text large m.discrete_inputs_bytes
      → d.coils_bytes ≡ number_text large m.coils_bytes
      → d.holding_registers ≡ number_text large m.holding_registers
      → d.input_registers ≡ number_text large m.input_registers
      → AreSafeCounts m
      → modbus_map d ≡ m
  unfolding modbus_map
  counts-back d m e f g k c = λ i. record {
    discrete_inputs_bytes =
        (ap (λ t. or_else (parse_count t) (int 0)) e ∙ count-back large _ c.discrete_inputs_bytes)
          i;
    coils_bytes =
        (ap (λ t. or_else (parse_count t) (int 0)) f ∙ count-back large _ c.coils_bytes) i;
    holding_registers =
        (ap (λ t. or_else (parse_count t) (int 0)) g ∙ count-back large _ c.holding_registers) i;
    input_registers =
        (ap (λ t. or_else (parse_count t) (int 0)) k ∙ count-back large _ c.input_registers) i;
  }

  modbus-back :
      (b : Bool) (o : Option ModbusMap) (d : ConfigFormDraft)
      → IsModbusShaped b o
      → d.discrete_inputs_bytes ≡ number_text large (counts_or_zero o).discrete_inputs_bytes
      → d.coils_bytes ≡ number_text large (counts_or_zero o).coils_bytes
      → d.holding_registers ≡ number_text large (counts_or_zero o).holding_registers
      → d.input_registers ≡ number_text large (counts_or_zero o).input_registers
      → if_some b (some (modbus_map d)) ≡ o
  modbus-back true (some m) d h e f g k = ap some (counts-back d m e f g k h)
  modbus-back true none d h e f g k = absurd h
  modbus-back false o d h e f g k = sym h

  -- A canonical configuration that is opened in the form and saved unchanged has its own payload.
  pub draft_to_payload-config_to_draft :
      (config : ConfigDetail)
      → IsCanonical config.payload
      → draft_to_payload (config_to_draft large config) ≡ config.payload
  draft_to_payload-config_to_draft config h =
      let c = config.payload.connection in
      unfold draft_to_payload config_to_draft in
      λ i. record {
        connection = record {
          transport = c.transport;
          ip = text-back (needs_network c.transport) c.ip h.ip_text h.ip i;
          port = number-back large (needs_network c.transport) c.port h.port_number h.port i;
          gpib_addr =
              number-back large (is_gpib c.transport) c.gpib_addr h.gpib_number h.gpib_addr i;
          com_name = text-back (is_com c.transport) c.com_name h.com_text h.com_name i;
          ip_request = request-back c.ip_request h.ip_request i;
          poll_period_ms =
              ap (λ o. or_else o (int 0))
                (parse_int_strict-number_text large c.poll_period_ms h.poll_period_ms) i;
          modbus =
              modbus-back (is_modbus c.transport) c.modbus (config_to_draft large config) h.modbus
                refl refl refl refl i;
          params = c.params;
        };
        variables = variables-back config.payload.variables h.variables i;
      }
