-- ===== src/Config/Validate/Fields.antt =====
-- What each check of the form accepts.
use tstlan_web.Base.{
  ℕ, ◌≤◌, ◌<◌, ◌≡◌, ◌≢◌, refl, ◌↔◌, inl, inr, Bool, true, false, ◌&&◌, List, [], ◌∷◌, Option, none,
  some, arith, if◌then◌else◌, All, length, Bool-cases,
}
use tstlan_web.Base.Text.{Str, codes, trim, is_empty}
use tstlan_web.Base.Number.{Num}
use tstlan_web.Base.Number.Decimal.{all_digits, value}
use tstlan_web.Config.{
  ConfigFormDraft, port_min, port_max, gpib_min, gpib_max, is_modbus, needs_network, is_gpib,
  is_com,
}
use tstlan_web.Config.Fields.{parse_int_strict, parse_count, not_positive, parse_trimmed}
use tstlan_web.Config.Fields.Laws.{Spells, IsCount, in_range_iff, positive_iff, parse_count_iff}
use tstlan_web.Config.Validate.{
  ModbusField, modbus_fields, modbus_text, text_error, when, ip_error, port_error, gpib_error,
  com_error, period_error, is_none, if_any, modbus_errors, modbus_error,
}

abbrev pub IsText : ℕ → Str → Type 0
IsText most t = (t ≢ []) × (length t ≤ most)

pub text_error_iff :
    (missing t : Str) (most : ℕ) → (text_error missing t most ≡ none) ↔ IsText most t
unfolding text_error
text_error_iff missing [] most = ground arith
text_error_iff missing (c ∷ t) most = ground arith

abbrev pub InRange : ℕ → ℕ → Str → Type 0
InRange lo hi t = (n : ℕ) × Spells t n × (lo ≤ n) × (n ≤ hi)

when_iff : (b : Bool) (m : Str) → (when b m ≡ none) ↔ (b ≡ false)
when_iff true m = ground arith
when_iff false m = ground arith

is_empty_iff : (t : Str) → (is_empty t ≡ false) ↔ (t ≢ [])
is_empty_iff [] = ground arith
is_empty_iff (c ∷ t) = ground arith

guarded_iff :
    (guard b : Bool) (m : Str) {P : Type 0}
    → (b ≡ false) ↔ P
    → ((if guard then when b m else none) ≡ none) ↔ (guard ≡ true → P)
guarded_iff true b m e = (λ h g. e.0 ((when_iff b m).0 h), λ f. (when_iff b m).1 (e.1 (f refl)))
guarded_iff false b m e = (λ h g. cc, λ f. refl)

pub ip_error_iff :
    (d : ConfigFormDraft)
    → (ip_error d ≡ none) ↔ (needs_network d.transport ≡ true → trim d.ip ≢ [])
unfolding ip_error
ip_error_iff d = guarded_iff (needs_network d.transport) _ _ (is_empty_iff (trim d.ip))

pub port_error_iff :
    (d : ConfigFormDraft)
    → (port_error d ≡ none)
      ↔ (needs_network d.transport ≡ true → InRange port_min port_max (trim d.port))
unfolding port_error parse_int_strict
port_error_iff d =
    guarded_iff (needs_network d.transport) _ _
      (in_range_iff port_min port_max (omega arith) (omega arith) (trim d.port))

pub gpib_error_iff :
    (d : ConfigFormDraft)
    → (gpib_error d ≡ none)
      ↔ (is_gpib d.transport ≡ true → InRange gpib_min gpib_max (trim d.gpib_addr))
unfolding gpib_error parse_int_strict
gpib_error_iff d =
    guarded_iff (is_gpib d.transport) _ _
      (in_range_iff gpib_min gpib_max (omega arith) (omega arith) (trim d.gpib_addr))

and_guard : (a b : Bool) (m : Str) → when (a && b) m ≡ (if a then when b m else none)
and_guard true b m = refl
and_guard false b m = refl

pub com_error_iff :
    (d : ConfigFormDraft)
    → (com_error d ≡ none) ↔ (is_com d.transport ≡ true → trim d.com_name ≢ [])
unfolding com_error
com_error_iff d =
    rw (and_guard (is_com d.transport))
      (guarded_iff (is_com d.transport) _ _ (is_empty_iff (trim d.com_name)))

pub period_error_iff :
    (d : ConfigFormDraft)
    → (period_error d ≡ none)
      ↔ ((all_digits (trim d.poll_period_ms) ≡ true) × (0 < value 0 (trim d.poll_period_ms)))
unfolding period_error parse_int_strict
period_error_iff d =
    let w =
      when_iff (not_positive (parse_trimmed (trim d.poll_period_ms)))
        (codes "период опроса: целое > 0") in
    let p = positive_iff (trim d.poll_period_ms) in (λ h. p.0 (w.0 h), λ h. w.1 (p.1 h))

-- Every listed count of Modbus is one.
abbrev pub AreCounts : ConfigFormDraft → List ModbusField → Type 0
AreCounts d = All (λ field. IsCount (trim (modbus_text d field)))

is_none_iff : (o : Option Num) → (is_none o ≡ false) ↔ (o ≢ none)
is_none_iff none = ground arith
is_none_iff (some x) = ground arith

modbus_errors_iff :
    (d : ConfigFormDraft) (fields : List ModbusField)
    → (modbus_errors d fields ≡ []) ↔ AreCounts d fields
unfolding modbus_errors
modbus_errors_iff d [] = (λ h. tt, λ h. refl)
modbus_errors_iff d (f ∷ fields) = elim (Bool-cases (is_none (parse_count (modbus_text d f)))) [
  | inl bad ↦ rw bad (λ h. cc, λ h. absurd (cc ((is_none_iff _).1 ((parse_count_iff _).1 h.0))))
  | inr good ↦
      let ih = modbus_errors_iff d fields in
      rw good (λ h. ((parse_count_iff _).0 ((is_none_iff _).0 good), ih.0 h), λ h. ih.1 h.1)
]

pub if_any_iff : {A : Type 0} (xs : List A) → (if_any xs ≡ none) ↔ (xs ≡ [])
if_any_iff [] = (λ h. refl, λ h. refl)
if_any_iff (x ∷ xs) = (λ h. cc, λ h. cc)

pub modbus_error_iff :
    (d : ConfigFormDraft)
    → (modbus_error d ≡ none) ↔ (is_modbus d.transport ≡ true → AreCounts d modbus_fields)
unfolding modbus_error
modbus_error_iff d = guard (is_modbus d.transport)
  where
    guard :
        (b : Bool)
        → ((if b then if_any (modbus_errors d modbus_fields) else none) ≡ none)
          ↔ (b ≡ true → AreCounts d modbus_fields)
    guard true =
        let e = if_any_iff (modbus_errors d modbus_fields) in
        let m = modbus_errors_iff d modbus_fields in (λ h g. m.0 (e.0 h), λ f. e.1 (m.1 (f refl)))
    guard false = (λ h g. cc, λ f. refl)
