-- ===== src/Form/Messages.antt =====
-- The messages that lists of fields carry, against the lists of errors that they show.
use tstlan_web.Base.{
  ℕ, suc, ◌≡◌, refl, inl, inr, Bool, true, false, ◌||◌, not, List, [], ◌∷◌, ◌++◌, map, Option, none,
  some, arith, ◌==◌, All, Among, Bool-cases,
}
use tstlan_web.Base.Text.{Str, Str_discrete, trim}
use tstlan_web.Base.Record.{add}
use tstlan_web.Config.{VariableDraft, ConfigFormDraft}
use tstlan_web.Config.Fields.{parse_count}
use tstlan_web.Config.Validate.{
  ModbusField, modbus_fields, modbus_text, if_any, modbus_errors, variable_error, variable_errors,
  report, validate_variables, validate_config_form, is_none,
}
use tstlan_web.Form.{
  FieldId, Field, error_at, error_in, same_field, positions, plain, variable_fields,
}

-- Some field of the list carries a message.
abbrev pub any_error : List Field → Bool
any_error [] = false
any_error (f ∷ fs) = not (is_none f.error) || any_error fs

pub any_error-append : (xs ys : List Field) → any_error (xs ++ ys) ≡ (any_error xs || any_error ys)
any_error-append [] ys = refl
any_error-append (x ∷ xs) ys = ground (arith, any_error-append xs ys)

module _ {K : Type 0} (same : K → K → Bool) (same-refl : (k : K) → same k k ≡ true)
    (field : K → Option Str → Field)
    (field-error : (k : K) (o : Option Str) → (field k o).error ≡ o) where
  -- The fields of the keys `ks` tell an error when one of its keys is among them.
  any_error-Among :
      (errors : List (K × Str)) (k : K) (message : Str) (ks : List K)
      → Among k ks
      → any_error (map (λ j. field j (error_at same j ((k, message) ∷ errors))) ks) ≡ true
  any_error-Among errors k message [] h = elim h [ ]
  any_error-Among errors k message (j ∷ ks) (inl e) =
      let same_key : same k j ≡ true = rw e (same-refl k) in
      let shown : error_at same j ((k, message) ∷ errors) ≡ some message = rw same_key refl in
      rw (field-error j (error_at same j ((k, message) ∷ errors)), shown) refl
  any_error-Among errors k message (j ∷ ks) (inr h) =
      ground (arith, any_error-Among errors k message ks h)

  any_error-none : (ks : List K) → any_error (map (λ j. field j none) ks) ≡ false
  any_error-none [] = refl
  any_error-none (k ∷ ks) = rw (field-error k none, any_error-none ks) refl

  any_error-keys :
      (errors : List (K × Str)) (ks : List K)
      → All (λ e. Among e.0 ks) errors
      → any_error (map (λ j. field j (error_in same j (if_any errors))) ks)
        ≡ not (is_none (if_any errors))
  any_error-keys [] ks h = any_error-none ks
  any_error-keys ((k, message) ∷ errors) ks h = any_error-Among errors k message ks h.0

modbus_errors-keys :
    (d : ConfigFormDraft) (fields all : List ModbusField)
    → All (λ f. Among f all) fields
    → All (λ e. Among e.0 all) (modbus_errors d fields)
unfolding modbus_errors
modbus_errors-keys d [] all h = tt
modbus_errors-keys d (f ∷ fields) all h =
    let ih = modbus_errors-keys d fields all h.1 in
    elim (Bool-cases (is_none (parse_count (modbus_text d f)))) [
      | inl e ↦ rw e (h.0, ih)
      | inr e ↦ rw e ih
    ]

All-later :
    (j : ℕ) (js : List ℕ) (errors : List (ℕ × Str))
    → All (λ e. Among e.0 js) errors
    → All (λ e. Among e.0 (j ∷ js)) errors
All-later j js [] h = h
All-later j js (e ∷ errors) h = (inr h.0, All-later j js errors h.1)

variable_errors-keys :
    (position : ℕ) (seen : List Str) (vs : List VariableDraft)
    → All (λ e. Among e.0 (positions position vs)) (variable_errors position seen vs)
unfolding variable_errors
variable_errors-keys position seen [] = tt
variable_errors-keys position seen (v ∷ vs) =
    reported (variable_error seen (trim v.name))
      (variable_errors (suc position) (add Str_discrete (trim v.name) seen) vs)
      (All-later position (positions (suc position) vs) _
        (variable_errors-keys (suc position) (add Str_discrete (trim v.name) seen) vs))
  where
    reported :
        (o : Option Str) (rest : List (ℕ × Str))
        → All (λ e. Among e.0 (positions position (v ∷ vs))) rest
        → All (λ e. Among e.0 (positions position (v ∷ vs))) (report position o rest)
    reported none rest later = later
    reported (some message) rest later = (inl refl, later)

same_field_refl : (k : ModbusField) → same_field k k ≡ true
same_field_refl ModbusField.discrete_inputs_bytes = refl
same_field_refl ModbusField.coils_bytes = refl
same_field_refl ModbusField.holding_registers = refl
same_field_refl ModbusField.input_registers = refl

==-refl : (n : ℕ) → (n == n) ≡ true
==-refl n = ground arith

pub counts-any :
    (editable : Bool) (d : ConfigFormDraft)
    → any_error (
        map
          (λ k.
            plain editable
              (FieldId.count k)
              (error_in same_field k (if_any (modbus_errors d modbus_fields))))
          modbus_fields)
      ≡ not (is_none (if_any (modbus_errors d modbus_fields)))
counts-any editable d =
    any_error-keys same_field same_field_refl (λ k o. plain editable (FieldId.count k) o)
      (λ k o. refl) (modbus_errors d modbus_fields) modbus_fields
      (modbus_errors-keys d modbus_fields modbus_fields
        (inl refl, (inr (inl refl), (inr (inr (inl refl)), (inr (inr (inr (inl refl))), tt)))))

pub variables-any :
    (editable : Bool) (d : ConfigFormDraft)
    → any_error (variable_fields editable d (validate_config_form d))
      ≡ not (is_none (validate_config_form d).variables)
unfolding variable_fields validate_config_form validate_variables
variables-any editable d =
    any_error-keys (λ a b. a == b) ==-refl (λ i o. plain editable (FieldId.variable i) o)
      (λ i o. refl) (variable_errors 0 [] d.variables) (positions 0 d.variables)
      (variable_errors-keys 0 [] d.variables)
