-- ===== src/Form/Shown.antt =====
-- Whether what the validation reports is told to the user.
use tstlan_web.Base.{
  ◌≡◌, refl, ◌∙◌, inl, inr, Bool, true, false, ◌&&◌, ◌||◌, not, List, [], ◌∷◌, ◌++◌, map, Option,
  none, arith, Bool-cases,
}
use tstlan_web.Api.{Role}
use tstlan_web.Config.{ConfigFormDraft, can_publish, needs_network, is_modbus, is_gpib, is_com}
use tstlan_web.Config.Validate.{
  modbus_fields, modbus_error, ip_error, port_error, gpib_error, com_error, validate_config_form,
  has_errors, is_none,
}
use tstlan_web.Editor.{ConfigFormMode}
use tstlan_web.Form.{
  Form, meta_editable, payload_editable, FieldId, Field, only, error_in, same_field, plain,
  transport_fields, variable_fields, shown_fields,
}
use tstlan_web.Form.Messages.{any_error, any_error-append, counts-any, variables-any}

-- An optional message that is there.
abbrev is_told {ℓ} : {A : Type ℓ} → Option A → Bool
is_told o = not (is_none o)

or-false : (b : Bool) → (b || false) ≡ b
or-false true = refl
or-false false = refl

network-any :
    (editable : Bool) (d : ConfigFormDraft)
    → any_error (
        only (needs_network d.transport) (
          plain editable FieldId.ip (ip_error d) ∷ plain editable FieldId.port (port_error d) ∷ []))
      ≡ (is_told (ip_error d) || is_told (port_error d))
unfolding ip_error port_error
network-any editable d = elim (Bool-cases (needs_network d.transport)) [
  | inl e ↦ rw e (ground arith)
  | inr e ↦ rw e refl
]

gpib-any :
    (editable : Bool) (d : ConfigFormDraft)
    → any_error (only (is_gpib d.transport) (plain editable FieldId.gpib_addr (gpib_error d) ∷ []))
      ≡ is_told (gpib_error d)
unfolding gpib_error
gpib-any editable d = elim (Bool-cases (is_gpib d.transport)) [
  | inl e ↦ rw e (ground arith)
  | inr e ↦ rw e refl
]

com-any :
    (editable : Bool) (d : ConfigFormDraft)
    → any_error (only (is_com d.transport) (plain editable FieldId.com_name (com_error d) ∷ []))
      ≡ is_told (com_error d)
unfolding com_error
com-any editable d = elim (Bool-cases (is_com d.transport)) [
  | inl e ↦ rw e (ground arith)
  | inr e ↦ rw e refl
]

modbus-any :
    (editable : Bool) (d : ConfigFormDraft)
    → any_error (
        only (is_modbus d.transport) (
          plain editable FieldId.ip_request none
          ∷ map
              (λ k. plain editable (FieldId.count k) (error_in same_field k (modbus_error d)))
              modbus_fields))
      ≡ is_told (modbus_error d)
unfolding modbus_error
modbus-any editable d = elim (Bool-cases (is_modbus d.transport)) [
  | inl e ↦ rw e (counts-any editable d)
  | inr e ↦ rw e refl
]

-- The order in which the form shows its fields, and that in which the errors are tested.
reorder :
    (n t p a b g c m v : Bool)
    → (n || (t || (p || (((a || b) || (g || (c || m))) || v))))
      ≡ (n || t || a || b || g || c || p || m || v)
reorder true t p a b g c m v = refl
reorder false true p a b g c m v = refl
reorder false false true true b g c m v = refl
reorder false false false true b g c m v = refl
reorder false false true false true g c m v = refl
reorder false false false false true g c m v = refl
reorder false false true false false true c m v = refl
reorder false false false false false true c m v = refl
reorder false false true false false false true m v = refl
reorder false false false false false false true m v = refl
reorder false false true false false false false m v = refl
reorder false false false false false false false m v = refl

transport-any :
    (editable : Bool) (d : ConfigFormDraft)
    → any_error (transport_fields editable d (validate_config_form d)) ≡ (
        (is_told (ip_error d) || is_told (port_error d))
        || (is_told (gpib_error d) || (is_told (com_error d) || is_told (modbus_error d))))
unfolding transport_fields validate_config_form
transport-any editable d =
    let network =
      only (needs_network d.transport) (
        plain editable FieldId.ip (ip_error d) ∷ plain editable FieldId.port (port_error d) ∷ []) in
    let gpib = only (is_gpib d.transport) (plain editable FieldId.gpib_addr (gpib_error d) ∷ []) in
    let name_of_port =
      only (is_com d.transport) (plain editable FieldId.com_name (com_error d) ∷ []) in
    let modbus = only (is_modbus d.transport) (
      plain editable FieldId.ip_request none
      ∷ map (λ k. plain editable (FieldId.count k) (error_in same_field k (modbus_error d)))
          modbus_fields) in
    any_error-append network (gpib ++ (name_of_port ++ modbus)) ∙ (λ i.
      network-any editable d i
      || (any_error-append gpib (name_of_port ++ modbus) ∙ (λ j.
            gpib-any editable d j
            || (any_error-append name_of_port modbus
                  ∙ (λ k. com-any editable d k || modbus-any editable d k))
                j))
          i)

visibility-silent :
    (b : Bool) (rest : List Field)
    → any_error
        (only b (record { id = FieldId.visibility; enabled = true; error = none } ∷ []) ++ rest)
      ≡ any_error rest
visibility-silent true rest = refl
visibility-silent false rest = refl

fields-any :
    (editable : Bool) (d : ConfigFormDraft)
    → any_error (
        transport_fields editable d (validate_config_form d)
        ++ variable_fields editable d (validate_config_form d))
      ≡ (((is_told (ip_error d) || is_told (port_error d))
            || (is_told (gpib_error d) || (is_told (com_error d) || is_told (modbus_error d))))
          || is_told (validate_config_form d).variables)
fields-any editable d =
    any_error-append (transport_fields editable d (validate_config_form d))
      (variable_fields editable d (validate_config_form d))
    ∙ (λ i. transport-any editable d i || variables-any editable d i)

-- After a submission some field on the page carries a message exactly when the draft has an error,
-- whatever the role and the mode: the form is never refused in silence.
pub shown_fields-told :
    (role : Role) (mode : ConfigFormMode) (f : Form)
    → f.show_errors ≡ true
    → any_error (shown_fields role mode f) ≡ has_errors (validate_config_form f.draft)
unfolding shown_fields has_errors validate_config_form
shown_fields-told role mode f h =
    let d = f.draft in
    let e = validate_config_form d in
    let p = payload_editable mode in
    rw h (
      (λ i.
        is_told e.name
        || (is_told e.device_type
            || (visibility-silent (can_publish role && meta_editable mode) (
                    record { id = FieldId.transport; enabled = p; error = none }
                    ∷ record { id = FieldId.poll_period_ms; enabled = p; error = e.poll_period_ms }
                    ∷ (transport_fields p d e ++ variable_fields p d e))
                  ∙ (λ j. is_told e.poll_period_ms || fields-any p d j))
                i))
      ∙ reorder (is_told e.name) (is_told e.device_type) (is_told e.poll_period_ms) (is_told e.ip)
          (is_told e.port) (is_told e.gpib_addr) (is_told e.com_name) (is_told e.modbus)
          (is_told e.variables))
