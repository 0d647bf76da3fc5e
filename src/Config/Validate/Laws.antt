-- ===== src/Config/Validate/Laws.antt =====
-- The whole check, `has_errors (validate_config_form d)`, against the valid drafts.
use tstlan_web.Base.{
  ◌<◌, ◌≡◌, ◌≢◌, refl, ◌↔◌, Bool, true, false, ◌||◌, not, [], Option, none, some, arith,
}
use tstlan_web.Base.Text.{trim}
use tstlan_web.Base.Number.Decimal.{all_digits, value}
use tstlan_web.Config.{
  ConfigFormDraft, port_min, port_max, gpib_min, gpib_max, name_max, device_type_max, is_modbus,
  needs_network, is_gpib, is_com,
}
use tstlan_web.Config.Validate.{
  modbus_fields, is_none, ConfigFieldErrors, validate_config_form, has_errors,
}
use tstlan_web.Config.Validate.Fields.{
  IsText, InRange, AreCounts, text_error_iff, ip_error_iff, port_error_iff, gpib_error_iff,
  com_error_iff, period_error_iff, modbus_error_iff, if_any_iff,
}
use tstlan_web.Config.Validate.Variables.{AreNamed, validate_variables_iff}

-- What the form asks of a draft.
pub record IsValidDraft (d : ConfigFormDraft) : Type 0 where
  pub name : IsText name_max (trim d.name)
  pub device_type : IsText device_type_max (trim d.device_type)
  pub ip : needs_network d.transport ≡ true → trim d.ip ≢ []
  pub port : needs_network d.transport ≡ true → InRange port_min port_max (trim d.port)
  pub gpib_addr : is_gpib d.transport ≡ true → InRange gpib_min gpib_max (trim d.gpib_addr)
  pub com_name : is_com d.transport ≡ true → trim d.com_name ≢ []
  pub poll_period_ms :
      (all_digits (trim d.poll_period_ms) ≡ true) × (0 < value 0 (trim d.poll_period_ms))
  pub modbus : is_modbus d.transport ≡ true → AreCounts d modbus_fields
  pub variables : AreNamed d.variables

-- All properties of the errors are absent.
record IsClean (e : ConfigFieldErrors) : Type 0 where
  name : e.name ≡ none
  device_type : e.device_type ≡ none
  ip : e.ip ≡ none
  port : e.port ≡ none
  gpib_addr : e.gpib_addr ≡ none
  com_name : e.com_name ≡ none
  poll_period_ms : e.poll_period_ms ≡ none
  modbus : e.modbus ≡ none
  variables : e.variables ≡ none

or-eq-false : (a b : Bool) → (a || b) ≡ false → (a ≡ false) × (b ≡ false)
or-eq-false true b h = cc
or-eq-false false b h = (refl, h)

present_none {ℓ} : {A : Type ℓ} (o : Option A) → not (is_none o) ≡ false → o ≡ none
present_none none h = refl
present_none (some a) h = cc

has_errors-IsClean : (e : ConfigFieldErrors) → has_errors e ≡ false → IsClean e
unfolding has_errors
has_errors-IsClean e h = ground arith

IsClean-has_errors : (e : ConfigFieldErrors) → IsClean e → has_errors e ≡ false
unfolding has_errors
IsClean-has_errors e c =
    rw
      (
        c.name, c.device_type, c.ip, c.port, c.gpib_addr, c.com_name, c.poll_period_ms, c.modbus,
        c.variables,
      )
      refl

-- The form is sent exactly if its draft is valid.
pub validate_config_form_iff :
    (d : ConfigFormDraft) → (has_errors (validate_config_form d) ≡ false) ↔ IsValidDraft d
validate_config_form_iff d = (to, from)
  where
    to : has_errors (validate_config_form d) ≡ false → IsValidDraft d
    to h =
        let c = has_errors-IsClean (validate_config_form d) h in
        unfold validate_config_form in
        record {
          name = (text_error_iff _ _ _).0 c.name;
          device_type = (text_error_iff _ _ _).0 c.device_type;
          ip = (ip_error_iff d).0 c.ip;
          port = (port_error_iff d).0 c.port;
          gpib_addr = (gpib_error_iff d).0 c.gpib_addr;
          com_name = (com_error_iff d).0 c.com_name;
          poll_period_ms = (period_error_iff d).0 c.poll_period_ms;
          modbus = (modbus_error_iff d).0 c.modbus;
          variables = (validate_variables_iff d.variables).0 ((if_any_iff _).0 c.variables);
        }

    from : IsValidDraft d → has_errors (validate_config_form d) ≡ false
    from v = IsClean-has_errors (validate_config_form d) (
        unfold validate_config_form in
        record {
          name = (text_error_iff _ _ _).1 v.name;
          device_type = (text_error_iff _ _ _).1 v.device_type;
          ip = (ip_error_iff d).1 v.ip;
          port = (port_error_iff d).1 v.port;
          gpib_addr = (gpib_error_iff d).1 v.gpib_addr;
          com_name = (com_error_iff d).1 v.com_name;
          poll_period_ms = (period_error_iff d).1 v.poll_period_ms;
          modbus = (modbus_error_iff d).1 v.modbus;
          variables = (if_any_iff _).1 ((validate_variables_iff d.variables).1 v.variables);
        })
