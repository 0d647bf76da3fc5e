-- ===== src/Tests/Configs.antt =====
-- The theorems on configurations, at concrete inputs.
use tstlan_web.Base.{
  ℕ, zero, suc, ◌+◌, ◌-◌, ◌*◌, ◌/◌, ◌%◌, ◌^◌, ◌≤◌, ◌<◌, ◌≡◌, ◌≢◌, refl, ap, sym, ◌∙◌, ◌↔◌, ◌⊎◌, inl,
  inr, Bool, true, false, ◌&&◌, ◌||◌, not, List, [], ◌∷◌, ◌++◌, map, append-nil, append_assoc,
  Option, none, some, arith, ltb, leb, ◌==◌, if◌then◌else◌, ltb→lt, lt→ltb, leb→le, le→leb, or_else,
  All, All-append, All-drop, length, drop, get_elem?, keep, Among, Empty, Among-map, map-Among,
  keep-append, Among-keep, get_elem?-drop-append, get_elem?-map, some_eq, length-append,
  length-drop, length-map, Bool-cases, Option-cases, ite, ℕ_discrete,
}
use tstlan_web.Base.Text.{Str, codes, Str_discrete, is_space, trim}
use tstlan_web.Base.Number.{
  ℤ, pos, negsuc, neg, Num, fin, inf, neg_inf, int, less_than, more_than, number_of, to_double,
  round_from, round_half_even, finite_magnitude,
}
use tstlan_web.Base.Number.Decimal.{
  decimal, all_digits, is_digit, value, number_text, decimal_lem, digit_plain,
  NoSpace-of_all_digits, IsDigits, IsDigits-of_all_digits,
}
use tstlan_web.Base.Record.{
  has, add, add_all, has-add_all, AreDistinct, add_all-distinct, has-Among, delete, has-append,
  has-add, has-delete, lookup, assign, remove, lookup-assign, lookup-remove,
}
use tstlan_web.Api.{
  Role, api_error, UserSummary, ConfigVisibility, ConfigDetail, ConfigUpdate, Result, failure,
}
use tstlan_web.Base.Number.Decimal.{decimal}
use tstlan_web.Config.{
  VariableDraft, ConfigFormDraft, empty_draft, name_max, port_min, port_max, gpib_min, gpib_max,
  can_publish,
}
use tstlan_web.Config.Access.{available_grantees, available_grantees_iff}
use tstlan_web.Config.Fields.{
  parse_int_strict, parse_count, out_of_range, not_positive, parse_trimmed,
}
use tstlan_web.Config.Fields.Laws.{Spells, in_range_iff}
use tstlan_web.Config.Fields.Prints.{parse_int_strict-number_text}
use tstlan_web.Config.Offsets.{VarOffset, variable_offsets, format_offset}
use tstlan_web.Config.Offsets.Layout.{
  start_bit, layout, variable_offsets-layout, variable_offsets_disjoint,
}
use tstlan_web.Config.Offsets.Format.{read_offset, read_offset-format_offset}
use tstlan_web.Config.Validate.{validate_variables, validate_config_form, has_errors}
use tstlan_web.Config.Validate.Laws.{IsValidDraft, validate_config_form_iff}
use tstlan_web.Config.Payload.{draft_to_payload, config_to_draft}
use tstlan_web.Config.Payload.RoundTrip.{IsCanonical, draft_to_payload-config_to_draft}
use tstlan_web.Config.Payload.Sound.{IsAcceptable, draft_to_payload-IsAcceptable}
use tstlan_web.Editor.{ConfigFormMode, Editor, update_body, submit}
use tstlan_web.Editor.Laws.{IsTaken, IsSubmitted, submit_iff, update_body_iff}
use tstlan_web.Form.{Form, shown_fields}
use tstlan_web.Form.Messages.{any_error}
use tstlan_web.Form.Shown.{shown_fields-told}
use tstlan_web.Tests.{
  alarm, three_variables, balance_draft, balance_payload, balance_config, no_large,
}

validate_config_form_iff_example :
    (has_errors (validate_config_form balance_draft) ≡ false) ↔ IsValidDraft balance_draft
validate_config_form_iff_example = validate_config_form_iff balance_draft

IsCanonical-balance : IsCanonical balance_payload
unfolding tstlan_web.Config.needs_network
IsCanonical-balance =
    unfold trim in
    record {
      ip_text = (refl, λ e. cc);
      ip = tt;
      port_number = omega arith;
      port = tt;
      gpib_number = tt;
      gpib_addr = refl;
      com_text = tt;
      com_name = refl;
      ip_request = tt;
      poll_period_ms = omega arith;
      modbus = record {
        discrete_inputs_bytes = (0, refl, omega arith);
        coils_bytes = (2, refl, omega arith);
        holding_registers = (0, refl, omega arith);
        input_registers = (0, refl, omega arith);
      };
      variables = ((refl, refl), tt);
    }

draft_to_payload-config_to_draft_example :
    draft_to_payload (config_to_draft no_large balance_config) ≡ balance_payload
draft_to_payload-config_to_draft_example =
    draft_to_payload-config_to_draft no_large balance_config IsCanonical-balance

pub balance_draft-clean : has_errors (validate_config_form balance_draft) ≡ false
unfolding has_errors validate_config_form empty_draft tstlan_web.Config.Validate.text_error trim
    tstlan_web.Config.Validate.ip_error tstlan_web.Config.needs_network
    tstlan_web.Config.Validate.port_error out_of_range parse_int_strict parse_trimmed all_digits
    is_digit tstlan_web.Base.Number.number_of tstlan_web.Base.Number.to_double
    tstlan_web.Base.Number.finite_magnitude tstlan_web.Base.Number.round_from value
    tstlan_web.Base.Number.round_half_even tstlan_web.Config.Validate.gpib_error decimal
    tstlan_web.Base.Number.Decimal.digits_from tstlan_web.Base.Number.signed
    tstlan_web.Base.Record.add tstlan_web.Base.Record.has Str_discrete is_space
    tstlan_web.Config.Fields.matches_int tstlan_web.Config.Fields.nonnegative not_positive
    tstlan_web.Config.Fields.number_of_text parse_count tstlan_web.Config.Validate.com_error
    tstlan_web.Config.Validate.modbus_error tstlan_web.Config.Validate.modbus_errors
    tstlan_web.Config.Validate.period_error validate_variables
    tstlan_web.Config.Validate.variable_error tstlan_web.Config.Validate.variable_errors
    tstlan_web.Config.is_modbus
balance_draft-clean = refl

draft_to_payload-IsAcceptable_example : IsAcceptable (draft_to_payload balance_draft)
draft_to_payload-IsAcceptable_example =
    draft_to_payload-IsAcceptable balance_draft balance_draft-clean

variable_offsets-layout_example :
    map start_bit (variable_offsets three_variables) ≡ layout 0 three_variables
variable_offsets-layout_example = variable_offsets-layout three_variables

-- The bit before the number is in byte 0, the number in byte 1.
variable_offsets_disjoint_example : 0 + 1 ≤ 8
unfolding tstlan_web.Config.Offsets.is_bit tstlan_web.Config.Offsets.byte_size
variable_offsets_disjoint_example =
    variable_offsets_disjoint three_variables 0 2 {v = alarm}
      {o = record { byte = 0; bit = some 0 }} {p = record { byte = 1; bit = none }} (omega arith)
      refl (unfold variable_offsets in refl) (unfold variable_offsets in refl)

read_offset-format_offset_example :
    read_offset (format_offset (record { byte = 12; bit = some 3 }))
    ≡ record { byte = 12; bit = some 3 }
read_offset-format_offset_example = read_offset-format_offset (record { byte = 12; bit = some 3 })

in_range_iff_example :
    (out_of_range 1 65535 (parse_trimmed (codes "502")) ≡ false)
    ↔ ((n : ℕ) × Spells (codes "502") n × (1 ≤ n) × (n ≤ 65535))
in_range_iff_example = in_range_iff 1 65535 (omega arith) (omega arith) (codes "502")

parse_int_strict-number_text_example :
    parse_int_strict (number_text no_large (fin (negsuc 4))) ≡ some (fin (negsuc 4))
parse_int_strict-number_text_example =
    parse_int_strict-number_text no_large (fin (negsuc 4)) (omega arith)

abbrev ann : UserSummary
ann = record { login = codes "ann"; role = Role.dev }

abbrev bob : UserSummary
bob = record { login = codes "bob"; role = Role.user }

available_grantees_iff_example :
    Among bob (available_grantees (ann ∷ bob ∷ []) (codes "ann") [])
    ↔ (Among bob (ann ∷ bob ∷ []) × (codes "bob" ≢ codes "ann") × (¬ Among (codes "bob") []))
available_grantees_iff_example = available_grantees_iff (ann ∷ bob ∷ []) (codes "ann") [] bob

update_body_iff_example :
    (((update_body Role.user balance_config balance_draft).name ≡ some (codes " Balance "))
      ↔ (true ≡ true))
    × (((update_body Role.user balance_config balance_draft).visibility
          ≡ some ConfigVisibility.private)
        ↔ ((true ≡ true) × (can_publish Role.user ≡ true)))
    × ((update_body Role.user balance_config balance_draft).payload
        ≡ some (draft_to_payload balance_draft))
unfolding empty_draft
update_body_iff_example = update_body_iff Role.user balance_config balance_draft

abbrev refusing : ConfigUpdate → Str → Result ConfigDetail
refusing _ _ = failure (api_error 422 none)

abbrev open_editor : Editor
open_editor = record {
  load = tstlan_web.Editor.ready balance_config;
  pending = false;
  error = none;
}

submit_iff_example :
    IsSubmitted
      (IsTaken (some (codes "token")) refusing (update_body Role.dev balance_config balance_draft))
      open_editor
      (submit (some (codes "token")) Role.dev balance_config refusing balance_draft open_editor)
submit_iff_example =
    submit_iff (some (codes "token")) Role.dev balance_config refusing balance_draft open_editor

abbrev submitted_form : Form
submitted_form = record { draft = empty_draft; show_errors = true; saved = false }

shown_fields-told_example :
    any_error (shown_fields Role.user ConfigFormMode.create submitted_form)
    ≡ has_errors (validate_config_form empty_draft)
shown_fields-told_example = shown_fields-told Role.user ConfigFormMode.create submitted_form refl

abbrev marked : VariableDraft → VariableDraft
marked v = record v { graph = true }
