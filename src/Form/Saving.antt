-- ===== src/Form/Saving.antt =====
-- The form of a configuration over time: `onFormSubmit` of web/tstlan-web/components/config-form.tsx
-- with the save in flight and the timers of its confirmation. A clock counts milliseconds. While a
-- save is in flight the button is disabled, as the pages do, and the fields are not.
pub mod Confirmed
use tstlan_web.Base.{
  ℕ, zero, suc, ◌+◌, ◌-◌, ◌*◌, ◌/◌, ◌%◌, ◌^◌, ◌≤◌, ◌<◌, ◌≡◌, ◌≢◌, refl, ap, sym, ◌∙◌, ◌↔◌, ◌⊎◌, inl,
  inr, Bool, true, false, ◌&&◌, ◌||◌, not, List, [], ◌∷◌, ◌++◌, map, append-nil, append_assoc,
  Option, none, some, arith, ltb, leb, ◌==◌, if◌then◌else◌, ltb→lt, lt→ltb, leb→le, le→leb, or_else,
  All, All-append, All-drop, length, drop, get_elem?, keep, Among, Empty, Among-map, map-Among,
  keep-append, Among-keep, get_elem?-drop-append, get_elem?-map, some_eq, length-append,
  length-drop, length-map, Bool-cases, Option-cases, ite, ℕ_discrete,
}
use tstlan_web.Base.Text.{
  Str, codes, Str_discrete, is_space, trim, is_empty, NoSpace, trim_of_NoSpace, trim_idempotent,
}
use tstlan_web.Base.Number.{
  ℤ, pos, negsuc, neg, Num, fin, inf, neg_inf, int, less_than, more_than, number_of, to_double,
  round_from, round_half_even, finite_magnitude,
}
use tstlan_web.Base.Number.Decimal.{
  decimal, all_digits, is_digit, value, number_text, decimal_lem, digit_plain,
  NoSpace-of_all_digits, IsDigits, IsDigits-of_all_digits,
}
use tstlan_web.Base.Record.{
  has, add, add_all, has-add_all, AreDistinct, add_all-distinct, has-Among, delete, has-append,
  has-add, has-delete, lookup, assign, remove, lookup-assign, lookup-remove,
}
use tstlan_web.Api.{
  Role, Identity, Cause, api_error, other, UserSummary, DeviceStatus, NetVarCType, NetVarMode,
  VariableInfo, DeviceDetail, ConfigVisibility, SharePermission, ConfigAccess, Transport, ModbusMap,
  ConnectionSettings, ConfigVar, ConfigPayload, ShareInfo, ConfigSummary, ConfigDetail,
  ConfigCreate, ConfigUpdate, has_status, Result, success, failure,
}
use tstlan_web.Config.{ConfigFormDraft}
use tstlan_web.Config.Validate.{validate_config_form, has_errors}
use tstlan_web.Form.{Form, update}

pub record Saving : Type 0 where
  pub form : Form
  pub in_flight : Option ConfigFormDraft
  pub timers : List ℕ
  pub clock : ℕ

abbrev pub confirmation_ms : ℕ
confirmation_ms = 2200

unfoldable pub open_form : ConfigFormDraft → Saving
open_form draft = record {
  form = record { draft = draft; show_errors = false; saved = false };
  in_flight = none;
  timers = [];
  clock = 0;
}

unfoldable pub edit : (ConfigFormDraft → ConfigFormDraft) → Saving → Saving
unfolding update
edit patch s = record s { form = update patch s.form }

-- `onFormSubmit` up to its `await`
unfoldable pub start_save : Saving → Saving
start_save s =
    if has_errors (validate_config_form s.form.draft)
    then record s { form = record s.form { show_errors = true } }
    else record s {
      form = record s.form { show_errors = true; saved = false };
      in_flight = some s.form.draft;
    }

-- `onSubmit` has returned: a success is confirmed, and a timer set.
unfoldable pub finish_save : Bool → Saving → Saving
finish_save true s = record s {
  form = record s.form { saved = true };
  in_flight = none;
  timers = (s.clock + confirmation_ms) ∷ s.timers;
}
finish_save false s = record s { in_flight = none }

abbrev pub any_due : ℕ → List ℕ → Bool
any_due now [] = false
any_due now (due ∷ timers) = leb due now || any_due now timers

-- A millisecond passes; timers that are due end the confirmation.
unfoldable pub tick : Saving → Saving
tick s =
    let now = s.clock + 1 in
    record s {
      form = record s.form { saved = s.form.saved && not (any_due now s.timers) };
      timers = keep (λ due. ltb now due) s.timers;
      clock = now;
    }

pub data Step : Saving → Saving → Type 0 where
  edited : (patch : ConfigFormDraft → ConfigFormDraft) (s : Saving) → Step s (edit patch s)
  submitted : (s : Saving) → s.in_flight ≡ none → Step s (start_save s)
  returned :
      (draft : ConfigFormDraft) (fine : Bool) (s : Saving)
      → s.in_flight ≡ some draft
      → Step s (finish_save fine s)
  passed : (s : Saving) → Step s (tick s)

pub data Reach (s : Saving) : Saving → Type 0 where
  here : Reach s s
  next : {m n : Saving} → Reach s m → Step m n → Reach s n
