-- ===== src/Editor.antt =====
-- The page of one configuration: web/tstlan-web/components/config-editor.tsx, the panel of grants of
-- web/tstlan-web/components/share-panel.tsx and the page of
-- web/tstlan-web/app/configs/new/page.tsx. The server is a parameter of each operation that asks it:
-- a function from the request to its result.
pub mod Laws
use tstlan_web.Base.{
  ℕ, zero, suc, ◌+◌, ◌-◌, ◌*◌, ◌/◌, ◌%◌, ◌^◌, ◌≤◌, ◌<◌, ◌≡◌, ◌≢◌, refl, ap, sym, ◌∙◌, ◌↔◌, ◌⊎◌, inl,
  inr, Bool, true, false, ◌&&◌, ◌||◌, not, List, [], ◌∷◌, ◌++◌, map, append-nil, append_assoc,
  Option, none, some, arith, ltb, leb, ◌==◌, if◌then◌else◌, ltb→lt, lt→ltb, leb→le, le→leb, or_else,
  All, All-append, All-drop, length, drop, get_elem?, keep, Among, Empty, Among-map, map-Among,
  keep-append, Among-keep, get_elem?-drop-append, get_elem?-map, some_eq, length-append,
  length-drop, length-map, Bool-cases, Option-cases, ite, ℕ_discrete,
}
use tstlan_web.Base.Text.{
  Str, codes, Str_discrete, is_space, trim, is_empty, NoSpace, trim_of_NoSpace, trim_idempotent,
}
use tstlan_web.Base.Number.{
  ℤ, pos, negsuc, neg, Num, fin, inf, neg_inf, int, less_than, more_than, number_of, to_double,
  round_from, round_half_even, finite_magnitude,
}
use tstlan_web.Base.Number.Decimal.{
  decimal, all_digits, is_digit, value, number_text, decimal_lem, digit_plain,
  NoSpace-of_all_digits, IsDigits, IsDigits-of_all_digits,
}
use tstlan_web.Base.Record.{
  has, add, add_all, has-add_all, AreDistinct, add_all-distinct, has-Among, delete, has-append,
  has-add, has-delete, lookup, assign, remove, lookup-assign, lookup-remove,
}
use tstlan_web.Api.{
  Role, Identity, Cause, api_error, other, UserSummary, DeviceStatus, NetVarCType, NetVarMode,
  VariableInfo, DeviceDetail, ConfigVisibility, SharePermission, ConfigAccess, Transport, ModbusMap,
  ConnectionSettings, ConfigVar, ConfigPayload, ShareInfo, ConfigSummary, ConfigDetail,
  ConfigCreate, ConfigUpdate, has_status, Result, success, failure,
}
use tstlan_web.Config.{ConfigFormDraft, can_publish}
use tstlan_web.Config.Access.{is_owner, describe_save_error, describe_share_error}
use tstlan_web.Config.Payload.{draft_to_payload}

pub data ConfigFormMode : Type 0 where
  create owner write read : ConfigFormMode

unfoldable pub mode_by_access : ConfigAccess → ConfigFormMode
mode_by_access ConfigAccess.owner = ConfigFormMode.owner
mode_by_access ConfigAccess.write = ConfigFormMode.write
mode_by_access ConfigAccess.read = ConfigFormMode.read

pub data LoadState : Type 0 where
  loading notfound error : LoadState
  ready : ConfigDetail → LoadState

pub record Editor : Type 0 where
  pub load : LoadState
  pub pending : Bool
  pub error : Option Str

abbrev pub initial : Editor
initial = record { load = loading; pending = false; error = none }

-- The effect that loads the configuration; `active` is cleared when the page is left.
unfoldable pub config_loaded : Bool → Result ConfigDetail → Editor → Editor
unfolding has_status
config_loaded active (success config) e = if active then record e { load = ready config } else e
config_loaded active (failure cause) e =
    if active
    then record e {
      load = if has_status 404 cause || has_status 403 cause then notfound else error;
    }
    else e

-- The body of the request that saves the draft.
unfoldable pub update_body : Role → ConfigDetail → ConfigFormDraft → ConfigUpdate
update_body role config draft =
    if is_owner config.access
    then record {
      name = some draft.name;
      visibility = if can_publish role then some draft.visibility else none;
      payload = some (draft_to_payload draft);
    }
    else record { name = none; visibility = none; payload = some (draft_to_payload draft) }

abbrev pub saved : Result ConfigDetail → Editor → Editor × Bool
saved (success config) e = (record e { load = ready config; pending = false; error = none }, true)
saved (failure cause) e =
    (record e { pending = false; error = some (describe_save_error cause) }, false)

-- `submit`: the page after the request, and the value of the promise.
unfoldable pub submit :
    Option Str
    → Role
    → ConfigDetail
    → (ConfigUpdate → Str → Result ConfigDetail)
    → ConfigFormDraft
    → Editor
    → Editor × Bool
unfolding update_body
submit none role config server draft e = (e, false)
submit (some csrf) role config server draft e =
    saved (server (update_body role config draft) csrf) e

abbrev removed : Result Unit → Editor → Editor × Bool
removed (success _) e = (record e { pending = true; error = none }, true)
removed (failure cause) e =
    (record e { pending = false; error = some (describe_save_error cause) }, false)

-- `remove`: the page after the request, and whether the router goes to the list.
unfoldable pub remove_config : Option Str → (Str → Result Unit) → Editor → Editor × Bool
remove_config none server e = (e, false)
remove_config (some csrf) server e = removed (server csrf) e

pub record SharePanel : Type 0 where
  pub login : Str
  pub permission : SharePermission
  pub pending : Bool
  pub error : Option Str

-- `onChange` of the panel
abbrev on_change : ConfigDetail → Editor → Editor
on_change config e = record e { load = ready config }

abbrev granted : Result ConfigDetail → SharePanel → Editor → SharePanel × Editor
granted (success config) p e =
    (record p { login = []; pending = false; error = none }, on_change config e)
granted (failure cause) p e =
    (record p { pending = false; error = some (describe_share_error cause) }, e)

-- `grant`: of the panel and the page.
unfoldable pub grant :
    (ShareInfo → Result ConfigDetail)
    → Str
    → SharePermission
    → SharePanel
    → Editor
    → SharePanel × Editor
grant server target value p e =
    if is_empty target
    then (p, e)
    else granted (server (record { login = target; permission = value })) p e

abbrev revoked : Result ConfigDetail → SharePanel → Editor → SharePanel × Editor
revoked (success config) p e = (record p { pending = false; error = none }, on_change config e)
revoked (failure cause) p e =
    (record p { pending = false; error = some (describe_share_error cause) }, e)

unfoldable pub revoke :
    (Str → Result ConfigDetail) → Str → SharePanel → Editor → SharePanel × Editor
revoke server target p e = revoked (server target) p e

-- The page of a new configuration
pub record NewPage : Type 0 where
  pub pending : Bool
  pub error : Option Str

unfoldable pub create_body : ConfigFormDraft → ConfigCreate
create_body draft = record {
  name = draft.name;
  device_type = draft.device_type;
  visibility = draft.visibility;
  payload = draft_to_payload draft;
}

abbrev created : Result ConfigDetail → NewPage × Option ℕ
created (success config) = (record { pending = true; error = none }, some config.id)
created (failure cause) =
    (record { pending = false; error = some (describe_save_error cause) }, none)

-- `submit` of the page of a new configuration; its value is the configuration that the router opens,
-- and the promise is true when there is one.
unfoldable pub submit_new :
    Option Str
    → (ConfigCreate → Str → Result ConfigDetail)
    → ConfigFormDraft
    → NewPage
    → NewPage × Option ℕ
unfolding create_body
submit_new none server draft p = (p, none)
submit_new (some csrf) server draft p = created (server (create_body draft) csrf)
