-- ===== src/EditorView.antt =====
-- What the page of a configuration shows: the markup of `ConfigEditor`, `Header` and `SharePanel` in
-- web/tstlan-web/components/config-editor.tsx and web/tstlan-web/components/share-panel.tsx.
use tstlan_web.Base.{
  Bool, true, false, ◌&&◌, ◌||◌, not, List, [], ◌∷◌, ◌++◌, map, Option, none, some, ltb,
  if◌then◌else◌, length,
}
use tstlan_web.Base.Text.{Str, codes, Str_discrete, is_empty}
use tstlan_web.Base.Number.{ℤ}
use tstlan_web.Base.Record.{lookup, assign}
use tstlan_web.Api.{Role, UserSummary, SharePermission, ConfigDetail}
use tstlan_web.Config.{ConfigFormDraft}
use tstlan_web.Config.Access.{visibility_label, role_label, is_owner, describe_config_access}
use tstlan_web.Config.Payload.{config_to_draft}
use tstlan_web.Editor.{ConfigFormMode, mode_by_access, LoadState, Editor, SharePanel}
use tstlan_web.Listing.{grant_candidates}

-- `Header`
pub record EditorHeader : Type 0 where
  pub name : Str
  pub device_type : Str
  pub visibility : Str
  pub owner_login : Str
  pub access : Str

unfoldable pub editor_header : ConfigDetail → EditorHeader
editor_header config = record {
  name = config.name;
  device_type = config.device_type;
  visibility = visibility_label config.visibility;
  owner_login = config.owner_login;
  access = describe_config_access config.access config.visibility (length config.shares);
}

-- A notice, or the page; the grants and the button of removal stand on it together.
pub data EditorScreen : Type 0 where
  notice : Str → EditorScreen
  page :
      (header : EditorHeader) (draft : ConfigFormDraft) (mode : ConfigFormMode) (owned : Bool)
      → EditorScreen

abbrev pub is_some {ℓ} : {A : Type ℓ} → Option A → Bool
is_some none = false
is_some (some _) = true

-- `csrf &&`, which an empty token does not pass
abbrev pub has_token : Option Str → Bool
has_token none = false
has_token (some token) = not (is_empty token)

-- `large` is the print of large numbers, as in the fields of the form.
unfoldable pub editor_screen : (ℤ → Str) → Option Str → Editor → EditorScreen
unfolding editor_header
editor_screen large csrf e = elim e.load [
  | LoadState.loading ↦ notice (codes "загрузка...")
  | LoadState.notfound ↦ notice (codes "конфиг не найден")
  | LoadState.error ↦ notice (codes "не удалось загрузить конфиг")
  | LoadState.ready config ↦
      page (editor_header config) (config_to_draft large config) (mode_by_access config.access)
        (is_owner config.access && has_token csrf)
]

-- `Principal`: a login with the label of its role, if that is known.
pub record Principal : Type 0 where
  pub login : Str
  pub role : Option Str

-- `new Map(users.map((user) => [user.login, user.role]))`, started from `m`
unfoldable pub role_of : List (Str × Role) → List UserSummary → List (Str × Role)
role_of m [] = m
role_of m (user ∷ users) = role_of (assign Str_discrete user.login user.role m) users

abbrev pub label_of : Option Role → Option Str
label_of none = none
label_of (some role) = some (role_label role)

unfoldable pub principal : List UserSummary → Str → Principal
unfolding role_of
principal users login = record {
  login = login;
  role = label_of (lookup Str_discrete login (role_of [] users));
}

-- A line of the list of grants; its controls are disabled while a request is pending.
pub record ShareLine : Type 0 where
  pub principal : Principal
  pub permission : SharePermission
  pub enabled : Bool

pub record ShareView : Type 0 where
  pub owner : Principal
  pub lines : List ShareLine
  pub placeholder : Str
  pub candidates : List Str
  pub choice_enabled : Bool
  pub grant_enabled : Bool
  pub error : Option Str

-- `<login> (<role>)`
unfoldable pub candidate_text : UserSummary → Str
candidate_text user = user.login ++ codes " (" ++ role_label user.role ++ codes ")"

unfoldable pub share_view : List UserSummary → ConfigDetail → SharePanel → ShareView
unfolding principal candidate_text
share_view users config p =
    let candidates = grant_candidates users config in
    let any = ltb 0 (length candidates) in
    record {
      owner = principal users config.owner_login;
      lines =
          map
            (λ share. record {
              principal = principal users share.login;
              permission = share.permission;
              enabled = not p.pending;
            })
            config.shares;
      placeholder = if any then codes "- выберите -" else codes "нет доступных";
      candidates = map candidate_text candidates;
      choice_enabled = any;
      grant_enabled = not (p.pending || is_empty p.login);
      error = p.error;
    }

unfoldable pub choose_login : Str → SharePanel → SharePanel
choose_login login p = record p { login = login }

unfoldable pub choose_permission : SharePermission → SharePanel → SharePanel
choose_permission permission p = record p { permission = permission }
