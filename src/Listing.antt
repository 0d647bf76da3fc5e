-- ===== src/Listing.antt =====
-- The pages that list configurations and devices: web/tstlan-web/app/configs/page.tsx and
-- web/tstlan-web/app/devices/page.tsx, and the users of web/tstlan-web/components/share-panel.tsx.
use tstlan_web.Base.{ℕ, Bool, true, false, List, [], ◌∷◌, ◌++◌}
use tstlan_web.Base.Text.{Str, codes}
use tstlan_web.Api.{
  UserSummary, DeviceStatus, ConfigSummary, ConfigDetail, Result, success, failure,
}
use tstlan_web.Base.Number.Decimal.{decimal}
use tstlan_web.Device.Screen.{status_label}
use tstlan_web.Config.Access.{available_grantees, visibility_label}

pub record DeviceSummary : Type 0 where
  pub id : Str
  pub name : Str
  pub type : Str
  pub enabled : Bool
  pub status : DeviceStatus
  pub variable_count : ℕ

-- The state of a list of `A`.
pub data LoadState (A : Type 0) : Type 0 where
  loading error : LoadState A
  ready : List A → LoadState A

abbrev pub loaded : {A : Type 0} → Bool → Result (List A) → LoadState A → LoadState A
loaded false _ state = state
loaded true (success items) _ = ready items
loaded true (failure _) _ = error

unfoldable pub configs_loaded :
    Bool → Result (List ConfigSummary) → LoadState ConfigSummary → LoadState ConfigSummary
configs_loaded active result state = loaded active result state

unfoldable pub devices_loaded :
    Bool → Result (List DeviceSummary) → LoadState DeviceSummary → LoadState DeviceSummary
devices_loaded active result state = loaded active result state

-- What a page shows: a notice, or a table.
pub data View (A : Type 0) : Type 0 where
  notice : Str → View A
  table : A → List A → View A

unfoldable pub configs_view : LoadState ConfigSummary → View ConfigSummary
configs_view loading = notice (codes "загрузка...")
configs_view error = notice (codes "не удалось загрузить конфиги")
configs_view (ready []) = notice (codes "конфиги не созданы")
configs_view (ready (c ∷ cs)) = table c cs

unfoldable pub devices_view : LoadState DeviceSummary → View DeviceSummary
devices_view loading = notice (codes "загрузка...")
devices_view error = notice (codes "не удалось загрузить список устройств")
devices_view (ready []) = notice (codes "устройства не настроены")
devices_view (ready (d ∷ ds)) = table d ds

-- The users of the panel of grants; a failure leaves them as they are.
unfoldable pub users_loaded : Bool → Result (List UserSummary) → List UserSummary → List UserSummary
users_loaded true (success users) _ = users
users_loaded true (failure _) users = users
users_loaded false _ users = users

unfoldable pub grant_candidates : List UserSummary → ConfigDetail → List UserSummary
grant_candidates users config = available_grantees users config.owner_login config.shares

-- A line of `DeviceTable`; the id stands in the link as it is.
pub record DeviceLine : Type 0 where
  pub href : Str
  pub status : Str
  pub name : Str
  pub id : Str
  pub type : Str
  pub variable_count : Str

unfoldable pub device_line : DeviceSummary → DeviceLine
device_line device = record {
  href = codes "/devices/" ++ device.id;
  status = status_label device.status;
  name = device.name;
  id = device.id;
  type = device.type;
  variable_count = decimal device.variable_count;
}

-- A line of `ConfigTable`
pub record ConfigLine : Type 0 where
  pub href : Str
  pub name : Str
  pub owner_login : Str
  pub device_type : Str
  pub visibility : Str

unfoldable pub config_line : ConfigSummary → ConfigLine
config_line config = record {
  href = codes "/configs/" ++ decimal config.id;
  name = config.name;
  owner_login = config.owner_login;
  device_type = config.device_type;
  visibility = visibility_label config.visibility;
}
