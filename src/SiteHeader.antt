-- ===== src/SiteHeader.antt =====
-- The header of the site: `SiteHeader` of web/tstlan-web/components/site-header.tsx, by the path of the
-- page and the state of the session.
pub mod Navigation
use tstlan_web.Base.{
  ℕ, zero, suc, ◌+◌, ◌-◌, ◌*◌, ◌/◌, ◌%◌, ◌^◌, ◌≤◌, ◌<◌, ◌≡◌, ◌≢◌, refl, ap, sym, ◌∙◌, ◌↔◌, ◌⊎◌, inl,
  inr, Bool, true, false, ◌&&◌, ◌||◌, not, List, [], ◌∷◌, ◌++◌, map, append-nil, append_assoc,
  Option, none, some, arith, ltb, leb, ◌==◌, if◌then◌else◌, ltb→lt, lt→ltb, leb→le, le→leb, or_else,
  All, All-append, All-drop, length, drop, get_elem?, keep, Among, Empty, Among-map, map-Among,
  keep-append, Among-keep, get_elem?-drop-append, get_elem?-map, some_eq, length-append,
  length-drop, length-map, Bool-cases, Option-cases, ite, ℕ_discrete,
}
use tstlan_web.Base.Text.{
  Str, codes, Str_discrete, is_space, trim, is_empty, NoSpace, trim_of_NoSpace, trim_idempotent,
}
use tstlan_web.Base.Number.{
  ℤ, pos, negsuc, neg, Num, fin, inf, neg_inf, int, less_than, more_than, number_of, to_double,
  round_from, round_half_even, finite_magnitude,
}
use tstlan_web.Base.Number.Decimal.{
  decimal, all_digits, is_digit, value, number_text, decimal_lem, digit_plain,
  NoSpace-of_all_digits, IsDigits, IsDigits-of_all_digits,
}
use tstlan_web.Base.Record.{
  has, add, add_all, has-add_all, AreDistinct, add_all-distinct, has-Among, delete, has-append,
  has-add, has-delete, lookup, assign, remove, lookup-assign, lookup-remove,
}
use tstlan_web.Api.{
  Role, Identity, Cause, api_error, other, UserSummary, DeviceStatus, NetVarCType, NetVarMode,
  VariableInfo, DeviceDetail, ConfigVisibility, SharePermission, ConfigAccess, Transport, ModbusMap,
  ConnectionSettings, ConfigVar, ConfigPayload, ShareInfo, ConfigSummary, ConfigDetail,
  ConfigCreate, ConfigUpdate, has_status, Result, success, failure,
}
use tstlan_web.Device.Panel.{starts_with}
use tstlan_web.Session.{AuthState, anonymous, authenticated, sign_out, login_path}

pub record NavItem : Type 0 where
  pub href : Str
  pub label : Str

-- `NAV`
abbrev pub nav : List NavItem
nav =
    record { href = codes "/dashboard"; label = codes "Дашборд" }
    ∷ record { href = codes "/devices"; label = codes "Устройства" }
    ∷ record { href = codes "/configs"; label = codes "Конфиги" }
    ∷ []

-- `pathname === href || pathname.startsWith(`${href}/`)`
unfoldable pub is_active : Str → NavItem → Bool
unfolding starts_with
is_active pathname item =
    ite (Str_discrete pathname item.href) true (starts_with (item.href ++ codes "/") pathname)

pub record NavLink : Type 0 where
  pub item : NavItem
  pub active : Bool

-- What the header shows to a user: the links, the login and the role.
pub record SiteHeader : Type 0 where
  pub links : List NavLink
  pub login : Str
  pub role : Role

unfoldable pub site_header : Str → AuthState → Option SiteHeader
unfolding is_active
site_header pathname (authenticated user) = some (record {
  links = map (λ item. record { item = item; active = is_active pathname item }) nav;
  login = user.login;
  role = user.role;
})
site_header pathname _ = none
