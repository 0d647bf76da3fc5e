-- ===== src/Session.antt =====
-- Who is signed in: web/tstlan-web/components/auth-provider.tsx, and the form of
-- web/tstlan-web/app/login/page.tsx. A request of the provider is given by its result.
pub mod Laws
use tstlan_web.Base.{
  ℕ, zero, suc, ◌+◌, ◌-◌, ◌*◌, ◌/◌, ◌%◌, ◌^◌, ◌≤◌, ◌<◌, ◌≡◌, ◌≢◌, refl, ap, sym, ◌∙◌, ◌↔◌, ◌⊎◌, inl,
  inr, Bool, true, false, ◌&&◌, ◌||◌, not, List, [], ◌∷◌, ◌++◌, map, append-nil, append_assoc,
  Option, none, some, arith, ltb, leb, ◌==◌, if◌then◌else◌, ltb→lt, lt→ltb, leb→le, le→leb, or_else,
  All, All-append, All-drop, length, drop, get_elem?, keep, Among, Empty, Among-map, map-Among,
  keep-append, Among-keep, get_elem?-drop-append, get_elem?-map, some_eq, length-append,
  length-drop, length-map, Bool-cases, Option-cases, ite, ℕ_discrete,
}
use tstlan_web.Base.Text.{
  Str, codes, Str_discrete, is_space, trim, is_empty, NoSpace, trim_of_NoSpace, trim_idempotent,
}
use tstlan_web.Base.Number.{
  ℤ, pos, negsuc, neg, Num, fin, inf, neg_inf, int, less_than, more_than, number_of, to_double,
  round_from, round_half_even, finite_magnitude,
}
use tstlan_web.Base.Number.Decimal.{
  decimal, all_digits, is_digit, value, number_text, decimal_lem, digit_plain,
  NoSpace-of_all_digits, IsDigits, IsDigits-of_all_digits,
}
use tstlan_web.Base.Record.{
  has, add, add_all, has-add_all, AreDistinct, add_all-distinct, has-Among, delete, has-append,
  has-add, has-delete, lookup, assign, remove, lookup-assign, lookup-remove,
}
use tstlan_web.Api.{
  Role, Identity, Cause, api_error, other, UserSummary, DeviceStatus, NetVarCType, NetVarMode,
  VariableInfo, DeviceDetail, ConfigVisibility, SharePermission, ConfigAccess, Transport, ModbusMap,
  ConnectionSettings, ConfigVar, ConfigPayload, ShareInfo, ConfigSummary, ConfigDetail,
  ConfigCreate, ConfigUpdate, has_status, Result, success, failure,
}

abbrev pub login_path : Str
login_path = codes "/login"

abbrev pub home_path : Str
home_path = codes "/dashboard"

pub data AuthState : Type 0 where
  loading anonymous : AuthState
  authenticated : Identity → AuthState

-- The state of the provider, and the path that the router shows.
pub record Session : Type 0 where
  pub state : AuthState
  pub pathname : Str

abbrev pub is_anonymous : AuthState → Bool
is_anonymous anonymous = true
is_anonymous _ = false

abbrev pub is_authenticated : AuthState → Bool
is_authenticated (authenticated _) = true
is_authenticated _ = false

-- The effect that asks for the identity when the provider is mounted.
unfoldable pub identity_loaded : Result Identity → Session → Session
identity_loaded (success user) s = record s { state = authenticated user }
identity_loaded (failure _) s = record s { state = anonymous }

-- The effect of redirection; `router.replace` puts its argument in place of the path.
unfoldable pub redirect : Session → Session
redirect s =
    let at_login = ite (Str_discrete s.pathname login_path) true false in
    if is_anonymous s.state && not at_login
    then record s { pathname = login_path }
    else if is_authenticated s.state && at_login
    then record s { pathname = home_path }
    else s

-- `signIn`: the failure of the request is thrown to the caller.
unfoldable pub sign_in : Result Identity → AuthState → AuthState × Option Cause
sign_in (success user) state = (authenticated user, none)
sign_in (failure cause) state = (state, some cause)

-- `signOut`: the state after it, the token that is sent, and what it throws.
unfoldable pub sign_out : Result Unit → AuthState → AuthState × Option Str × Option Cause
sign_out (success _) (authenticated user) = (anonymous, some user.csrf_token, none)
sign_out (failure cause) (authenticated user) =
    (authenticated user, some user.csrf_token, some cause)
sign_out _ loading = (anonymous, none, none)
sign_out _ anonymous = (anonymous, none, none)

-- The token and the role that the pages of configurations take from the state.
unfoldable pub csrf_of : AuthState → Option Str
csrf_of (authenticated user) = some user.csrf_token
csrf_of _ = none

unfoldable pub role_of : AuthState → Role
role_of (authenticated user) = user.role
role_of _ = Role.user

pub record LoginPage : Type 0 where
  pub error : Option Str
  pub pending : Bool

unfoldable pub describe_login_error : Cause → Str
unfolding has_status
describe_login_error cause =
    if has_status 401 cause then codes "Неверный логин или пароль" else codes "Не удалось войти"

abbrev login_done : Option Cause → Session → Session × LoginPage
login_done none s = (record s { pathname = home_path }, record { error = none; pending = true })
login_done (some cause) s =
    (s, record { error = some (describe_login_error cause); pending = false })

-- `onSubmit` of the login page. Its states before the submission are overwritten.
unfoldable pub on_submit : Result Identity → Session → Session × LoginPage
unfolding sign_in
on_submit result s =
    let (state, thrown) = sign_in result s.state in login_done thrown (record s { state = state })
