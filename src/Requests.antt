-- ===== src/Requests.antt =====
-- How a request is made and ends: `request`, `requestVoid` and `readDetail` in
-- web/tstlan-web/lib/api.ts, and what is made of the answer with times. The server is the response that
-- it gives.
pub mod Answers
pub mod Calls
pub mod Urls
pub mod Tokens
use tstlan_web.Base.{
  ℕ, zero, suc, ◌+◌, ◌-◌, ◌*◌, ◌/◌, ◌%◌, ◌^◌, ◌≤◌, ◌<◌, ◌≡◌, ◌≢◌, refl, ap, sym, ◌∙◌, ◌↔◌, ◌⊎◌, inl,
  inr, Bool, true, false, ◌&&◌, ◌||◌, not, List, [], ◌∷◌, ◌++◌, map, append-nil, append_assoc,
  Option, none, some, arith, ltb, leb, ◌==◌, if◌then◌else◌, ltb→lt, lt→ltb, leb→le, le→leb, or_else,
  All, All-append, All-drop, length, drop, get_elem?, keep, Among, Empty, Among-map, map-Among,
  keep-append, Among-keep, get_elem?-drop-append, get_elem?-map, some_eq, length-append,
  length-drop, length-map, Bool-cases, Option-cases, ite, ℕ_discrete,
}
use tstlan_web.Base.Text.{
  Str, codes, Str_discrete, is_space, trim, is_empty, NoSpace, trim_of_NoSpace, trim_idempotent,
}
use tstlan_web.Base.Number.{
  ℤ, pos, negsuc, neg, Num, fin, inf, neg_inf, int, less_than, more_than, number_of, to_double,
  round_from, round_half_even, finite_magnitude,
}
use tstlan_web.Base.Number.Decimal.{
  decimal, all_digits, is_digit, number_text, decimal_lem, digit_plain, NoSpace-of_all_digits,
  IsDigits, IsDigits-of_all_digits,
}
use tstlan_web.Base.Record.{
  has, add, add_all, has-add_all, AreDistinct, add_all-distinct, has-Among, has-append, has-add,
  has-delete, lookup, assign, remove, lookup-assign, lookup-remove,
}
use tstlan_web.Api.{
  Role, Identity, Cause, api_error, other, UserSummary, DeviceStatus, NetVarCType, NetVarMode,
  VariableInfo, DeviceDetail, ConfigVisibility, SharePermission, ConfigAccess, Transport, ModbusMap,
  ConnectionSettings, ConfigVar, ConfigPayload, ShareInfo, ConfigSummary, ConfigDetail,
  ConfigCreate, ConfigUpdate, has_status, Result, success, failure,
}
use tstlan_web.History.{HistoryPoint}
use tstlan_web.Base.Uri.{encode_uri_component}

-- A response: its status, the value of its body or `none` if that is not JSON.
pub record Response (J : Type 0) : Type 0 where
  pub status : ℕ
  pub json : Option J

-- How `fetch` ends: it throws, or it has a response.
pub data Fetched (J : Type 0) : Type 0 where
  broken : Fetched J
  answered : Response J → Fetched J

-- `response.ok`
abbrev pub is_ok : ℕ → Bool
is_ok status = leb 200 status && leb status 299

-- `super(detail ?? ...)` of `ApiError`
unfoldable pub api_error_message : ℕ → Option Str → Str
api_error_message status none = codes "api request failed with status " ++ decimal status
api_error_message status (some detail) = detail

module _ {J : Type 0} (detail_of : J → Option Str) where
  -- `detail_of` is `body.detail` if that is a string.
  unfoldable pub read_detail : Response J → Option Str
  read_detail response = elim response.json [ none ↦ none | some body ↦ detail_of body ]

  abbrev pub body_or_throw : Option J → Result J
  body_or_throw none = failure other
  body_or_throw (some body) = success body

  unfoldable pub request : Fetched J → Result J
  unfolding read_detail
  request broken = failure other
  request (answered response) =
      if not (is_ok response.status)
      then failure (api_error response.status (read_detail response))
      else body_or_throw response.json

  unfoldable pub request_void : Fetched J → Result Unit
  unfolding read_detail
  request_void broken = failure other
  request_void (answered response) =
      if not (is_ok response.status)
      then failure (api_error response.status (read_detail response))
      else success tt

pub data Method : Type 0 where
  get post put delete : Method

-- The second argument of `fetch`.
pub record RequestInit : Type 0 where
  pub method : Method
  pub headers : List (Str × Str)
  pub body : Option Str

pub record HttpRequest : Type 0 where
  pub url : Str
  pub init : RequestInit

-- `{ "Content-Type": "application/json", ...headers }`
unfoldable pub with_headers : List (Str × Str) → List (Str × Str) → List (Str × Str)
with_headers base [] = base
with_headers base ((name, value) ∷ headers) =
    with_headers (assign Str_discrete name value base) headers

-- What `request` and `requestVoid` hand to `fetch`.
unfoldable pub http_request : Str → RequestInit → HttpRequest
unfolding with_headers
http_request path init = record {
  url = codes "/api" ++ path;
  init = record init {
    headers = with_headers ((codes "Content-Type", codes "application/json") ∷ []) init.headers;
  };
}

abbrev pub plain_init : RequestInit
plain_init = record { method = Method.get; headers = []; body = none }

-- `headers: { "X-CSRF-Token": csrfToken }`
abbrev pub token_header : Str → List (Str × Str)
token_header csrf_token = (codes "X-CSRF-Token", csrf_token) ∷ []

-- `getHistory`: the times of the points become milliseconds; `to_ms` is `Math.round(t * 1000)`.
module _ {T V : Type 0} (to_ms : T → ℕ) where
  abbrev pub in_ms : T × List (Str × V) → HistoryPoint V
  in_ms (t, values) = record { t = to_ms t; values = values }

  unfoldable pub history_of : Result (List (T × List (Str × V))) → Result (List (HistoryPoint V))
  history_of (success points) = success (map in_ms points)
  history_of (failure cause) = failure cause

-- `source.onmessage`: what `onSnapshot` is called with; `parse` is `JSON.parse`, which may throw.
module _ {T W : Type 0} (parse : Str → Option (T × List W)) (to_ms : T → ℕ) where
  abbrev pub snapshot_in_ms : Option (T × List W) → Option (List W × ℕ)
  snapshot_in_ms none = none
  snapshot_in_ms (some (t, values)) = some (values, to_ms t)

  unfoldable pub on_message : Str → Option (List W × ℕ)
  on_message text = snapshot_in_ms (parse text)
