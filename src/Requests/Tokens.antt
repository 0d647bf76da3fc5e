-- ===== src/Requests/Tokens.antt =====
-- Which calls carry the token of the session.
use tstlan_web.Base.{
  ◌≡◌, refl, inl, inr, Bool, true, false, Option, none, some, some_eq, Option-cases,
}
use tstlan_web.Base.Text.{Str, codes, Str_discrete}
use tstlan_web.Base.Record.{lookup, assign}
use mathlib.Core.Path.{subst}
use tstlan_web.Requests.{Method, HttpRequest, with_headers, http_request}
use tstlan_web.Requests.Calls.{
  Body, Call, path_of, init_of, request_of, fetch_me, login, logout, list_users, list_devices,
  list_configs, get_device, list_values, get_history, write_value, get_config, create_config,
  update_config, delete_config, share_config, unshare_config,
}

-- The token that a call is given; reads and the login are given none.
abbrev pub token_of : {V : Type 0} → Call V → Option Str
token_of (logout csrf_token) = some csrf_token
token_of (write_value device_id name v csrf_token) = some csrf_token
token_of (create_config body csrf_token) = some csrf_token
token_of (update_config id body csrf_token) = some csrf_token
token_of (delete_config id csrf_token) = some csrf_token
token_of (share_config id info csrf_token) = some csrf_token
token_of (unshare_config id user_login csrf_token) = some csrf_token
token_of _ = none

-- A call that is not the login and sends `POST`, `PUT` or `DELETE`.
abbrev pub is_change : {V : Type 0} → Call V → Method → Bool
is_change (login user_login password) method = false
is_change _ Method.get = false
is_change _ _ = true

abbrev pub is_given : Option Str → Bool
is_given none = false
is_given (some _) = true

-- The headers of a request: JSON, and the token if there is one.
abbrev pub IsSigned : {V : Type 0} → Call V → HttpRequest → Type 0
IsSigned call req =
    (lookup Str_discrete (codes "X-CSRF-Token") req.init.headers ≡ token_of call)
    × (lookup Str_discrete (codes "Content-Type") req.init.headers
        ≡ some (codes "application/json"))
    × (is_change call req.init.method ≡ is_given (token_of call))

module _ {V : Type 0} (stringify : Body V → Str) where
  signed : (call : Call V) (path : Str) → IsSigned call (http_request path (init_of stringify call))
  unfolding init_of http_request with_headers lookup Str_discrete assign
  signed fetch_me path = (refl, refl, refl)
  signed (login a b) path = (refl, refl, refl)
  signed (logout a) path = (refl, refl, refl)
  signed list_users path = (refl, refl, refl)
  signed list_devices path = (refl, refl, refl)
  signed list_configs path = (refl, refl, refl)
  signed (get_device a) path = (refl, refl, refl)
  signed (list_values a) path = (refl, refl, refl)
  signed (get_history a) path = (refl, refl, refl)
  signed (write_value a b c d) path = (refl, refl, refl)
  signed (get_config a) path = (refl, refl, refl)
  signed (create_config a b) path = (refl, refl, refl)
  signed (update_config a b c) path = (refl, refl, refl)
  signed (delete_config a b) path = (refl, refl, refl)
  signed (share_config a b c) path = (refl, refl, refl)
  signed (unshare_config a b c) path = (refl, refl, refl)

  -- Every request has the JSON header and the token of its call, and the calls with a token are those
  -- that send `POST`, `PUT` or `DELETE`, except the login.
  pub request_of-IsSigned :
      (call : Call V) (req : HttpRequest) → request_of stringify call ≡ some req → IsSigned call req
  unfolding request_of
  request_of-IsSigned call req h = elim (Option-cases (path_of call)) [
    | inl e ↦ let bad : ◌≡◌ {A = Option HttpRequest} none (some req) = rw e at h in absurd (cc)
    | inr (path, e) ↦ subst (IsSigned call) (some_eq (rw e at h)) (signed call path)
  ]
