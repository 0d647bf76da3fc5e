-- ===== src/Requests/Calls.antt =====
-- The functions that call `request` in web/tstlan-web/lib/api.ts, by the requests that they send.
-- `JSON.stringify` is a parameter. A request that is not built is `none`: `encodeURIComponent` has thrown.
use tstlan_web.Base.{ℕ, [], ◌++◌, Option, none, some}
use tstlan_web.Base.Text.{Str, codes}
use tstlan_web.Base.Number.Decimal.{decimal}
use tstlan_web.Api.{ShareInfo, ConfigCreate, ConfigUpdate}
use tstlan_web.Base.Uri.{encode_uri_component}
use tstlan_web.Requests.{Method, RequestInit, HttpRequest, http_request, plain_init, token_header}

-- What `JSON.stringify` is called with.
pub data Body (V : Type 0) : Type 0 where
  credentials : (login password : Str) → Body V
  written_value : V → Body V
  created : ConfigCreate → Body V
  updated : ConfigUpdate → Body V
  share : ShareInfo → Body V

-- The calls of the module, with their arguments.
pub data Call (V : Type 0) : Type 0 where
  fetch_me : Call V
  login : (user_login password : Str) → Call V
  logout : (csrf_token : Str) → Call V
  list_users list_devices list_configs : Call V
  get_device list_values get_history : (device_id : Str) → Call V
  write_value : (device_id name : Str) (value : V) (csrf_token : Str) → Call V
  get_config : (id : ℕ) → Call V
  create_config : (body : ConfigCreate) (csrf_token : Str) → Call V
  update_config : (id : ℕ) (body : ConfigUpdate) (csrf_token : Str) → Call V
  delete_config : (id : ℕ) (csrf_token : Str) → Call V
  share_config : (id : ℕ) (info : ShareInfo) (csrf_token : Str) → Call V
  unshare_config : (id : ℕ) (user_login csrf_token : Str) → Call V

-- A text with the encoded argument in the middle.
abbrev pub around : Str → Option Str → Str → Option Str
around before none end = none
around before (some x) end = some (before ++ x ++ end)

-- `/devices/${encodeURIComponent(deviceId)}` and what follows
unfoldable pub device_path : Str → Str → Option Str
device_path device_id end = around (codes "/devices/") (encode_uri_component device_id) end

-- `/configs/${id}` and what follows
unfoldable pub config_path : ℕ → Str → Str
config_path id end = codes "/configs/" ++ decimal id ++ end

abbrev pub value_path : Option Str → Str → Option Str
value_path none name = none
value_path (some path) name = around path (encode_uri_component name) []

unfoldable pub path_of : {V : Type 0} → Call V → Option Str
unfolding device_path config_path
path_of fetch_me = some (codes "/auth/me")
path_of (login user_login password) = some (codes "/auth/login")
path_of (logout csrf_token) = some (codes "/auth/logout")
path_of list_users = some (codes "/users")
path_of list_devices = some (codes "/devices")
path_of list_configs = some (codes "/configs")
path_of (get_device device_id) = device_path device_id []
path_of (list_values device_id) = device_path device_id (codes "/values")
path_of (get_history device_id) = device_path device_id (codes "/history")
path_of (write_value device_id name value csrf_token) =
    value_path (device_path device_id (codes "/values/")) name
path_of (get_config id) = some (config_path id [])
path_of (create_config body csrf_token) = some (codes "/configs")
path_of (update_config id body csrf_token) = some (config_path id [])
path_of (delete_config id csrf_token) = some (config_path id [])
path_of (share_config id info csrf_token) = some (config_path id (codes "/shares"))
path_of (unshare_config id user_login csrf_token) =
    around (config_path id (codes "/shares/")) (encode_uri_component user_login) []

module _ {V : Type 0} (stringify : Body V → Str) where
  unfoldable pub init_of : Call V → RequestInit
  init_of (login user_login password) = record {
    method = Method.post;
    headers = [];
    body = some (stringify (credentials user_login password));
  }
  init_of (logout csrf_token) = record {
    method = Method.post;
    headers = token_header csrf_token;
    body = none;
  }
  init_of (write_value device_id name value csrf_token) = record {
    method = Method.put;
    headers = token_header csrf_token;
    body = some (stringify (written_value value));
  }
  init_of (create_config body csrf_token) = record {
    method = Method.post;
    headers = token_header csrf_token;
    body = some (stringify (created body));
  }
  init_of (update_config id body csrf_token) = record {
    method = Method.put;
    headers = token_header csrf_token;
    body = some (stringify (updated body));
  }
  init_of (delete_config id csrf_token) = record {
    method = Method.delete;
    headers = token_header csrf_token;
    body = none;
  }
  init_of (share_config id info csrf_token) = record {
    method = Method.post;
    headers = token_header csrf_token;
    body = some (stringify (share info));
  }
  init_of (unshare_config id user_login csrf_token) = record {
    method = Method.delete;
    headers = token_header csrf_token;
    body = none;
  }
  init_of _ = plain_init

  abbrev pub built : Option Str → RequestInit → Option HttpRequest
  built none init = none
  built (some path) init = some (http_request path init)

  unfoldable pub request_of : Call V → Option HttpRequest
  unfolding path_of init_of http_request
  request_of call = built (path_of call) (init_of call)

-- The address of the event source of `streamValues`.
unfoldable pub stream_url : Str → Option Str
unfolding device_path
stream_url device_id = elim (device_path device_id (codes "/stream")) [
  | none ↦ none
  | some path ↦ some (codes "/api" ++ path)
]
