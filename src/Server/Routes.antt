-- ===== src/Server/Routes.antt =====
-- The routing table of the application: `routes` of each endpoint module, merged by `build_app` of
-- src/lib.rs.
use realm_guard_server.Prelude.{String, Option, none, some, List, [], ◌∷◌, ◌++◌, str_eq, find?}

pub data Method : Type 0 where
  get head post put patch delete other : Method

pub data Endpoint : Type 0 where
  healthz readyz metrics : Endpoint
  register_start register_finish login_start login_finish me : Endpoint
  pairing_deposit pairing_fetch : Endpoint
  vault_store vault_fetch : Endpoint
  device_list device_register device_revoke device_rename : Endpoint
  device_challenge device_verify : Endpoint
  sync_push sync_pull snapshot_put snapshot_get sync_ws : Endpoint

-- `.route(pattern, …)`: the handler of each method that the route has.
pub record Route : Type 0 where
  pub pattern : String
  pub on_get : Option Endpoint
  pub on_post : Option Endpoint
  pub on_put : Option Endpoint
  pub on_patch : Option Endpoint
  pub on_delete : Option Endpoint

abbrev empty : String → Route
empty pattern = record {
  pattern = pattern;
  on_get = none;
  on_post = none;
  on_put = none;
  on_patch = none;
  on_delete = none;
}

abbrev by_get : String → Endpoint → Route
by_get pattern e = record (empty pattern) { on_get = some e }

abbrev by_post : String → Endpoint → Route
by_post pattern e = record (empty pattern) { on_post = some e }

abbrev pub auth_routes : List Route
auth_routes =
    by_post "/auth/register/start" register_start
    ∷ by_post "/auth/register/finish" register_finish
    ∷ by_post "/auth/login/start" login_start
    ∷ by_post "/auth/login/finish" login_finish
    ∷ by_get "/auth/me" me
    ∷ []

abbrev pub pairing_routes : List Route
pairing_routes =
    record (by_post "/pairing/{id}" pairing_deposit) { on_get = some pairing_fetch } ∷ []

abbrev pub vault_routes : List Route
vault_routes = record (by_get "/vault/key" vault_fetch) { on_put = some vault_store } ∷ []

abbrev pub devices_routes : List Route
devices_routes =
    record (by_get "/devices" device_list) { on_post = some device_register }
    ∷ record (empty "/devices/{id}") {
      on_delete = some device_revoke;
      on_patch = some device_rename;
    }
    ∷ []

abbrev pub device_auth_routes : List Route
device_auth_routes =
    by_post "/auth/device/challenge" device_challenge
    ∷ by_post "/auth/device/verify" device_verify
    ∷ []

abbrev pub sync_routes : List Route
sync_routes =
    record (by_post "/sync/deltas" sync_push) { on_get = some sync_pull }
    ∷ record (by_get "/sync/snapshot" snapshot_get) { on_put = some snapshot_put }
    ∷ []

abbrev pub ws_routes : List Route
ws_routes = by_get "/sync/ws" sync_ws ∷ []

abbrev pub app_routes : List Route
app_routes =
    by_get "/healthz" healthz
    ∷ by_get "/readyz" readyz
    ∷ by_get "/metrics" metrics
    ∷ (auth_routes ++ pairing_routes ++ vault_routes ++ devices_routes ++ device_auth_routes
        ++ sync_routes ++ ws_routes)

-- The handler of a method; a HEAD request is served as a GET.
abbrev pub on_method : Method → Route → Option Endpoint
on_method get r = r.on_get
on_method head r = r.on_get
on_method post r = r.on_post
on_method put r = r.on_put
on_method patch r = r.on_patch
on_method delete r = r.on_delete
on_method other r = none

abbrev pub route_of : String → Option Route
route_of pattern = find? (λ r. str_eq r.pattern pattern) app_routes
