-- ===== src/Server/Process.antt =====
-- The process: src/main.rs, with `run_migrations` and the construction of the state (src/lib.rs,
-- src/state.rs) as it calls them. What the libraries and the system answer is an argument; what
-- reaches the outside is a trace.
use Prim.Native.String
use realm_guard_server.Prelude.{
  ℕ, ltb, String, Bool, true, false, Option, none, some, List, [], ◌∷◌, ◌++◌, str_eq, if◌then◌else◌,
}
use realm_guard_server.Platform.{Bytes}
use realm_guard_server.Result.{Result, ok, err}
use realm_guard_server.Server.Config.{Host, Config, ConfigError, from_env, unwrap_or_else}

pub data StartError : Type 0 where
  bad_config : ConfigError → StartError
  bad_database_url bad_redis_url migration_failed : StartError
  no_runtime bind_failed serve_failed : StartError

-- The moment at which a future completes, none if it never does.
abbrev pub Wait : Type 0
Wait = Option ℕ

-- The handlers of the signals: whether they could be installed, and when the signal comes.
pub record Signals : Type 0 where
  pub ctrl_c : Result (Unit {0}) Wait
  -- none where `#[cfg(unix)]` does not hold
  pub sigterm : Option (Result (Unit {0}) Wait)

-- What the process does to the outside, in order.
pub data Act (Event SocketAddr : Type 0) : Type 0 where
  printed : String → Act Event SocketAddr
  -- `sentry::init` with its DSN, if any, `send_default_pii` and `before_send`; the filter of the logs;
  -- rustls' provider
  report_to : Option String → Bool → (Event → Option Event) → Act Event SocketAddr
  log_with : String → Act Event SocketAddr
  install_crypto : Act Event SocketAddr
  migrate : String → Act Event SocketAddr
  listen : SocketAddr → Act Event SocketAddr
  -- the application answers requests there, with this OPAQUE secret, until that moment
  serve : SocketAddr → Bytes → Wait → Act Event SocketAddr

pub record Machine (Event SocketAddr : Type 0) : Type 0 where
  -- `std::env::args().nth(1)`
  pub argument : Option String
  pub host : Host SocketAddr
  -- `realm_guard_core::auth::generate_server_setup` and base64
  pub generated : Bytes
  pub encode64 : Bytes → String
  -- `event.request = None` and `event.server_name = None`, on an event of Sentry
  pub clear_request : Event → Event
  pub clear_server_name : Event → Event
  pub valid_dsn : String → Bool
  pub valid_filter : String → Bool
  pub runtime_built : Bool
  pub signals : Signals
  -- whether the libraries accept an URL, the migrations apply, the port is free, and serving ends well
  pub valid_database : String → Bool
  pub valid_redis : String → Bool
  pub migrations_apply : String → Bool
  pub port_free : SocketAddr → Bool
  pub served_well : Bool

abbrev pub Process : Type 0 → Type 0 → Type 0 → Type 0
Process Event SocketAddr A = Result StartError A × List (Act Event SocketAddr)

module _ {Event SocketAddr : Type 0} where
  abbrev act : Act Event SocketAddr → Process Event SocketAddr (Unit {0})
  act a = (ok tt, a ∷ [])

  abbrev require : Bool → StartError → Process Event SocketAddr (Unit {0})
  require true e = (ok tt, [])
  require false e = (err e, [])

  abbrev then_do :
      {A B : Type 0}
      → Result StartError A
      → List (Act Event SocketAddr)
      → (A → Process Event SocketAddr B)
      → Process Event SocketAddr B
  then_do (ok a) done k = ((k a).0, done ++ (k a).1)
  then_do (err e) done k = (err e, done)

  infixl 5 ◌>>=◌ ◌>>◌
  abbrev pub ◌>>=◌ :
      {A B : Type 0}
      → Process Event SocketAddr A
      → (A → Process Event SocketAddr B)
      → Process Event SocketAddr B
  m >>= k = then_do m.0 m.1 k

  abbrev pub ◌>>◌ :
      {A B : Type 0}
      → Process Event SocketAddr A
      → Process Event SocketAddr B
      → Process Event SocketAddr B
  m >> k = m >>= λ _. k

  abbrev configured :
      Result ConfigError (Config SocketAddr) → Process Event SocketAddr (Config SocketAddr)
  configured (ok c) = (ok c, [])
  configured (err e) = (err (bad_config e), [])

-- A text of the environment that its parser accepts.
abbrev pub parsed : (String → Bool) → Option String → Option String
parsed valid none = none
parsed valid (some text) = if valid text then some text else none

-- An error of the installation is logged and completes the future at once.
abbrev completed : Result (Unit {0}) Wait → Wait
completed (ok t) = t
completed (err e) = some 0

-- `tokio::select!` of two futures
abbrev select : Wait → Wait → Wait
select none b = b
select (some s) none = some s
select (some s) (some t) = some (if ltb t s then t else s)

abbrev terminate : Option (Result (Unit {0}) Wait) → Wait
terminate none = none
terminate (some r) = completed r

unfoldable pub shutdown_signal : Signals → Wait
shutdown_signal signals = select (completed signals.ctrl_c) (terminate signals.sigterm)

module _ {Event SocketAddr : Type 0} (machine : Machine Event SocketAddr) where
  unfoldable pub print_generated_setup : Process Event SocketAddr (Unit {0})
  print_generated_setup = act (printed (String.◌++◌ (machine.encode64 machine.generated) "\n"))

  unfoldable pub run_migrations : String → Process Event SocketAddr (Unit {0})
  run_migrations database_url = do
    require (machine.valid_database database_url) bad_database_url
    act (migrate database_url)
    require (machine.migrations_apply database_url) migration_failed

  -- `AppState::connect`: the URLs are only validated.
  unfoldable pub connect : String → String → Process Event SocketAddr (Unit {0})
  connect database_url redis_url = do
    require (machine.valid_database database_url) bad_database_url
    require (machine.valid_redis redis_url) bad_redis_url

  unfoldable pub run : Process Event SocketAddr (Unit {0})
  unfolding run_migrations connect shutdown_signal
  run = do
    config ← configured (from_env machine.host)
    run_migrations config.database_url
    connect config.database_url config.redis_url
    require (machine.port_free config.addr) bind_failed
    act (listen config.addr)
    act (serve config.addr config.opaque_setup (shutdown_signal machine.signals))
    require machine.served_well serve_failed

  -- `args().nth(1).as_deref() == Some("generate-setup")`
  abbrev is_generate : Option String → Bool
  is_generate none = false
  is_generate (some argument) = str_eq argument "generate-setup"

  unfoldable pub before_send : Event → Option Event
  before_send event = some (machine.clear_server_name (machine.clear_request event))

  -- `send_default_pii: false`
  unfoldable pub init_sentry : Process Event SocketAddr (Unit {0})
  init_sentry =
      act (report_to (parsed machine.valid_dsn (machine.host.var "SENTRY_DSN")) false before_send)

  unfoldable pub init_tracing : Process Event SocketAddr (Unit {0})
  init_tracing =
      act (
        log_with
          (unwrap_or_else "info" (parsed machine.valid_filter (machine.host.var "RUST_LOG"))))

  -- A provider that is there already is only logged.
  unfoldable pub install_crypto_provider : Process Event SocketAddr (Unit {0})
  install_crypto_provider = act install_crypto

  unfoldable pub main : Process Event SocketAddr (Unit {0})
  unfolding print_generated_setup before_send init_sentry init_tracing install_crypto_provider run
  main = if is_generate machine.argument then print_generated_setup else do
    init_sentry
    init_tracing
    install_crypto_provider
    require machine.runtime_built no_runtime
    run
