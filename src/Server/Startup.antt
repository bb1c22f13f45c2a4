-- ===== src/Server/Startup.antt =====
-- Theorems on src/config.rs, src/health.rs and `render_metrics` of src/lib.rs.
use Prim.Native.String
use realm_guard_server.Prelude.{
  ◌≡◌, ◌↔◌, ◌⊎◌, inl, inr, String, true, none, some, Option-cases, arith, length, str_eq_iff, ◌<◌,
}
use realm_guard_server.Prelude.Text.{trim}
use realm_guard_server.Platform.{Platform, Bytes}
use realm_guard_server.Result.{ok, Result-cases}
use realm_guard_server.World.{World, first, later, served}
use realm_guard_server.Auth.Tokens.{strip_prefix-append}
use realm_guard_server.Server.Config.{Host, Config, decode_setup, load_opaque_setup, from_env}
use realm_guard_server.Server.Health.{Ready, readyz}
use realm_guard_server.Server.MetricsRoute.{render_metrics}

-- The text that the setup is decoded from: the mounted file, or else the inline value.
pub record IsSource {SocketAddr : Type 0} (host : Host SocketAddr) (text : String) : Type 0 where
  pub from :
      ((path : String) × (host.var "RG_OPAQUE_SETUP_FILE" ≡ some path)
        × (host.read_to_string path ≡ some text))
      ⊎ ((host.var "RG_OPAQUE_SETUP_FILE" ≡ none) × (host.var "RG_OPAQUE_SETUP" ≡ some text))

module _ {SocketAddr : Type 0} (host : Host SocketAddr) where
  decode_setup-eq-ok :
      (text : String) (bytes : Bytes)
      → decode_setup host text ≡ ok bytes
      → (host.decode64 text ≡ some bytes) × (0 < length bytes)
  unfolding decode_setup
  decode_setup-eq-ok text bytes h = (ground arith, ground arith)

  load-eq-ok :
      (bytes : Bytes)
      → load_opaque_setup host ≡ ok bytes
      → (text : String) × IsSource host text × (decode_setup host (trim text) ≡ ok bytes)
  unfolding load_opaque_setup
  load-eq-ok bytes h = elim (Option-cases (host.var "RG_OPAQUE_SETUP_FILE")) [
    | inr (path, set) ↦ elim (Option-cases (host.read_to_string path)) [
      | inr (text, read) ↦ (text, record { from = inl (path, set, read) }, ground arith)
      | inl unreadable ↦ absurd (ground arith)
    ]
    | inl unset ↦ elim (Option-cases (host.var "RG_OPAQUE_SETUP")) [
      | inr (text, set) ↦ (text, record { from = inr (unset, set) }, ground arith)
      | inl missing ↦ absurd (ground arith)
    ]
  ]

-- A configuration that loads has a secret: the non-empty decoding of the trimmed file of
-- `RG_OPAQUE_SETUP_FILE` if that variable is set, and only otherwise of `RG_OPAQUE_SETUP`.
pub from_env-secret :
    {SocketAddr : Type 0} (host : Host SocketAddr) (config : Config SocketAddr)
    → from_env host ≡ ok config
    → (text : String) × IsSource host text
      × (host.decode64 (trim text) ≡ some config.opaque_setup)
      × (0 < length config.opaque_setup)
unfolding from_env
from_env-secret host config h = elim (Result-cases (load_opaque_setup host)) [
  | inr (e, bad) ↦ absurd (ground arith)
  | inl (bytes, good) ↦
      let (text, source, decoded) = load-eq-ok host bytes good in
      let same : config.opaque_setup ≡ bytes = ground arith in
      let (decode, full) = decode_setup-eq-ok host (trim text) bytes decoded in
      (text, source, rw same decode, rw same full)
]

-- With a token configured, /metrics is answered exactly for the header "Bearer " and that token.
pub metrics_token :
    (rendered expected : String) (token : String)
    → (render_metrics rendered (some expected) (some (String.◌++◌ "Bearer " token)) ≡ ok rendered)
      ↔ (token ≡ expected)
unfolding render_metrics
metrics_token rendered expected token =
    ground (arith, strip_prefix-append "Bearer " token, str_eq_iff token expected)

-- On an open connection of Redis, /readyz is answered with 200 exactly if both Postgres and Redis
-- answered.
pub readyz_iff :
    {p : Platform} (w : World p)
    → w.connected ≡ true
    → ((r : Ready) × ((readyz w).0 ≡ ok r))
      ↔ ((first w.schedule ≡ served) × (first (later w.schedule) ≡ served))
unfolding readyz
readyz_iff w up = (
  λ h. (ground arith, ground arith),
  λ h. (record { status = "ready"; database = "up"; redis = "up" }, ground arith),
)
