-- ===== src/Lib.antt =====
-- A verification of the synchronisation server of Realm Guard (Rust, the crate of this repository).
-- The server relays sealed data between the devices of an account: it authenticates clients, keeps a
-- log of encrypted deltas with snapshots that compact it, and holds a few blobs for pairing and for
-- the vault. It never sees a plaintext; what it promises is custody, order and isolation.
--
-- The parts, and the files that model them (paths from the repository's root):
--   Platform.antt    what the server takes from outside: Redis and its client (`Redis`), base64, the
--                    uuid crate, getrandom, postcard, and OPAQUE and Ed25519 from realm-guard-core,
--                    as operations with their documented laws. Platform/Sample.antt is a concrete
--                    instance on which the laws hold, for the tests.
--   Result.antt      the status codes of the handlers and the failures of a service call.
--   Database.antt    the Postgres schema (migrations/0002 to 0007): rows, and the bigserial sequence.
--   Metrics.antt     the counters, the gauge and what is recorded of a request (src/observability.rs).
--                    Metrics/Recorder.antt is the recorder that renders them.
--   World.antt       `AppState` (src/state.rs), the monad of the handlers, and the answers that the
--                    services give. World/Sample.antt has concrete servers.
--   Cache.antt       the Redis commands as the source sends them.
--   Sync             src/deltas.rs (Deltas), src/snapshots.rs (Snapshots), src/sync_api.rs (Api),
--                    src/sync_ws.rs (Nudge, Socket). Invariant, Effects, Rows, Sizes and Service
--                    say what holds of the tables after any requests; Durability, Delivery, Paging,
--                    Publication, Isolation and Relaying what a client may rely on.
--                    Ledger is the specification of the log and the snapshots for one account.
--                    Threads has the handlers of src/sync_api.rs cut at their calls of the
--                    services; Threads/Tables, Ready, Interleaved and Skipped say what holds when
--                    requests interleave there, and Threads/Alone puts the pieces together again. In
--                    Commits an INSERT also draws its seq before it commits; Commits/Lost says
--                    what that can cost.
--   Auth             src/accounts.rs, src/sessions.rs, src/rate_limit.rs, src/auth_api.rs; the key
--                    spaces of Redis (Keys), the lock in time (Lockout), logins (Login, Flows,
--                    Grants, Tokens) and registrations (Registration).
--   Devices          src/devices.rs (Registry), src/devices_api.rs (Api), src/device_auth_api.rs
--                    (AuthApi); Effects, Ownership, Unique, Heirs, Tenancy, Revocation, Vouched,
--                    Openings and Naming on top.
--   Relay            src/vault_keys.rs, src/vault_api.rs (Vault), src/pairing_api.rs (Pairing);
--                    Custody and Tenancy on top.
--   Server           src/config.rs (Config), src/health.rs (Health), `render_metrics` of src/lib.rs
--                    (MetricsRoute), `build_app` of src/lib.rs with the routes of each endpoint
--                    module (Routes) and their extractors (App), src/main.rs with `run_migrations`
--                    and `AppState::connect` (Process); Startup, Boot, Access, Setup,
--                    Counts, Tally, Verdicts, Tallied, Frame, Idle, Still, Writers, Untouched
--                    and Ledgers on top.
--                    Sessions (with Holding and Held), Accounts, Keyholders, Revoked, Lasting,
--                    Apart and Reads follow a session, an account, a device key, a revoked device,
--                    a vault key, all that an account has and what it reads through the life of
--                    the whole application. Of the tables, Schema and Intact have the references
--                    and unique columns, Distinct the primary keys and Checked what the handlers
--                    check before they write (Written), and Tables says that all of it holds for
--                    that life (Preserved).
--
-- How code corresponds to definitions. A handler is a function from its request and the world to its
-- answer and the next world, with the name that it has in the source. It runs at one instant and no
-- other request runs between its statements; requests of any accounts may run between two handlers.
-- Sync/Threads alone is finer: there a handler stops at each call of a service, `advance` runs one
-- piece, and the pieces of any number of requests take turns. An INSERT, with its draw of a seq, is
-- one piece there, and so is the transaction of a publication, at its commit; in Sync/Commits the
-- draw and the commit of an INSERT are two.
-- Every call of Postgres or Redis takes its outcome from a schedule that the environment chose:
-- served, refused before it had an effect, or served with the answer lost; a schedule that has run
-- out serves. Theorems that do not say `schedule ≡ []` hold for every schedule. An SQL statement is
-- a function on the tables that translates its text, with the constraints of the schema; a
-- transaction restores the tables on every way out but a commit that Postgres carried out.
-- A uuid is the number of its 128 bits; a `bigint` that a client chooses is an integer. `json`
-- bodies and query strings are their records, and an extractor that refuses a malformed request
-- never reaches a handler. `login_start`, `login_finish` and `verify` are divided where they
-- branch into named continuations. The relay loop of a WebSocket is structural recursion on the list
-- of events that it meets, so no fuel is needed anywhere.
--
-- An endpoint is its extractors in their order, its handler and its response (`serve`); the
-- framework's matching of paths and parsing of requests is an argument (`Framework`), and a law of it
-- is a hypothesis of the theorem that wants it. The start of the process is a trace of what it does,
-- with the outcomes of libraries as arguments. A handler in pieces has at most four, which is the
-- number that `pieces` needs. A life of the application (`Life`) is any sequence of requests to
-- `respond`, of time that passes and of changes in what the services are going to answer; in an
-- `Absence` none of the requests has a session of one account.
--
-- Not modelled: what Sentry, tracing, rustls and the exporter of the metrics do once set up, and the
-- measured durations (src/observability.rs), which are the work of libraries; interleavings inside the
-- handlers other than those of src/sync_api.rs; fractions of a second in the time of a row, so that
-- devices of one second are listed in the order of the table; and the tests.
mod Prelude
pub mod Platform
pub mod Result
pub mod Database
pub mod Metrics
pub mod World
pub mod Cache
pub mod Sync
pub mod Auth
pub mod Devices
pub mod Relay
pub mod Server
