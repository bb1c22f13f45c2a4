-- ===== src/Server/Untouched.antt =====
-- The endpoints of src/lib.rs outside src/sync_api.rs: they leave the tables of the synchronisation alone.
use realm_guard_server.Database.{Database, DeltaRow, SnapshotRow}
use realm_guard_server.Prelude.{ap, ℕ, List, String, ◌≡◌, refl, ◌∙◌, Bool, true, false, arith}
use realm_guard_server.Platform.{Platform}
use realm_guard_server.World.{World, Exec}
use realm_guard_server.Server.Routes.{Endpoint}
use realm_guard_server.Server.Routes
use realm_guard_server.Server.App.{Request, Framework, serve}
use realm_guard_server.Server.Frame.{IsFrame, Handles, serve-IsFramed}
use realm_guard_server.Server.Idle
use realm_guard_server.Server.Still

-- What the synchronisation keeps.
abbrev pub synced : Database → List DeltaRow × ℕ × List SnapshotRow
synced db = (db.deltas, db.next_seq, db.snapshots)

-- What runs leaves the tables of the synchronisation alone.
abbrev pub IsKept : {p : Platform} {E A : Type 0} → Exec p E A → Type 0
IsKept {p} m = (w : World p) → synced (m w).1.db ≡ synced w.db

-- The endpoints of src/sync_api.rs.
abbrev pub is_sync : Endpoint → Bool
is_sync Routes.sync_push = true
is_sync Routes.sync_pull = true
is_sync Routes.snapshot_put = true
is_sync Routes.snapshot_get = true
is_sync _ = false

module _ (p : Platform) (fw : Framework) where
  abbrev HasSynced : World p → World p → Type 0
  HasSynced w v = synced v.db ≡ synced w.db

  HasSynced-IsFrame : IsFrame HasSynced
  HasSynced-IsFrame = record { same = λ w. refl; joined = λ u v w h k. k ∙ h }

  handled : (e : Endpoint) → is_sync e ≡ false → Handles HasSynced (λ _. Unit {0}) fw e
  handled Routes.healthz h = λ w. ap synced (Idle.healthz-IsIdle fw.core_version w)
  handled Routes.readyz h = λ w. ap synced (Idle.readyz-IsIdle w)
  handled Routes.metrics h = tt
  handled Routes.register_start h = λ b w. ap synced (Idle.register_start-IsIdle b w)
  handled Routes.register_finish h = λ b w. ap synced (Still.register_finish-IsStill b w)
  handled Routes.login_start h = λ b w. ap synced (Idle.login_start-IsIdle b w)
  handled Routes.login_finish h = λ b w. ap synced (Idle.login_finish-IsIdle b w)
  handled Routes.me h = λ account _ w. ap synced (Idle.me-IsIdle account w)
  handled Routes.pairing_deposit h = λ id b w. ap synced (Idle.deposit-IsIdle id b w)
  handled Routes.pairing_fetch h = λ id w. ap synced (Idle.pairing_fetch-IsIdle id w)
  handled Routes.vault_store h = λ account _ b w. ap synced (Still.store-IsStill account b w)
  handled Routes.vault_fetch h = λ account _ w. ap synced (Idle.vault_fetch-IsIdle account w)
  handled Routes.device_list h = λ account _ w. ap synced (Idle.list-IsIdle account w)
  handled Routes.device_register h = λ account _ b w. ap synced (Still.register-IsStill account b w)
  handled Routes.device_revoke h = λ account _ id w. ap synced (Still.revoke-IsStill account id w)
  handled Routes.device_rename h =
      λ account _ id b w. ap synced (Still.rename-IsStill account id b w)
  handled Routes.device_challenge h = λ b w. ap synced (Idle.challenge-IsIdle b w)
  handled Routes.device_verify h = λ b w. ap synced (Idle.verify-IsIdle b w)
  handled Routes.sync_push h = absurd (ground arith)
  handled Routes.sync_pull h = absurd (ground arith)
  handled Routes.snapshot_put h = absurd (ground arith)
  handled Routes.snapshot_get h = absurd (ground arith)
  handled Routes.sync_ws h = tt

  pub serve-IsKept :
      (e : Endpoint) (id : String) (req : Request)
      → is_sync e ≡ false
      → IsKept {p = p} (serve fw e id req)
  serve-IsKept e id req h w =
      serve-IsFramed HasSynced HasSynced-IsFrame (λ _. Unit {0}) fw
        (λ authorization u. ap synced (Idle.from_request_parts-IsIdle authorization u)) e id req
        (handled e h) w (λ account named. tt)
