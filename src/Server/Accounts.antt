-- ===== src/Server/Accounts.antt =====
-- Theorems on the accounts of src/accounts.rs in the life of the whole application of src/lib.rs.
use realm_guard_server.Prelude.{
  String, ◌≡◌, ◌≢◌, ap, ◌∙◌, inl, inr, Option-cases, some, List, [], ◌∷◌, ◌++◌, arith,
}
use realm_guard_server.Platform.{Platform, Bytes}
use realm_guard_server.Database.{AccountRow}
use realm_guard_server.Result.{ok, created, Result-cases}
use realm_guard_server.World.{World}
use realm_guard_server.Auth.Accounts.{account_of, insert_row}
use realm_guard_server.Auth.Api.{RegisterFinishReq, decode, register_finish}
use realm_guard_server.Auth.Registration.{registered, register_finish-taken}
use realm_guard_server.Server.App.{Framework}
use realm_guard_server.Server.Frame.{IsFrame, respond-frame}
use realm_guard_server.Server.Still
use realm_guard_server.Server.Writers.{Writers, from_request_parts-IsFramed, handled}
use realm_guard_server.Relay.Vault
use realm_guard_server.Devices.Api as Devices
use realm_guard_server.Sync.Api
use realm_guard_server.Server.Sessions.{asked, passed, Life, born, after}

account_of-append :
    (name : String) (rows more : List AccountRow) (a : AccountRow)
    → account_of name rows ≡ some a
    → account_of name (rows ++ more) ≡ some a
account_of-append name [] more a h = cc
account_of-append name (r ∷ rows) more a h = ground (arith, account_of-append name rows more a)

module _ (p : Platform) (name : String) where
  -- The row of the username stays.
  abbrev HasRow : World p → World p → Type 0
  HasRow w v =
      (a : AccountRow)
      → account_of name w.db.accounts ≡ some a
      → account_of name v.db.accounts ≡ some a

  HasRow-IsFrame : IsFrame HasRow
  HasRow-IsFrame = record { same = λ w a h. h; joined = λ u v w h k a e. k a (h a e) }

  HasRow-same : (w v : World p) → v.db.accounts ≡ w.db.accounts → HasRow w v
  HasRow-same w v e a h = ap (account_of name) e ∙ h

  HasRow-register_finish :
      (body : RegisterFinishReq) (w : World p) → HasRow w (register_finish body w).1
  unfolding register_finish insert_row
  HasRow-register_finish body w a h = elim (Result-cases (decode p body.upload)) [
    | inr (e, bad) ↦ ground arith
    | inl (upload, good) ↦ elim (Option-cases (p.server_register_finish upload)) [
      | inl bad ↦ ground arith
      | inr (file, finished) ↦ ground (
        arith,
        account_of-append name w.db.accounts
            (record { id = p.new_v4 w.draws; username = body.username; password_file = file } ∷ [])
            a h,
      )
    ]
  ]

  HasRow-Writers : Writers HasRow (λ _. Unit {0})
  HasRow-Writers = record {
    unmoved = λ w v e. HasRow-same w v (ap (λ db. db.accounts) e);
    register_finish = HasRow-register_finish;
    store = λ account _ b w.
        HasRow-same w (Vault.store account b w).1
          (ap (λ db. db.accounts) (Still.store-IsStill account b w));
    register = λ account _ b w.
        HasRow-same w (Devices.register account b w).1
          (ap (λ db. db.accounts) (Still.register-IsStill account b w));
    revoke = λ account _ id w.
        HasRow-same w (Devices.revoke account id w).1
          (ap (λ db. db.accounts) (Still.revoke-IsStill account id w));
    rename = λ account _ id b w.
        HasRow-same w (Devices.rename account id b w).1
          (ap (λ db. db.accounts) (Still.rename-IsStill account id b w));
    push = λ account _ b w.
        HasRow-same w (Api.push account b w).1
          (ap (λ db. db.accounts) (Still.push-IsStill account b w));
    put_snapshot = λ account _ b w.
        HasRow-same w (Api.put_snapshot account b w).1
          (ap (λ db. db.accounts) (Still.put_snapshot-IsStill account b w));
  }

  Life-HasRow : (fw : Framework) {w v : World p} → Life fw w v → HasRow w v
  Life-HasRow fw born a h = h
  Life-HasRow fw (after {u} l (asked req)) a h =
      respond-frame HasRow HasRow-IsFrame (λ _. Unit {0}) fw
        (from_request_parts-IsFramed HasRow (λ _. Unit {0}) HasRow-Writers)
        (handled HasRow (λ _. Unit {0}) HasRow-Writers fw) (λ w m a e. e) req u
        (λ account named. tt) a (Life-HasRow fw l a h)
  Life-HasRow fw (after l (passed t os)) a h = Life-HasRow fw l a h

-- A registration that was answered with 201 is for good, whatever is asked of the server afterwards.
-- After any requests by anyone to any path, however the services answered them, and after any time,
-- the username still has its row, with the identifier drawn then and the password file that OPAQUE made
-- of the upload; and no registration of that username is answered with 201 or changes an account.
pub registered_for_good :
    {p : Platform} (fw : Framework) (body again : RegisterFinishReq) (w v : World p)
    → (register_finish body w).0 ≡ ok created
    → Life fw (register_finish body w).1 v
    → again.username ≡ body.username
    → (upload : Bytes) × (file : Bytes) × (decode p body.upload ≡ ok upload)
      × (p.server_register_finish upload ≡ some file)
      × (account_of body.username v.db.accounts
          ≡ some (record { id = p.new_v4 w.draws; username = body.username; password_file = file }))
      × ((register_finish again v).0 ≢ ok created)
      × ((register_finish again v).1.db.accounts ≡ v.db.accounts)
registered_for_good {p} fw body again w v h life name =
    let (upload, file, good, finished, row) = registered body w h in
    let kept = Life-HasRow p body.username fw life _ row in
    let (refused, unchanged) = register_finish-taken again v _ (rw (← name) at kept) in
    (upload, file, good, finished, kept, refused, unchanged)
