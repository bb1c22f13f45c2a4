-- ===== src/Server/Ledgers.antt =====
-- Theorems on the application of src/lib.rs as a whole: what any request, by any path, may do to the log
-- and the snapshots of an account.
use realm_guard_server.Prelude.{
  String, ◌≡◌, refl, ap, ◌∙◌, ◌⊎◌, inl, inr, Bool-cases, Option, arith, ◌==◌, ==_iff, Option-cases,
}
use realm_guard_server.Platform.{Platform, Uuid}
use realm_guard_server.Database.{Database}
use realm_guard_server.Result.{ok, Result-cases}
use realm_guard_server.World.{World}
use realm_guard_server.Auth.Api.{from_request_parts}
use realm_guard_server.Sync.Snapshots.{covered}
use realm_guard_server.Sync.Invariant.{IsSound}
use realm_guard_server.Sync.Service
use realm_guard_server.Sync.Service.{handle, Step-IsSound}
use realm_guard_server.Sync.Isolation.{handle-HasSame}
use realm_guard_server.Sync.Ledger.{Move, stay, view, view-HasSame, Step-Move}
use realm_guard_server.Server.Routes.{Endpoint, Route, on_method, route_of}
use realm_guard_server.Server.Routes
use realm_guard_server.Server.App.{Request, Framework, serve, respond}
use realm_guard_server.Server.Idle.{from_request_parts-IsIdle}
use realm_guard_server.Server.Untouched.{synced, serve-IsKept}

view-synced :
    (account : Uuid) (a b : Database) → synced a ≡ synced b → view account a ≡ view account b
unfolding covered
view-synced account a b h =
    let deltas : a.deltas ≡ b.deltas = ap (λ x. x.0) h in
    let snapshots : a.snapshots ≡ b.snapshots = ap (λ x. x.2) h in rw (deltas, snapshots) refl

IsSound-synced : (a b : Database) → synced a ≡ synced b → IsSound b → IsSound a
IsSound-synced a b h v =
    let deltas : a.deltas ≡ b.deltas = ap (λ x. x.0) h in
    let next_seq : a.next_seq ≡ b.next_seq = ap (λ x. x.1) h in
    let snapshots : a.snapshots ≡ b.snapshots = ap (λ x. x.2) h in
    record {
      ascending = rw deltas v.ascending;
      drawn = rw (deltas, next_seq) v.drawn;
      started = rw next_seq v.started;
      bounded = rw (snapshots, next_seq) v.bounded;
      compacted = rw (deltas, snapshots) v.compacted;
    }

-- What a run from `w` did to the synchronisation: nothing, or one request of the account whose
-- session the header names.
data Origin {p : Platform} (authorization : Option String) (w : World p) (db : Database)
    : Type 0 where
  nothing : synced db ≡ synced w.db → Origin authorization w db
  asked :
      (account : Uuid) (r : Service.Request)
      → (from_request_parts authorization w).0 ≡ ok account
      → db ≡ (handle account r (from_request_parts authorization w).1).db
      → Origin authorization w db

module _ {p : Platform} (fw : Framework) (w : World p) where
  pushed :
      (id : String) (req : Request)
      → Origin req.authorization w (serve fw Routes.sync_push id req w).1.db
  unfolding serve
  pushed id req =
      let kept = from_request_parts-IsIdle req.authorization w in
      elim (Result-cases (from_request_parts req.authorization w).0) [
        | inr (c, bad) ↦ nothing (ground arith)
        | inl (account, named) ↦ elim (Result-cases (fw.push_req req.body)) [
          | inr (s, e) ↦ nothing (ground arith)
          | inl (body, e) ↦ asked account (Service.push body) named (ground arith)
        ]
      ]

  pulled :
      (id : String) (req : Request)
      → Origin req.authorization w (serve fw Routes.sync_pull id req w).1.db
  unfolding serve
  pulled id req =
      let kept = from_request_parts-IsIdle req.authorization w in
      elim (Result-cases (from_request_parts req.authorization w).0) [
        | inr (c, bad) ↦ nothing (ground arith)
        | inl (account, named) ↦ elim (Result-cases (fw.pull_query req.query)) [
          | inr (s, e) ↦ nothing (ground arith)
          | inl (query, e) ↦ asked account (Service.pull query) named (ground arith)
        ]
      ]

  published :
      (id : String) (req : Request)
      → Origin req.authorization w (serve fw Routes.snapshot_put id req w).1.db
  unfolding serve
  published id req =
      let kept = from_request_parts-IsIdle req.authorization w in
      elim (Result-cases (from_request_parts req.authorization w).0) [
        | inr (c, bad) ↦ nothing (ground arith)
        | inl (account, named) ↦ elim (Result-cases (fw.snapshot_req req.body)) [
          | inr (s, e) ↦ nothing (ground arith)
          | inl (body, e) ↦ asked account (Service.put_snapshot body) named (ground arith)
        ]
      ]

  fetched :
      (id : String) (req : Request)
      → Origin req.authorization w (serve fw Routes.snapshot_get id req w).1.db
  unfolding serve
  fetched id req =
      let kept = from_request_parts-IsIdle req.authorization w in
      elim (Result-cases (from_request_parts req.authorization w).0) [
        | inr (c, bad) ↦ nothing (ground arith)
        | inl (account, named) ↦ asked account Service.get_snapshot named (ground arith)
      ]

  served :
      (e : Endpoint) (id : String) (req : Request)
      → Origin req.authorization w (serve fw e id req w).1.db
  served Routes.sync_push id req = pushed id req
  served Routes.sync_pull id req = pulled id req
  served Routes.snapshot_put id req = published id req
  served Routes.snapshot_get id req = fetched id req
  served e id req = nothing (serve-IsKept p fw e id req refl w)

  answered : (req : Request) → Origin req.authorization w (respond fw req w).1.db
  unfolding respond
  answered req = elim (Option-cases (fw.matched req.path)) [
    | inl unknown ↦ nothing (ground arith)
    | inr ((pattern, id), known) ↦ elim (Option-cases (route_of pattern)) [
      | inl unrouted ↦ nothing (ground arith)
      | inr (route, routed) ↦ elim (Option-cases (on_method req.method route)) [
        | inl lacks ↦ nothing (ground arith)
        | inr (e, has) ↦ elim (served e id req) [
          | nothing same ↦ nothing (ground (arith, same))
          | asked account r named moved ↦ asked account r named (ground (arith, moved))
        ]
      ]
    ]
  ]

-- Whatever a client sends, to whatever path, and however the services answer: from a well-formed log
-- on, the log stays well-formed, and the ledger of an account makes one of its moves; and it stays
-- as it is unless the extractor finds in the request a session of that account.
pub respond-Move :
    {p : Platform} (fw : Framework) (req : Request) (w : World p) (account : Uuid)
    → IsSound w.db
    → IsSound (respond fw req w).1.db
      × Move (view account w.db) (view account (respond fw req w).1.db)
      × (((from_request_parts req.authorization w).0 ≡ ok account)
          ⊎ (view account (respond fw req w).1.db ≡ view account w.db))
respond-Move fw req w account v =
    let u = (from_request_parts req.authorization w).1 in
    let after = (respond fw req w).1.db in
    let kept = ap synced (from_request_parts-IsIdle req.authorization w) in
    let before = view-synced account u.db w.db kept in
    let sound = IsSound-synced u.db w.db kept v in
    elim (answered fw w req) [
      | nothing same ↦
          let e = view-synced account after w.db same in
          (IsSound-synced after w.db same v, stay e, inr e)
      | asked mine r named moved ↦ (
        rw moved (Step-IsSound (Service.request mine r u) sound),
        rw (moved, ← before) (Step-Move account (Service.request mine r u) sound),
        elim (Bool-cases (mine == account)) [
          | inl own ↦ inl (named ∙ ap ok ((==_iff mine account).0 own))
          | inr foreign ↦ inr (
              rw moved (
                view-HasSame account _ _
                  (handle-HasSame mine account r u (λ k. ground (arith, ==_iff mine account)))
                ∙ before))
        ],
      )
    ]
