-- ===== src/Sync/Commits.antt =====
-- The handlers of src/sync_api.rs once more, with the INSERT of src/deltas.rs in two: it draws its seq
-- from the sequence, and its row becomes visible when its transaction commits. All else runs as in
-- Sync/Threads.
mod Solo
mod Past
pub mod Lost
mod Examples
use realm_guard_server.Prelude.{
  ℕ, ◌+◌, ◌≡◌, Option, none, some, [], ◌∷◌, ◌++◌, pos, ltb, ◌==◌, if◌then◌else◌,
}
use realm_guard_server.Platform.{Platform, Bytes, Uuid}
use realm_guard_server.Database.{Database, has_account, max_bigint}
use realm_guard_server.Result.{Result, ok, err, StatusCode, internal, unavailable}
use realm_guard_server.Metrics.{record_delta_pushed}
use realm_guard_server.World.{World, Outcome, served, refused, lost, first, later}
use realm_guard_server.Sync.Api
use realm_guard_server.Sync.Api.{PushReq, decode_payload}
use realm_guard_server.Sync.Service.{Request, push, keeping}
use realm_guard_server.Sync.Threads.{Pc, idle, arrived, nudging, answered, pushed, advance}

-- Where a handler waits.
pub data Place : Type 0 where
  at : Pc → Place
  -- of `push`: with its seq drawn
  committing : Uuid → ℕ → Bytes → Place

abbrev pub failed : StatusCode → Place
failed e = at (answered (pushed (err e)))

-- The row of a transaction that commits.
abbrev pub visible : Uuid → ℕ → Bytes → Database → Database
visible account seq payload db = record db {
  deltas = db.deltas ++ record { seq = seq; account_id = account; payload = payload } ∷ [];
}

module _ {p : Platform} (account : Uuid) where
  -- The world past a call that is over.
  abbrev over : Database → World p → World p
  over db w = record w { db = db; schedule = later w.schedule }

  -- The sequence is drawn from before the constraints are checked.
  abbrev pub draw_seq : Bytes → World p → Place × World p
  draw_seq payload w =
      if ltb max_bigint w.db.next_seq
      then (failed (internal unavailable), over w.db w)
      else (let db = record w.db { next_seq = w.db.next_seq + 1 } in
          if has_account account w.db
          then (committing account w.db.next_seq payload, record w { db = db })
          else (failed (internal unavailable), over db w))

  abbrev pub draw : Outcome → Bytes → World p → Place × World p
  draw refused payload w = (failed (internal unavailable), over w.db w)
  draw served payload w = draw_seq payload w
  draw lost payload w = draw_seq payload w

  abbrev pub insert : Result StatusCode Bytes → World p → Place × World p
  insert (err e) w = (failed e, w)
  insert (ok payload) w = draw (first w.schedule) payload w

  abbrev pub commit : Outcome → ℕ → Bytes → World p → Place × World p
  commit served seq payload w =
      let w' = over (visible account seq payload w.db) w in
      (at (nudging account (pos seq)), record w' { metrics = record_delta_pushed w'.metrics })
  commit refused seq payload w = (failed (internal unavailable), over w.db w)
  commit lost seq payload w =
      (failed (internal unavailable), over (visible account seq payload w.db) w)

-- The push that is about to run its INSERT.
abbrev pub pushing : Pc → Option (Uuid × PushReq)
pushing (arrived account (push body)) = some (account, body)
pushing _ = none

-- One piece of a handler.
unfoldable pub step : {p : Platform} → Place → World p → Place × World p
unfolding advance
step {p} (at pc) w = elim (pushing pc) [
  | some (account, body) ↦ insert account (decode_payload p body.payload) w
  | none ↦ (at (advance pc w).0, (advance pc w).1)
]
step (committing account seq payload) w = commit account (first w.schedule) seq payload w

-- Any number of requests in flight over one world.
pub record System (p : Platform) : Type 0 where
  pub world : World p
  pub place : ℕ → Place

abbrev pub update : (ℕ → Place) → ℕ → Place → ℕ → Place
update places i place j = if j == i then place else places j

-- One handler runs its next piece; a request comes in; or time passes, the other endpoints run and
-- the services change what they are going to answer.
pub data Turn {p : Platform} (s : System p) : System p → Type 0 where
  run :
      (i : ℕ)
      → Turn s (record {
        world = (step (s.place i) s.world).1;
        place = update s.place i (step (s.place i) s.world).0;
      })
  arrive :
      (i : ℕ) (account : Uuid) (r : Request)
      → s.place i ≡ at idle
      → Turn s (record { world = s.world; place = update s.place i (at (arrived account r)) })
  other : (w : World p) → Turn s (record { world = keeping s.world w; place = s.place })

pub data Run {p : Platform} (s : System p) : System p → Type 0 where
  here : Run s s
  next : {t u : System p} → Run s t → Turn t u → Run s u
