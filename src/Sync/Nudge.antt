-- ===== src/Sync/Nudge.antt =====
-- The publishing half of src/sync_ws.rs: a nudge carries the new seq and never the delta.
use Prim.Native.String
use realm_guard_server.Prelude.{String, [], ◌∷◌, ◌++◌, ℤ}
use realm_guard_server.Platform.{Platform, Uuid}
use realm_guard_server.Result.{ok, err, StatusCode}
use realm_guard_server.World.{World, Exec, refused, first, later, redis}

unfoldable pub channel : Platform → Uuid → String
channel p account_id = String.◌++◌ "sync:" (p.uuid_text account_id)

-- PUBLISH, with its result thrown away
abbrev publish : {p : Platform} → String → ℤ → World p → World p
publish to seq w = elim (first w.schedule) [
  | refused ↦ record w { schedule = later w.schedule }
  | _ ↦ record w { schedule = later w.schedule; published = w.published ++ (to, seq) ∷ [] }
]

-- Best effort: a connection that cannot be had, or a failed PUBLISH, is no error.
unfoldable pub publish_nudge : {p : Platform} → Uuid → ℤ → Exec p StatusCode (Unit {0})
unfolding redis
publish_nudge {p} account_id seq w =
    let (r, w') = redis w in
    elim r [ ok _ ↦ (ok tt, publish (channel p account_id) seq w') | err _ ↦ (ok tt, w') ]
