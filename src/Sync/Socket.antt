-- ===== src/Sync/Socket.antt =====
-- The receiving half of src/sync_ws.rs: the WebSocket that relays nudges, as a loop over what the
-- two sources of its `select!` yield, in the order in which they yield it.
use realm_guard_server.Prelude.{String, Bool, true, false, List, [], ◌∷◌, if◌then◌else◌}
use realm_guard_server.Platform.{Platform, Uuid}
use realm_guard_server.Result.{ok, err, Failure}
use realm_guard_server.Metrics.{track_ws_connection, drop_ws_connection}
use realm_guard_server.World.{World, Exec, command, ◌>>◌}
use realm_guard_server.Sync.Nudge.{channel}

pub data Event : Type 0 where
  -- a message of the channel, its payload as text ("" if it is none), and whether the client takes it
  nudge : String → Bool → Event
  pubsub_closed : Event
  -- a Close frame or the end of the stream, a read error, any other frame
  closed read_error other_frame : Event

-- What the loop has sent, and whether it has left by a `break`.
pub record Relayed : Type 0 where
  pub sent : List String
  pub ended : Bool

abbrev stop : Relayed
stop = record { sent = []; ended = true }

unfoldable pub relay : List Event → Relayed
relay [] = record { sent = []; ended = false }
relay (nudge seq taken ∷ rest) =
    let later = relay rest in
    if taken then record { sent = seq ∷ later.sent; ended = later.ended } else stop
relay (pubsub_closed ∷ _) = stop
relay (closed ∷ _) = stop
relay (read_error ∷ _) = stop
relay (other_frame ∷ rest) = relay rest

-- the dedicated connection, and SUBSCRIBE on it
abbrev contact : {p : Platform} → Exec p Failure (Unit {0})
contact = command λ s. (ok tt, s)

-- The guard of the gauge is dropped when the loop has left.
abbrev after_loop : {p : Platform} → Relayed → World p → World p
after_loop r w = if r.ended then record w { metrics = drop_ws_connection w.metrics } else w

-- `handle`, until its loop leaves or its events run out; an error of the set-up closes the socket.
-- `feed` gives what the loop meets once it is subscribed to a channel.
unfoldable pub handle : {p : Platform} → (String → List Event) → Uuid → World p → Relayed × World p
unfolding relay command
handle {p} feed account_id w =
    let (r, w') = (contact >> contact) w in
    elim r [
      | err _ ↦ (stop, w')
      | ok _ ↦
          let events = feed (channel p account_id) in
          let tracked = record w' { metrics = track_ws_connection w'.metrics } in
          (relay events, after_loop (relay events) tracked)
    ]
