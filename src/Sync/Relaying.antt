-- ===== src/Sync/Relaying.antt =====
-- Theorems on the relay loop of src/sync_ws.rs and its gauge of connections.
use realm_guard_server.Prelude.{◌≡◌, refl, String, true, false, List, [], ◌∷◌, ◌++◌, arith}
use realm_guard_server.Platform.{Platform, Uuid}
use realm_guard_server.World.{World}
use realm_guard_server.Sync.Socket.{
  Event, nudge, pubsub_closed, closed, read_error, other_frame, relay, handle,
}

-- The event ends the connection.
abbrev pub IsLast : Event → Type 0
IsLast (nudge _ taken) = taken ≡ false
IsLast pubsub_closed = Unit
IsLast closed = Unit
IsLast read_error = Unit
IsLast other_frame = ⊥

abbrev pub AreOpen : List Event → Type 0
AreOpen [] = Unit
AreOpen (nudge _ taken ∷ es) = (taken ≡ true) × AreOpen es
AreOpen (pubsub_closed ∷ _) = ⊥
AreOpen (closed ∷ _) = ⊥
AreOpen (read_error ∷ _) = ⊥
AreOpen (other_frame ∷ es) = AreOpen es

-- The payloads of the channel's messages.
abbrev pub nudges : List Event → List String
nudges [] = []
nudges (nudge seq _ ∷ es) = seq ∷ nudges es
nudges (pubsub_closed ∷ es) = nudges es
nudges (closed ∷ es) = nudges es
nudges (read_error ∷ es) = nudges es
nudges (other_frame ∷ es) = nudges es

-- The loop relays the nudges in their order up to the first event that ends the connection, and
-- nothing from there on.
pub relay-append :
    (es rest : List Event) (last : Event)
    → AreOpen es
    → IsLast last
    → relay (es ++ last ∷ rest) ≡ record { sent = nudges es; ended = true }
unfolding relay
relay-append [] rest (nudge seq taken) h k = rw k refl
relay-append [] rest pubsub_closed h k = refl
relay-append [] rest closed h k = refl
relay-append [] rest read_error h k = refl
relay-append [] rest other_frame h k = elim k [ ]
relay-append (nudge seq taken ∷ es) rest last h k = rw (h.0, relay-append es rest last h.1 k) refl
relay-append (pubsub_closed ∷ es) rest last h k = elim h [ ]
relay-append (closed ∷ es) rest last h k = elim h [ ]
relay-append (read_error ∷ es) rest last h k = elim h [ ]
relay-append (other_frame ∷ es) rest last h k = relay-append es rest last h k

-- A connection whose loop has left, or whose set-up failed, leaves the gauge as it was.
pub handle-gauge :
    {p : Platform} (feed : String → List Event) (account : Uuid) (w : World p)
    → (handle feed account w).0.ended ≡ true
    → (handle feed account w).1.metrics.ws_connections ≡ w.metrics.ws_connections
unfolding handle
handle-gauge {p} feed account w h = ground arith
