-- ===== src/Program/Node.antt =====
-- bin/publisher/src/main.rs and crates/transport/src/server.rs together: the server's actions and the
-- coordinator's calls on the state that they share. `on_connect` and `on_message` spawn their calls,
-- so a call comes at some later point than the action that asks for it.
use publisher.Base.{List, [], ◌∷◌, ◌++◌}
use publisher.Base.Results.{Result}
use publisher.Spec.Primitives.{Bytes, Text}
use publisher.Coordinator.State.{External}
use publisher.Coordinator.Service
use publisher.Coordinator.Service.{Effect, spawn_submit, count_connection, uncount_connection}
use publisher.Transport.Framing.{TransportError, LengthPrefixCodec}
use publisher.Transport.Connections
use publisher.Transport.Connections.{StableId, ConnectionRegistry, connect, disconnect}
use publisher.Transport.Session.{Action, inserted, on_connect, on_message, removed, on_disconnect}
use publisher.Program.{Call, serve}
use publisher.Program.Startup.{Node}

abbrev pub Sent : Type 0
Sent = List (Text × Result TransportError (StableId × Bytes))

-- An action and, of `on_connect` and `on_disconnect`, the gauge.
unfoldable pub act : Node → Action → Node
unfolding connect disconnect
act n (inserted client_id conn) = record n { registry = (connect n.registry client_id conn).0 }
act n (on_connect client_id) = record n { coordinator = count_connection n.coordinator }
act n (on_message client_id payload) = n
act n (removed client_id conn) = record n { registry = disconnect n.registry client_id conn }
act n (on_disconnect client_id) = record n { coordinator = uncount_connection n.coordinator }

-- What the server sends for an effect.
unfoldable pub send : LengthPrefixCodec → ConnectionRegistry → Effect → Sent
unfolding Connections.broadcast_raw Connections.send_raw
send codec reg (Service.broadcast_raw payload) = Connections.broadcast_raw codec reg payload []
send codec reg (Service.send_raw client_id payload) =
    (client_id, Connections.send_raw codec reg client_id payload) ∷ []
send codec reg (spawn_submit superblock_number proofs) = []

unfoldable pub send_all : LengthPrefixCodec → ConnectionRegistry → List Effect → Sent
unfolding send
send_all codec reg [] = []
send_all codec reg (e ∷ es) = send codec reg e ++ send_all codec reg es

pub data Happening : Type 0 where
  acted : Action → Happening
  called : Call → Happening

module _ (ext : External) where
  unfoldable pub happen : Node → Happening → Node × Sent
  unfolding act serve send_all
  happen n (acted a) = (act n a, [])
  happen n (called call) =
      let (c, effects) = serve ext n.coordinator call in
      (record n { coordinator = c }, send_all n.codec n.registry effects)

  unfoldable pub happen_all : Node → List Happening → Node
  unfolding happen
  happen_all n [] = n
  happen_all n (h ∷ hs) = happen_all (happen n h).0 hs
