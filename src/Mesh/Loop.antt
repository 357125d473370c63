-- ===== src/Mesh/Loop.antt =====
-- `run_tunnel_loop` of p2p-node/src/local_mesh.rs. One step of the loop is an event that `select!`
-- picked: a message from the tunnel's channel, the channel's end, a packet, or a failed read. What the
-- socket says to a write, and what the session and serde_json make of the bytes, come with the event.
pub mod Laws
use p2p_common.Common.{
  ℕ, ◌==◌, String, Bool, true, false, Option, none, some, List, [], ◌∷◌, if◌then◌else◌,
}
use p2p_common.Common.Dict.{get, insert, remove}
use p2p_common.Protocol.Types.{Uuid}
use p2p_common.Protocol.Message.{P2pMessage}
use p2p_common.Mesh.Messages.{Mesh, TunnelSession, handle_tunnel_message}

pub data Event : Type 0 where
  -- `rx.recv()` gave the oldest message; false: writing its packet failed. A message that serde_json
  -- or the session refuses is dropped, and the loop goes on as after one that was written.
  outgoing : Bool → Event
  senders_gone : Event
  -- a packet; none: the session or serde_json refused it
  packet : Option P2pMessage → Event
  read_failed : Event

-- The head of the tunnel's queue leaves it when the loop receives it.
abbrev pub popped : TunnelSession → TunnelSession
popped t = elim (t.queue) [ [] ↦ t | _ ∷ rest ↦ record t { queue = rest } ]

-- The channel of this connection: the entry of the table, as long as that is of this connection.
unfoldable pub received : Mesh → String → Uuid → Mesh
received m remote connection = elim (get m.tunnels remote) [
  | none ↦ m
  | some t ↦
      if t.connection_id == connection
      then record m { tunnels = insert m.tunnels remote (popped t) }
      else m
]

-- The end of the loop: the entry is removed if it is this connection's.
unfoldable pub cleanup : Mesh → String → Uuid → Mesh
cleanup m remote connection = elim (get m.tunnels remote) [
  | none ↦ m
  | some t ↦
      if t.connection_id == connection then record m { tunnels = remove m.tunnels remote } else m
]

-- The state of the tables after the events, and the events that were not taken any more; none: the
-- loop still runs.
unfoldable pub run_tunnel_loop :
    List Event → Mesh → String → String → Uuid → Mesh × Option (List Event)
unfolding cleanup received handle_tunnel_message
run_tunnel_loop [] m remote my_id connection = (m, none)
run_tunnel_loop (outgoing true ∷ es) m remote my_id connection =
    run_tunnel_loop es (received m remote connection) remote my_id connection
run_tunnel_loop (outgoing false ∷ es) m remote my_id connection =
    (cleanup (received m remote connection) remote connection, some es)
run_tunnel_loop (senders_gone ∷ es) m remote my_id connection =
    (cleanup m remote connection, some es)
run_tunnel_loop (packet none ∷ es) m remote my_id connection =
    run_tunnel_loop es m remote my_id connection
run_tunnel_loop (packet (some msg) ∷ es) m remote my_id connection =
    run_tunnel_loop es (handle_tunnel_message m msg remote my_id) remote my_id connection
run_tunnel_loop (read_failed ∷ es) m remote my_id connection =
    (cleanup m remote connection, some es)
