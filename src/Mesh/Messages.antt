-- ===== src/Mesh/Messages.antt =====
-- `handle_tunnel_message` of p2p-node/src/local_mesh.rs, over the shared tables of the process: the
-- active tunnels, the known keys, the peer store and the signal channel. A send into a tunnel's
-- channel appends to its queue, and a send of a signal appends to the signals; the limit of 100
-- messages in a channel, at which a send waits, is not modelled.
pub mod Laws
use p2p_common.Common.{
  ℕ, String, Bool, true, false, Option, none, some, List, [], ◌∷◌, ◌++◌, str_eq, if◌then◌else◌, any,
  map,
}
use p2p_common.Common.Dict.{Dict, get, insert, keys}
use p2p_common.Common.Int.{pos}
use p2p_common.Protocol.Types.{Uuid, NodeInfo, NodeTopologyInfo}
use p2p_common.Protocol.Message.{P2pMessage, rtc_signal, request_topology, response_topology}
use p2p_common.Registry.{
  Known, PeerMap, PeerConfig, update_entry, get_known_public_key, update_known_public_keys,
}

pub record TunnelSession : Type 0 where
  pub connection_id : Uuid
  -- the messages that were sent into `tx`, oldest first
  pub queue : List P2pMessage

pub data LocalMeshSignal : Type 0 where
  inbound_rtc_signal :
      (from_node_id signal_type sdp_or_candidate : String) (sdp_mid : Option String)
      (sdp_mline_index : Option ℕ)
      → LocalMeshSignal
  peer_discovered : NodeInfo → LocalMeshSignal
  tunnel_established : String → LocalMeshSignal

pub record Mesh : Type 0 where
  pub tunnels : Dict TunnelSession
  pub known : Known
  pub peers : PeerMap
  -- none: nobody has set SIGNAL_TX
  pub signals : Option (List LocalMeshSignal)

-- `if let Some(tx) = SIGNAL_TX.get() { tx.send(s) }`
abbrev pub signalled :
    LocalMeshSignal → Option (List LocalMeshSignal) → Option (List LocalMeshSignal)
signalled s none = none
signalled s (some sent) = some (sent ++ s ∷ [])

abbrev pub emit : Mesh → LocalMeshSignal → Mesh
emit m s = record m { signals = signalled s m.signals }

abbrev pub queued : P2pMessage → TunnelSession → TunnelSession
queued msg t = record t { queue = t.queue ++ msg ∷ [] }

-- `if let Some(session) = tunnels.get(id) { session.tx.send(msg) }`
abbrev pub send_to : Mesh → String → P2pMessage → Mesh
send_to m id msg = elim (get m.tunnels id) [
  | none ↦ m
  | some t ↦ record m { tunnels = insert m.tunnels id (queued msg t) }
]

abbrev pub addresses_of : Option PeerConfig → List String
addresses_of none = []
addresses_of (some p) = p.last_known_addresses

abbrev pub describe : Mesh → String → Option String → List NodeTopologyInfo → List NodeTopologyInfo
describe m id none rest = rest
describe m id (some key) rest =
    record {
      id = id;
      name = id;
      public_key = key;
      last_known_addresses = addresses_of (get m.peers id);
    }
    ∷ rest

-- The loop over the ids of the tunnels
unfoldable pub topology : Mesh → List String → List NodeTopologyInfo
topology m [] = []
topology m (id ∷ ids) = describe m id (get_known_public_key m.known id) (topology m ids)

abbrev pub discovered : NodeTopologyInfo → NodeInfo
discovered p = record {
  id = p.id;
  name = p.name;
  os = "unknown";
  version = "0.1.0";
  app_type = "desktop";
  build_type = "debug";
  public_key = p.public_key;
  resources = [];
  is_online = false;
  last_used = pos 0;
  is_temporary = false;
}

-- An address is added where it is not there yet.
unfoldable pub add_addresses : List String → List String → List String
add_addresses old [] = old
add_addresses old (a ∷ more) =
    add_addresses (if any (λ b. str_eq b a) old then old else old ++ a ∷ []) more

abbrev pub remember : Mesh → NodeTopologyInfo → Mesh
remember m p = record m {
  known = update_known_public_keys m.known (discovered p ∷ []);
  peers = update_entry m.peers p.id (λ c. record c { public_key = p.public_key; name = p.name });
}

abbrev pub learn_key : Mesh → NodeTopologyInfo → Option String → Mesh
learn_key m p none = remember m p
learn_key m p (some key) = m

abbrev pub learn_addresses : Mesh → String → List String → Mesh
learn_addresses m id [] = m
learn_addresses m id (a ∷ addresses) = record m {
  peers = update_entry m.peers id (λ c. record c {
    last_known_addresses = add_addresses c.last_known_addresses (a ∷ addresses);
  });
}

unfoldable pub learn_peer : Mesh → String → NodeTopologyInfo → Mesh
learn_peer m my_id p =
    if str_eq p.id my_id
    then m
    else learn_addresses (learn_key m p (get_known_public_key m.known p.id)) p.id
        p.last_known_addresses

unfoldable pub learn_peers : Mesh → String → List NodeTopologyInfo → Mesh
unfolding learn_peer
learn_peers m my_id [] = m
learn_peers m my_id (p ∷ peers) = learn_peers (learn_peer m my_id p) my_id peers

unfoldable pub handle_tunnel_message : Mesh → P2pMessage → String → String → Mesh
unfolding topology learn_peers
handle_tunnel_message m (rtc_signal target signal_type sdp mid index) remote_node_id my_id =
    if str_eq target my_id
    then emit m (inbound_rtc_signal remote_node_id signal_type sdp mid index)
    else send_to m target (rtc_signal target signal_type sdp mid index)
handle_tunnel_message m request_topology remote_node_id my_id =
    send_to m remote_node_id (response_topology (topology m (keys m.tunnels)))
handle_tunnel_message m (response_topology peers) remote_node_id my_id = learn_peers m my_id peers
handle_tunnel_message m msg remote_node_id my_id = m
