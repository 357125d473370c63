-- ===== src/Network/Run.antt =====
-- client-core/src/network/mod.rs: the dials of cached peers, and `run_network_manager`, with the start from the peer store, and the loop that
-- takes ticks, commands and the signals of the local mesh in any order, while the sessions change.
pub mod Limit
use p2p_common.Common.{
  ℕ, String, Bool, Option, none, some, true, false, ◌||◌, List, [], ◌∷◌, ◌++◌, map, str_eq,
  if◌then◌else◌,
}
use p2p_common.Common.Dict.{Dict, get, insert, entries_of, contains_key}
use p2p_common.Common.Int.{pos}
use p2p_common.Protocol.Types.{NodeInfo}
use p2p_common.Registry.{PeerConfig, PeerMap, Known, update_known_public_keys}
use p2p_common.Limits.{Limits}
use p2p_common.Mesh.Messages.{LocalMeshSignal, TunnelSession}
use p2p_common.Network.Types.{NetCmd, ConnectionState}
use p2p_common.Network.State.{NetworkManager, Effect, connect_signaling, new_manager, update_nodes}
use p2p_common.Network.Peers.{handle_tick}
use p2p_common.Network.Route.{handle_peer_signal}
use p2p_common.Network.Commands.{Env, handle_net_cmd, start_local_discovery}

abbrev pub is_skipped : String → String → PeerConfig → Bool
is_skipped my_id id peer =
    str_eq id my_id || (str_eq peer.os "web" || str_eq peer.name "Web Browser Node")

abbrev pub initial_node : String → PeerConfig → NodeInfo
initial_node id peer = record {
  id = id;
  name = peer.name;
  os = peer.os;
  version = "0.1.0";
  app_type = "desktop";
  build_type = "debug";
  public_key = peer.public_key;
  resources = [];
  is_online = false;
  last_used = pos 0;
  is_temporary = false;
}

unfoldable pub initial_nodes : String → List (String × PeerConfig) → List NodeInfo
initial_nodes my_id [] = []
initial_nodes my_id ((id, peer) ∷ peers) =
    if is_skipped my_id id peer
    then initial_nodes my_id peers
    else initial_node id peer ∷ initial_nodes my_id peers

unfoldable pub insert_nodes : Dict NodeInfo → List NodeInfo → Dict NodeInfo
insert_nodes known [] = known
insert_nodes known (node ∷ nodes) = insert_nodes (insert known node.id node) nodes

abbrev pub remember : NetworkManager → List NodeInfo → NetworkManager
remember m [] = m
remember m nodes = update_nodes (record m {
  known = update_known_public_keys m.known nodes;
  last_known_nodes = insert_nodes m.last_known_nodes nodes;
})

-- What precedes the loop; `peers` and `known` are the tables that the process holds then.
unfoldable pub start : NodeInfo → PeerMap → Known → Bool → NetworkManager
unfolding initial_nodes insert_nodes
start my_info peers known enable_local_discovery =
    let m = record (new_manager my_info) { peers = peers; known = known } in
    let m1 = remember m (initial_nodes my_info.id (entries_of peers)) in
    if enable_local_discovery then start_local_discovery m1 else m1

-- The dials of `trigger_cached_peer_reconnections`; the tunnels are those that are there.
unfoldable pub trigger_cached_peer_reconnections :
    String → Dict TunnelSession → List (String × PeerConfig) → List Effect
trigger_cached_peer_reconnections my_id tunnels [] = []
trigger_cached_peer_reconnections my_id tunnels ((id, peer) ∷ cached) =
    let rest = trigger_cached_peer_reconnections my_id tunnels cached in
    if str_eq id my_id || contains_key tunnels id
    then rest
    else map (λ addr. connect_signaling addr id) peer.last_known_addresses ++ rest

-- What a branch of the `select!` gives, and what happens to a session between two of them. The limits are those of the process at that time.
pub data ManagerEvent : Type 0 where
  ticked : (now : ℕ) → Limits → ManagerEvent
  commanded : Env → Limits → NetCmd → ManagerEvent
  -- `net_rx` is closed
  ended : ManagerEvent
  signalled : LocalMeshSignal → ManagerEvent
  -- `signal_rx` is closed
  mesh_ended : ManagerEvent
  -- not of the `select!`: the library sets the state of a session's peer connection, which the manager
  -- reads anew each time
  state_changed : String → ConnectionState → ManagerEvent

abbrev pub set_state : NetworkManager → String → ConnectionState → NetworkManager
set_state m id state = elim (get m.active_peers id) [
  | none ↦ m
  | some c ↦ record m {
    active_peers = insert m.active_peers id (record c { connection_state = state });
  }
]

unfoldable pub run_network_manager : Bool → NetworkManager → List ManagerEvent → NetworkManager
unfolding handle_tick handle_net_cmd handle_peer_signal
run_network_manager local_mesh_open m [] = m
run_network_manager local_mesh_open m (ticked now limits ∷ events) =
    run_network_manager local_mesh_open (handle_tick (record m { limits = limits }) now) events
run_network_manager local_mesh_open m (commanded w limits cmd ∷ events) =
    run_network_manager local_mesh_open (handle_net_cmd w (record m { limits = limits }) cmd) events
run_network_manager local_mesh_open m (ended ∷ events) = m
run_network_manager local_mesh_open m (signalled signal ∷ events) =
    run_network_manager local_mesh_open (if local_mesh_open then handle_peer_signal m signal else m)
      events
run_network_manager local_mesh_open m (mesh_ended ∷ events) = run_network_manager false m events
run_network_manager local_mesh_open m (state_changed id state ∷ events) =
    run_network_manager local_mesh_open (set_state m id state) events
