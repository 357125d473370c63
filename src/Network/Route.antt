-- ===== src/Network/Route.antt =====
-- `route_rtc_signal` of client-core/src/network/mod.rs, and `handle_peer_signal` of
-- client-core/src/network/peer_orchestrator.rs, which takes what a tunnel delivers.
pub mod Laws
use p2p_common.Common.{
  ℕ, zero, suc, ◌+◌, String, Bool, true, false, not, ◌&&◌, ◌||◌, Option, none, some, List, [], ◌∷◌,
  ◌++◌, str_eq, str_lt, if◌then◌else◌,
}
use p2p_common.Common.Dict.{get, insert}
use p2p_common.Protocol.Types.{NodeInfo}
use p2p_common.Protocol.Message.{P2pMessage}
use p2p_common.Registry.{get_known_public_key, PeerConfig}
use p2p_common.Mesh.Messages.{
  LocalMeshSignal, inbound_rtc_signal, peer_discovered, tunnel_established,
}
use p2p_common.Network.Types.{
  RtcSignal, offer, answer, ice_candidate, RtcSignalEnvelope, InboundRtcSignal,
  handle_inbound_signal, auto_connect, local_mesh, ConnectionState, connected,
}
use p2p_common.Network.State.{
  NetworkManager, WebRtcClient, queued, on_ws_state_changed, perform, update_nodes, drop_peer,
  is_focused,
}
use p2p_common.Network.Peers.{unknown_node}

-- The message for the tunnel
abbrev pub tunnel_message : RtcSignalEnvelope → P2pMessage
tunnel_message e = elim (e.signal) [
  | offer sdp ice_restart ↦ P2pMessage.rtc_signal e.to_node_id "offer" sdp none none
  | answer sdp ↦ P2pMessage.rtc_signal e.to_node_id "answer" sdp none none
  | ice_candidate candidate mid index ↦
      P2pMessage.rtc_signal e.to_node_id "candidate" candidate mid index
]

pub data Routed : Type 0 where
  over_tunnel : P2pMessage → Routed
  over_ws : RtcSignalEnvelope → Routed
  unrouted : Routed

-- The loop over the attempts. `seen n` is what attempt `n` finds: no tunnel of the node, or one whose
-- channel takes the message or is closed. Between two attempts the task sleeps.
unfoldable pub attempts : (ℕ → Option Bool) → Bool → ℕ → ℕ → Bool
attempts seen has_ws n zero = false
attempts seen has_ws n (suc left) =
    let later = attempts seen has_ws (n + 1) left in
    elim (seen n) [ some sent ↦ sent | none ↦ if has_ws then false else later ]

unfoldable pub route_rtc_signal : RtcSignalEnvelope → (ℕ → Option Bool) → Bool → Routed
unfolding attempts
route_rtc_signal e seen has_ws =
    if attempts seen has_ws 1 10
    then over_tunnel (tunnel_message e)
    else if has_ws
    then over_ws e
    else unrouted

-- The signal that the text of a tunnel's message stands for
unfoldable pub parse_signal : String → String → Option String → Option ℕ → Option RtcSignal
parse_signal signal_type sdp mid index =
    if str_eq signal_type "offer"
    then some (offer sdp false)
    else if str_eq signal_type "answer"
    then some (answer sdp)
    else if str_eq signal_type "candidate"
    then some (ice_candidate sdp mid index)
    else none

abbrev pub hand_on : NetworkManager → String → Option RtcSignal → NetworkManager
hand_on m from none = m
hand_on m from (some s) =
    perform m (queued (handle_inbound_signal (record { from_node_id = from; signal = s })) ∷ [])

abbrev pub local_mesh_state : NetworkManager → NetworkManager
local_mesh_state m = if m.has_ws then m else perform m (on_ws_state_changed local_mesh ∷ [])

abbrev pub is_online_in : Option NodeInfo → Bool
is_online_in none = false
is_online_in (some n) = n.is_online

abbrev pub discover : NetworkManager → NodeInfo → NetworkManager
discover m node =
    let m1 =
      local_mesh_state
        (update_nodes (record m { last_known_nodes = insert m.last_known_nodes node.id node })) in
    if not (is_online_in (get m.last_known_nodes node.id))
      && not (str_eq node.app_type "web")
      && str_lt m.my_info.id node.id
    then perform m1 (queued (auto_connect node.id) ∷ [])
    else m1

abbrev pub is_connected : WebRtcClient → Bool
is_connected c = elim (c.connection_state) [ connected ↦ true | _ ↦ false ]

-- A session that is not up is dropped for the new tunnel.
abbrev pub drop_stale : NetworkManager → String → NetworkManager
drop_stale m id = elim (get m.active_peers id) [
  | none ↦ m
  | some c ↦ if is_connected c then m else drop_peer m id []
]

abbrev pub described : String → Option PeerConfig → NodeInfo → NodeInfo
described id none n = n
described id (some p) n = record n { name = p.name; os = p.os }

abbrev pub mark_online : NetworkManager → String → NetworkManager
mark_online m id = elim (get m.last_known_nodes id) [
  | some n ↦ record m {
    last_known_nodes = insert m.last_known_nodes id (record n { is_online = true });
  }
  | none ↦ elim (get_known_public_key m.known id) [
    | none ↦ m
    | some key ↦ record m {
      last_known_nodes =
          insert m.last_known_nodes id (described id (get m.peers id) (unknown_node id key []));
    }
  ]
]

abbrev pub established : NetworkManager → String → NetworkManager
established m id =
    let m1 = update_nodes (mark_online (drop_stale (local_mesh_state m) id) id) in
    if str_lt m.my_info.id id || is_focused m id
    then perform m1 (queued (auto_connect id) ∷ [])
    else m1

unfoldable pub handle_peer_signal : NetworkManager → LocalMeshSignal → NetworkManager
unfolding parse_signal
handle_peer_signal m signal = if not m.local_discovery_enabled then m else elim signal [
  | inbound_rtc_signal from signal_type sdp mid index ↦
      hand_on m from (parse_signal signal_type sdp mid index)
  | peer_discovered node ↦ discover m node
  | tunnel_established id ↦ established m id
]
