-- ===== src/Network/Commands.antt =====
-- The dispatch of commands: `handle_net_cmd` of client-core/src/network/manager.rs, and
-- client-core/src/network/p2p_transfer.rs for the commands that send to peers.
pub mod Limit
use p2p_common.Common.{
  ℕ, String, Bool, true, false, Option, none, some, List, [], ◌∷◌, ◌++◌, if◌then◌else◌,
}
use p2p_common.Common.Dict.{get, keys}
use p2p_common.Protocol.Types.{ResourceType, SharedResource}
use p2p_common.Protocol.Message.{P2pMessage, text_message}
use p2p_common.Protocol.Access.{set_resource_id}
use p2p_common.Network.Types.{NetCmd, WsMessage}
use p2p_common.Network.State.{
  NetworkManager, Effect, route_signal, sent_to_ws, sent_to_peer, registered_upload,
  discovery_started, perform,
}
use p2p_common.Network.Peers.{
  disconnect_peer, disconnect_peer_session, peer_connected, merge_nodes_list,
}
use p2p_common.Network.Dial.{Rtc, auto_connect, call, handle_inbound}
use p2p_common.Network.Server.{
  connect_to, transition_to_local_mesh_fallback, apply_turn_credentials, reload_resources,
  update_name, process_nodes_list,
}

-- What the world answers to one command
pub record Env : Type 0 where
  pub now : ℕ
  pub rtc : Rtc
  -- the server answered before the timeout
  pub reached : Bool
  pub same_json : List SharedResource → List SharedResource → Bool
  -- `get_remote_resource_id` of the client of a peer
  pub remote_resource : String → ResourceType → Option String

abbrev pub send_ws : NetworkManager → WsMessage → NetworkManager
send_ws m (WsMessage.rtc_signal e) = perform m (route_signal e ∷ [])
send_ws m msg = if m.has_ws then perform m (sent_to_ws msg ∷ []) else m

-- A message for a peer that has a session
abbrev pub send_to_peer : NetworkManager → String → P2pMessage → NetworkManager
send_to_peer m id msg = elim (get m.active_peers id) [
  | none ↦ m
  | some c ↦ perform m (sent_to_peer id msg ∷ [])
]

abbrev pub send_to_focused : NetworkManager → P2pMessage → NetworkManager
send_to_focused m msg = elim (m.focused_peer) [ none ↦ m | some id ↦ send_to_peer m id msg ]

abbrev pub specialized : P2pMessage → String → Option String → List Effect
specialized template id none = []
specialized template id (some target) = sent_to_peer id (set_resource_id template target) ∷ []

unfoldable pub broadcast : (String → Option String) → P2pMessage → List String → List Effect
unfolding set_resource_id
broadcast remote template [] = []
broadcast remote template (id ∷ ids) =
    specialized template id (remote id) ++ broadcast remote template ids

abbrev pub register_upload : NetworkManager → String → ℕ → String → NetworkManager
register_upload m id transfer path = elim (get m.active_peers id) [
  | none ↦ m
  | some c ↦ perform m (registered_upload id transfer path ∷ [])
]

abbrev pub start_local_discovery : NetworkManager → NetworkManager
start_local_discovery m =
    if m.local_discovery_started
    then m
    else perform (record m { local_discovery_started = true; local_discovery_enabled = true })
        (discovery_started ∷ [])

abbrev pub set_local_discovery : NetworkManager → Bool → NetworkManager
set_local_discovery m enabled =
    let m1 = record m { local_discovery_enabled = enabled } in
    if enabled then start_local_discovery m1 else m1

unfoldable pub handle_net_cmd : Env → NetworkManager → NetCmd → NetworkManager
unfolding disconnect_peer disconnect_peer_session peer_connected merge_nodes_list auto_connect call
    handle_inbound connect_to transition_to_local_mesh_fallback apply_turn_credentials
    reload_resources update_name process_nodes_list broadcast
handle_net_cmd w m (NetCmd.connect url info turn) = connect_to m w.reached url info turn
handle_net_cmd w m NetCmd.disconnect = transition_to_local_mesh_fallback m
handle_net_cmd w m (NetCmd.apply_turn_credentials turn) = apply_turn_credentials m turn
handle_net_cmd w m (NetCmd.disconnect_peer id) = disconnect_peer m w.now id
handle_net_cmd w m (NetCmd.disconnect_peer_session id conn) =
    disconnect_peer_session m w.now id conn
handle_net_cmd w m (NetCmd.send msg) = send_ws m msg
handle_net_cmd w m (NetCmd.send_p2p text) = send_to_focused m (text_message text)
handle_net_cmd w m (NetCmd.send_p2p_message msg) = send_to_focused m msg
handle_net_cmd w m (NetCmd.send_to_peer id msg) = send_to_peer m id msg
handle_net_cmd w m (NetCmd.broadcast_p2p_message target template) =
    perform m (broadcast (λ id. w.remote_resource id target) template (keys m.active_peers))
handle_net_cmd w m (NetCmd.handle_inbound_signal inbound) = handle_inbound m w.rtc inbound
handle_net_cmd w m (NetCmd.register_upload id transfer path) = register_upload m id transfer path
handle_net_cmd w m (NetCmd.call id) = call m w.now w.rtc id
handle_net_cmd w m (NetCmd.auto_connect id) = auto_connect m w.now w.rtc id
handle_net_cmd w m (NetCmd.peer_connected id resources) = peer_connected m w.now id resources
handle_net_cmd w m (NetCmd.reload_resources resources) = reload_resources m resources
handle_net_cmd w m (NetCmd.update_name name) = update_name m name
handle_net_cmd w m (NetCmd.process_nodes_list nodes) = process_nodes_list w.same_json m w.now nodes
handle_net_cmd w m (NetCmd.merge_nodes_list nodes) = merge_nodes_list m nodes
handle_net_cmd w m (NetCmd.set_local_discovery enabled) = set_local_discovery m enabled
