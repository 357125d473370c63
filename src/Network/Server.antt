-- ===== src/Network/Server.antt =====
-- client-core/src/network/ws_client.rs: the connection with the server, and the list of nodes that it
-- sends. What the socket does after the connection is not modelled: its reader queues commands.
pub mod Laws
use p2p_common.Common.{
  ℕ, ◌*◌, String, Bool, true, false, not, ◌&&◌, ◌||◌, Option, none, some, List, [], ◌∷◌, ◌++◌,
  str_eq, str_lt, if◌then◌else◌, map, keep, any, length,
}
use p2p_common.Common.Dict.{Dict, get, keys, values, insert, empty, retain, contains_key}
use p2p_common.Protocol.Types.{NodeInfo, SharedResource, announced}
use p2p_common.Registry.{PeerConfig, PeerMap, update_entry, update_known_public_keys}
use p2p_common.Network.Types.{
  NetworkMode, web_socket_connecting, web_socket_connected, local_mesh_fallback, TurnCredentials,
  WsState, connect, disconnect_peer, call, auto_connect, update_node_info, list_nodes,
}
use p2p_common.Network.State.{
  NetworkManager, WebRtcClient, Effect, queued, queued_after, on_ws_state_changed, on_connected,
  on_disconnected, reconnect_cached, sent_to_ws, closed_connection, perform, unfocus, drop_peer,
  update_nodes,
}
use p2p_common.Network.Peers.{lose, reset_backoff}

unfoldable pub transition_to_local_mesh_fallback : NetworkManager → NetworkManager
transition_to_local_mesh_fallback m =
    perform (record m { has_ws = false; focused_peer = none; mode = local_mesh_fallback })
      (on_ws_state_changed WsState.disconnected ∷ on_disconnected ∷ reconnect_cached ∷ [])

-- `Connect`; `reached`: the server answered before the timeout.
unfoldable pub connect_to :
    NetworkManager → Bool → String → NodeInfo → Option TurnCredentials → NetworkManager
unfolding transition_to_local_mesh_fallback
connect_to m reached url new_my_info turn =
    let m1 =
      perform
        (record m {
          my_info = new_my_info;
          current_turn_credentials = turn;
          current_ws_url = some url;
          mode = web_socket_connecting;
          has_ws = false;
        })
        (on_ws_state_changed WsState.connecting ∷ []) in
    if reached
    then perform (record m1 { has_ws = true; mode = web_socket_connected })
        (on_ws_state_changed WsState.connected
          ∷ on_connected
          ∷ sent_to_ws (update_node_info (announced new_my_info))
          ∷ sent_to_ws list_nodes
          ∷ [])
    else transition_to_local_mesh_fallback m1

unfoldable pub apply_turn_credentials : NetworkManager → Option TurnCredentials → NetworkManager
apply_turn_credentials m turn =
    perform (record m { current_turn_credentials = turn })
      (map (λ id. queued (disconnect_peer id)) (keys m.active_peers))

abbrev pub announce : NetworkManager → NetworkManager
announce m =
    if m.has_ws then perform m (sent_to_ws (update_node_info (announced m.my_info)) ∷ []) else m

unfoldable pub reload_resources : NetworkManager → List SharedResource → NetworkManager
reload_resources m resources =
    let info = m.my_info in
    let m1 = announce (record m { my_info = record info { resources = resources } }) in
    perform (record m1 { active_peers = empty; focused_peer = none })
      (map (λ (c : WebRtcClient). closed_connection c.connection_id) (values m1.active_peers))

abbrev pub reconnect : NetworkManager → Option String → NetworkManager
reconnect m none = m
reconnect m (some url) = perform m (queued (connect url m.my_info m.current_turn_credentials) ∷ [])

unfoldable pub update_name : NetworkManager → String → NetworkManager
update_name m name =
    let info = m.my_info in
    reconnect (record m { my_info = record info { name = name } }) m.current_ws_url

-- The update of the peer store: nodes that the server does not list go, as do temporary ones.
abbrev pub is_listed : List NodeInfo → String → Bool
is_listed nodes id = any (λ (n : NodeInfo). str_eq n.id id) nodes

abbrev pub is_stored : List NodeInfo → String → Bool
is_stored nodes id = any (λ (n : NodeInfo). not n.is_temporary && str_eq n.id id) nodes

unfoldable pub store_nodes : PeerMap → List NodeInfo → PeerMap
store_nodes peers [] = peers
store_nodes peers (n ∷ nodes) =
    store_nodes
      (if n.is_temporary
        then peers
        else update_entry peers n.id
            (λ c. record c { public_key = n.public_key; name = n.name; os = n.os }))
      nodes

abbrev pub keep_stored : List NodeInfo → String → PeerConfig → Option PeerConfig
keep_stored nodes id p = if is_stored nodes id then some p else none

unfoldable pub sync_store : PeerMap → List NodeInfo → PeerMap
unfolding store_nodes
sync_store peers nodes = store_nodes (retain (keep_stored nodes) peers) nodes

-- The loop over the sessions: those of nodes that the server does not list are closed.
abbrev pub close_unlisted : NetworkManager → ℕ → List NodeInfo → String → NetworkManager
close_unlisted m now nodes id =
    if is_listed nodes id then m else lose (unfocus (drop_peer m id []) id) now id

unfoldable pub close_all_unlisted :
    NetworkManager → ℕ → List NodeInfo → List String → NetworkManager
close_all_unlisted m now nodes [] = m
close_all_unlisted m now nodes (id ∷ ids) =
    close_all_unlisted (close_unlisted m now nodes id) now nodes ids

-- The nodes that the client dials, and the place of one in their order by id
abbrev pub is_dial_target : String → NodeInfo → Bool
is_dial_target my_id n = not (str_eq n.app_type "web") && str_lt my_id n.id && n.is_online

abbrev pub position : List NodeInfo → String → ℕ
position targets id = length (keep (λ (t : NodeInfo). str_lt t.id id) targets)

-- One node of the list. `same_json` says whether serde_json gives the same text for two lists of
-- resources: a session of a node whose resources differ is closed and called anew.
abbrev pub refresh :
    (List SharedResource → List SharedResource → Bool)
    → NetworkManager
    → NodeInfo
    → NodeInfo
    → NetworkManager
refresh same_json m node old =
    let m1 = record m {
      backoff_states = reset_backoff (not old.is_online && node.is_online) m.backoff_states node.id;
    } in
    if not (same_json old.resources node.resources) && contains_key m.active_peers node.id
    then perform (unfocus (drop_peer m1 node.id []) node.id) (queued_after 500 (call node.id) ∷ [])
    else m1

abbrev pub refreshed :
    (List SharedResource → List SharedResource → Bool) → NetworkManager → NodeInfo → NetworkManager
refreshed same_json m node = elim (get m.last_known_nodes node.id) [
  | none ↦ m
  | some old ↦ refresh same_json m node old
]

abbrev pub dial_later : NetworkManager → List NodeInfo → NodeInfo → NetworkManager
dial_later m targets node =
    if is_dial_target m.my_info.id node
    then perform m (queued_after (position targets node.id * 300) (auto_connect node.id) ∷ [])
    else m

abbrev pub know : NetworkManager → NodeInfo → NetworkManager
know m node = record m { last_known_nodes = insert m.last_known_nodes node.id node }

-- A node that the server does not list stays if there is a tunnel to it, and is online then. The
-- source asks with `try_lock`: the lock of the tunnels is taken to be free.
abbrev pub keep_listed : NetworkManager → List NodeInfo → String → NodeInfo → Option NodeInfo
keep_listed m nodes id node =
    if is_listed nodes id
    then some node
    else if contains_key m.tunnels id
    then some (record node { is_online = true })
    else none

abbrev pub forget_unlisted : NetworkManager → List NodeInfo → NetworkManager
forget_unlisted m nodes = record m {
  last_known_nodes = retain (keep_listed m nodes) m.last_known_nodes;
}

module _ (same_json : List SharedResource → List SharedResource → Bool) where
  unfoldable pub process_nodes : NetworkManager → List NodeInfo → List NodeInfo → NetworkManager
  unfolding reset_backoff
  process_nodes m targets [] = m
  process_nodes m targets (node ∷ nodes) =
      process_nodes (know (dial_later (refreshed same_json m node) targets node) node) targets nodes

  unfoldable pub process_nodes_list : NetworkManager → ℕ → List NodeInfo → NetworkManager
  unfolding process_nodes sync_store close_all_unlisted
  process_nodes_list m now nodes =
      let m1 = record m {
        known = update_known_public_keys m.known nodes;
        peers = sync_store m.peers nodes;
      } in
      let m2 = close_all_unlisted m1 now nodes (keys m1.active_peers) in
      update_nodes
        (forget_unlisted (process_nodes m2 (keep (is_dial_target m2.my_info.id) nodes) nodes) nodes)
