-- ===== src/Network/Peers.antt =====
-- client-core/src/network/peer_orchestrator.rs: the tick, the ends and the beginnings of sessions,
-- and the merge of a list of nodes.
pub mod Laws
pub mod Tick
use p2p_common.Common.{
  ℕ, ◌-◌, String, Bool, true, false, not, ◌&&◌, ◌||◌, Option, none, some, List, [], ◌∷◌, ◌++◌, ◌==◌,
  leb, str_eq, str_lt, if◌then◌else◌, map, keep,
}
use p2p_common.Common.Dict.{Dict, get, insert, values, contains_key, map_values}
use p2p_common.Common.Int.{pos}
use p2p_common.Protocol.Types.{Uuid, NodeInfo, SharedResource}
use p2p_common.Protocol.Message.{peers_sync}
use p2p_common.Registry.{get_known_public_key, PeerConfig}
use p2p_common.Network.Types.{
  NetworkMode, web_socket_connecting, web_socket_connected, local_mesh_fallback, PeerBackoff,
  auto_connect,
}
use p2p_common.Network.State.{
  NetworkManager, WebRtcClient, Effect, queued, on_p2p_disconnected, sent_to_peer, perform,
  is_focused, unfocus, backoff_or, set_backoff, drop_peer, update_nodes, get_cooldown_duration,
}

-- `should_retry` of the tick
unfoldable pub should_retry : NetworkManager → ℕ → String → Bool
unfolding get_cooldown_duration
should_retry m now id = elim (get m.backoff_states id) [
  | none ↦ true
  | some b ↦ leb (get_cooldown_duration m.limits b.attempt_count) (now - b.last_attempt)
]

-- The filter of the tick; `check_online` is true with a server, which says who is online.
abbrev pub is_target : Bool → NetworkManager → NodeInfo → Bool
is_target check_online m node =
    not (str_eq node.app_type "web")
    && (str_lt m.my_info.id node.id || is_focused m node.id)
    && (not check_online || node.is_online)
    && not (contains_key m.active_peers node.id)

abbrev pub redial : Bool → NetworkManager → ℕ → NetworkManager
redial check_online m now = perform m (
    map (λ id. queued (auto_connect id))
      (keep (should_retry m now) (
        map (λ (node : NodeInfo). node.id)
          (keep (is_target check_online m) (values m.last_known_nodes)))))

unfoldable pub handle_tick : NetworkManager → ℕ → NetworkManager
unfolding should_retry
handle_tick m now = elim (m.mode) [
  | web_socket_connected ↦ redial true m now
  | local_mesh_fallback ↦ redial false m now
  | web_socket_connecting ↦ m
]

-- What a backoff becomes when its peer is gone
abbrev pub after_loss : PeerBackoff → ℕ → PeerBackoff
after_loss b now =
    if b.is_connected
    then record { attempt_count = 1; last_attempt = now; is_connected = false }
    else record b { last_attempt = now }

abbrev pub lose : NetworkManager → ℕ → String → NetworkManager
lose m now id = set_backoff m id (after_loss (backoff_or (get m.backoff_states id) now false) now)

unfoldable pub disconnect_peer : NetworkManager → ℕ → String → NetworkManager
disconnect_peer m now id = lose (unfocus (drop_peer m id (on_p2p_disconnected id ∷ [])) id) now id

abbrev pub is_session : Option WebRtcClient → Uuid → Bool
is_session none conn = false
is_session (some c) conn = c.connection_id == conn

unfoldable pub disconnect_peer_session : NetworkManager → ℕ → String → Uuid → NetworkManager
disconnect_peer_session m now id conn =
    if is_session (get m.active_peers id) conn
    then lose (unfocus (drop_peer m id (on_p2p_disconnected id ∷ [])) id) now id
    else m

abbrev pub key_or_empty : Option String → String
key_or_empty none = ""
key_or_empty (some key) = key

abbrev pub unknown_node : String → String → List SharedResource → NodeInfo
unknown_node id key resources = record {
  id = id;
  name = id;
  os = "unknown";
  version = "0.1.0";
  app_type = "desktop";
  build_type = "debug";
  public_key = key;
  resources = resources;
  is_online = true;
  last_used = pos 0;
  is_temporary = false;
}

abbrev pub seen : NetworkManager → String → List SharedResource → NodeInfo
seen m id resources = elim (get m.last_known_nodes id) [
  | none ↦ unknown_node id (key_or_empty (get_known_public_key m.known id)) resources
  | some node ↦ record node { resources = resources; is_online = true }
]

abbrev pub sync : NetworkManager → String → NetworkManager
sync m id = elim (get m.active_peers id) [
  | none ↦ m
  | some c ↦ perform m (
      sent_to_peer id (
        peers_sync (values m.last_known_nodes)
          (map_values (λ (p : PeerConfig). p.last_known_addresses) m.peers))
      ∷ [])
]

unfoldable pub peer_connected : NetworkManager → ℕ → String → List SharedResource → NetworkManager
peer_connected m now id resources =
    let b = backoff_or (get m.backoff_states id) now true in
    sync
      (update_nodes (record m {
        backoff_states =
            insert m.backoff_states id (record b { is_connected = true; attempt_count = 0 });
        last_known_nodes = insert m.last_known_nodes id (seen m id resources);
      }))
      id

-- `backoff_states.get_mut(id)`: the backoff starts again, if the test holds.
unfoldable pub reset_backoff : Bool → Dict PeerBackoff → String → Dict PeerBackoff
reset_backoff false states id = states
reset_backoff true states id = elim (get states id) [
  | none ↦ states
  | some b ↦ insert states id (record b { attempt_count = 0; is_connected = false })
]

abbrev pub merged_resources : List SharedResource → List SharedResource → List SharedResource
merged_resources old [] = old
merged_resources old (r ∷ resources) = r ∷ resources

abbrev pub merged : NodeInfo → NodeInfo → NodeInfo
merged old node = record old {
  is_online = node.is_online || old.is_online;
  resources = merged_resources old.resources node.resources;
  os = if str_eq old.os "unknown" && not (str_eq node.os "unknown") then node.os else old.os;
  name = if str_eq old.name old.id && not (str_eq node.name node.id) then node.name else old.name;
}

unfoldable pub merge_node : NetworkManager → NodeInfo → NetworkManager
unfolding reset_backoff
merge_node m node =
    if str_eq node.id m.my_info.id then m else elim (get m.last_known_nodes node.id) [
      | none ↦ record m {
        backoff_states = reset_backoff node.is_online m.backoff_states node.id;
        last_known_nodes = insert m.last_known_nodes node.id node;
      }
      | some old ↦ record m {
        backoff_states =
            reset_backoff (node.is_online && not old.is_online) m.backoff_states node.id;
        last_known_nodes = insert m.last_known_nodes node.id (merged old node);
      }
    ]

unfoldable pub merge_all : NetworkManager → List NodeInfo → NetworkManager
unfolding merge_node
merge_all m [] = m
merge_all m (node ∷ nodes) = merge_all (merge_node m node) nodes

unfoldable pub merge_nodes_list : NetworkManager → List NodeInfo → NetworkManager
unfolding merge_all
merge_nodes_list m nodes = update_nodes (merge_all m nodes)
