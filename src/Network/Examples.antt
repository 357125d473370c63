-- ===== src/Network/Examples.antt =====
-- The theorems on the network manager at a manager with two sessions.
use p2p_common.Common.{
  ℕ, ◌≡◌, refl, zero, suc, String, Bool, true, false, Option, none, some, List, [], ◌∷◌, map, inl,
  arith, All,
}
use p2p_common.Common.Dict.{get, insert, remove, empty, values}
use p2p_common.Common.Result.{ok, err}
use p2p_common.Protocol.Types.{NodeInfo}
use p2p_common.Registry.{no_known, PeerMap, PeerConfig}
use p2p_common.Limits.{Limits, initial, redial_backoff}
use p2p_common.Mesh.Messages.{Mesh, LocalMeshSignal, tunnel_established, handle_tunnel_message}
use p2p_common.Network.Types.{
  ConnectionState, connected, new, failed, offer, RtcSignalEnvelope, NetCmd, web_socket_connected,
  handle_inbound_signal,
}
use p2p_common.Network.State.{
  NetworkManager, connect_signaling, WebRtcClient, new_manager, taken, queued, perform, set_backoff,
  peer_slot_available, get_cooldown_duration,
}
use p2p_common.Network.Peers.{unknown_node, handle_tick, merge_nodes_list}
use p2p_common.Network.Peers.Laws.{Keeps, merge_nodes_list-Keeps}
use p2p_common.Network.Peers.Tick.{Due, OfDueNode, has, handle_tick-Due}
use p2p_common.Network.Dial.{Rtc, auto_connect, handle_inbound}
use p2p_common.Network.Dial.Backoff.{auto_connect-retries}
use p2p_common.Network.Dial.Inbound.{offer-over_limit}
use p2p_common.Network.Route.{tunnel_message, handle_peer_signal}
use p2p_common.Network.Route.Laws.{tunnel_message-arrives}
use p2p_common.Network.Server.{process_nodes_list}
use p2p_common.Network.Server.Laws.{process_nodes_list-closes}
use p2p_common.Network.Commands.{Env}
use p2p_common.Network.Run.{
  ManagerEvent, commanded, ticked, signalled, mesh_ended, ended, trigger_cached_peer_reconnections,
  state_changed,
}

abbrev session : ℕ → ConnectionState → WebRtcClient
session id state = record {
  connection_id = id;
  created_at = 0;
  connection_state = state;
  remote_description = none;
}

-- One peer at most: "b" is up, and the session of "c" has failed.
abbrev manager : NetworkManager
manager = record (new_manager (unknown_node "a" "key" [])) {
  mode = web_socket_connected;
  has_ws = true;
  limits = record initial { max_peers = 1 };
  active_peers = insert (insert empty "b" (session 1 connected)) "c" (session 2 failed);
  last_known_nodes = insert empty "b" (unknown_node "b" "kb" []);
  local_discovery_enabled = true;
}

abbrev idle : NetworkManager
idle = record manager {
  active_peers = empty;
  backoff_states =
      insert empty "b" (record { attempt_count = 1; last_attempt = 0; is_connected = false });
}

abbrev rtc : Rtc
rtc = record {
  new_client = ok (session 3 new);
  create_offer = ok "offer";
  accept_offer_and_answer = λ sdp. ok "answer";
  apply_answer = λ sdp. ok tt;
}

abbrev broken : Rtc
broken = record rtc { new_client = err "no sockets" }

abbrev world : Env
world = record {
  now = 100;
  rtc = rtc;
  reached = true;
  same_json = λ a b. true;
  remote_resource = λ id t. none;
}

abbrev one_peer : Limits
one_peer = record initial { max_peers = 1 }

abbrev known_peer : PeerConfig
known_peer = record {
  name = "B";
  public_key = "kb";
  os = "linux";
  last_known_addresses = "10.0.0.1:1" ∷ "10.0.0.2:1" ∷ [];
}

abbrev stored : PeerMap
stored = insert empty "b" known_peer

-- The dial of a stored peer, whose session is lost, a tick, a tunnel of that peer, and the end
abbrev events : List ManagerEvent
events =
    commanded world one_peer (NetCmd.call "b")
    ∷ state_changed "b" failed
    ∷ ticked 200 one_peer
    ∷ signalled (tunnel_established "b")
    ∷ mesh_ended
    ∷ ended
    ∷ []

dials :
    trigger_cached_peer_reconnections "a" empty (("a", known_peer) ∷ ("b", known_peer) ∷ [])
    ≡ connect_signaling "10.0.0.1:1" "b" ∷ connect_signaling "10.0.0.2:1" "b" ∷ []
unfolding trigger_cached_peer_reconnections get empty
dials = refl

handle_tick-Due_example :
    (ids : List String) × (handle_tick manager 100
      ≡ perform manager (map (λ id. queued (NetCmd.auto_connect id)) ids))
    × All (OfDueNode manager 100 (values manager.last_known_nodes)) ids
    × All (λ node. Due manager 100 node → has ids node.id ≡ true) (values manager.last_known_nodes)
handle_tick-Due_example = handle_tick-Due manager 100 (λ e. cc e)

abbrev stranger : NodeInfo
stranger = record (unknown_node "b" "other" []) { is_online = false; app_type = "web" }

merge_nodes_list-Keeps_example :
    Keeps
      (unknown_node "b" "kb" [])
      (get (merge_nodes_list manager (stranger ∷ [])).last_known_nodes "b")
unfolding get insert empty
merge_nodes_list-Keeps_example =
    merge_nodes_list-Keeps manager (stranger ∷ []) "b" (unknown_node "b" "kb" []) refl

auto_connect-retries_example :
    let m1 = auto_connect idle 6000 broken "b" in
    (get m1.backoff_states "b"
      ≡ some (record { attempt_count = 2; last_attempt = 6000; is_connected = false }))
    × (auto_connect m1 15000 rtc "b"
        ≡ set_backoff m1 "b"
            (record { attempt_count = 2; last_attempt = 6000; is_connected = false }))
unfolding get insert empty peer_slot_available get_cooldown_duration redial_backoff values
auto_connect-retries_example =
    auto_connect-retries idle 6000 15000 broken rtc "b" refl refl refl refl
      (inl ("no sockets", refl)) (omega arith)

offer-over_limit_example :
    taken
      (handle_inbound manager rtc
        (record { from_node_id = "c"; signal = offer "sdp" false })).active_peers
    ≡ 2
unfolding get insert empty remove values
offer-over_limit_example =
    offer-over_limit manager rtc "c" "sdp" "answer" (session 2 failed) (session 3 new) refl refl
      refl refl refl refl

abbrev envelope : RtcSignalEnvelope
envelope = record { to_node_id = "b"; signal = offer "sdp" true }

abbrev mesh : Mesh
mesh = record { tunnels = empty; known = no_known; peers = empty; signals = some [] }

tunnel_message-arrives_example :
    (s : LocalMeshSignal) × (handle_tunnel_message mesh (tunnel_message envelope) "a" "b"
      ≡ record mesh { signals = some (s ∷ []) })
    × (handle_peer_signal manager s
        ≡ perform manager (
            queued
              (handle_inbound_signal (record { from_node_id = "a"; signal = offer "sdp" false }))
            ∷ []))
tunnel_message-arrives_example = tunnel_message-arrives mesh manager envelope "a" [] refl refl

-- The tunnel is there at the second attempt.
abbrev second : ℕ → Option Bool
second zero = none
second (suc zero) = none
second (suc (suc n)) = some true

process_nodes_list-closes_example :
    get
      (process_nodes_list (λ a b. true) manager 100 (unknown_node "c" "kc" [] ∷ [])).active_peers
      "b"
    ≡ none
process_nodes_list-closes_example =
    process_nodes_list-closes (λ a b. true) manager 100 (unknown_node "c" "kc" [] ∷ []) "b" refl
