-- ===== src/Network/Dial.antt =====
-- client-core/src/network/peer_orchestrator.rs: the commands that open WebRTC sessions, and the
-- signals of a peer. What `WebRtcClient` and the webrtc library answer to one command is an `Rtc`.
pub mod Limit
pub mod Backoff
pub mod Inbound
use p2p_common.Common.{
  ℕ, suc, ◌+◌, ◌-◌, max, String, Bool, true, false, not, ◌&&◌, ◌||◌, Option, none, some, List, [],
  ◌∷◌, ◌++◌, ◌==◌, ltb, str_eq, if◌then◌else◌, map,
}
use p2p_common.Common.Dict.{Dict, get, insert, contains_key}
use p2p_common.Common.Result.{Result, ok, err}
use p2p_common.Limits.{dial_stuck, Limits}
use p2p_common.Mesh.Messages.{addresses_of}
use p2p_common.Network.Types.{
  PeerBackoff, offer, answer, ice_candidate, RtcSignal, InboundRtcSignal, connecting_transport,
  P2pFailure, offer_failed, client_init_failed, disconnect_peer, P2pPeerState, ConnectionState,
}
use p2p_common.Network.State.{
  NetworkManager, WebRtcClient, Effect, queued, on_p2p_connecting, on_peer_state_changed,
  on_peer_failed, route_signal, connect_signaling, perform, backoff_or, set_backoff, drop_peer,
  get_cooldown_duration, peer_slot_available, is_stuck, is_dead,
}

pub record Rtc : Type 0 where
  -- `WebRtcClient::new`
  pub new_client : Result WebRtcClient
  pub create_offer : Result String
  pub accept_offer_and_answer : String → Result String
  pub apply_answer : String → Result (Unit {0})

unfoldable pub stuck_seconds : Limits → ℕ → ℕ
unfolding dial_stuck
stuck_seconds l attempt = elim (dial_stuck l.timeouts attempt) [ none ↦ 0 | some n ↦ n ]

-- The end of `AutoConnect` and of `Call`: the new client is kept once its offer is there.
abbrev pub offered : NetworkManager → String → WebRtcClient → String → NetworkManager
offered m id client sdp =
    record (perform m (route_signal (record { to_node_id = id; signal = offer sdp false }) ∷ [])) {
      active_peers = insert m.active_peers id client;
    }

abbrev pub failed_dial : NetworkManager → String → P2pFailure → NetworkManager
failed_dial m id why =
    perform m (on_peer_failed id why ∷ on_peer_state_changed id P2pPeerState.disconnected ∷ [])

-- `told`: the failure is reported to the handler, as `AutoConnect` does and `Call` does not.
abbrev pub dial : Bool → NetworkManager → Rtc → String → NetworkManager
dial told m rtc id =
    let m1 =
      perform m (on_p2p_connecting id ∷ on_peer_state_changed id connecting_transport ∷ []) in
    elim (rtc.new_client) [
      | err e ↦ if told then failed_dial m1 id (client_init_failed e) else m1
      | ok client ↦ elim (rtc.create_offer) [
        | err e ↦ if told then failed_dial m1 id (offer_failed e) else m1
        | ok sdp ↦ offered m1 id client sdp
      ]
    ]

-- Without a server and without a tunnel, a dial waits for a tunnel: the known addresses are tried.
abbrev pub lacks_signaling : NetworkManager → String → Bool
lacks_signaling m id = not m.has_ws && not (contains_key m.tunnels id)

abbrev pub try_addresses : NetworkManager → String → NetworkManager
try_addresses m id =
    perform m (map (λ addr. connect_signaling addr id) (addresses_of (get m.peers id)))

-- `AutoConnect` for a peer that has a client
abbrev pub auto_active : NetworkManager → ℕ → String → PeerBackoff → WebRtcClient → NetworkManager
auto_active m now id b c =
    if is_stuck c now (stuck_seconds m.limits b.attempt_count) || is_dead c.connection_state
    then perform m (queued (disconnect_peer id) ∷ [])
    else m

-- A backoff that still says that its peer is connected
abbrev pub noticed : PeerBackoff → ℕ → PeerBackoff
noticed b now =
    if b.is_connected
    then record { attempt_count = 1; last_attempt = now; is_connected = false }
    else b

abbrev pub cools_down : NetworkManager → ℕ → PeerBackoff → Bool
cools_down m now b =
    ltb 0 b.attempt_count
    && ltb (now - b.last_attempt) (get_cooldown_duration m.limits b.attempt_count)

abbrev pub attempted : PeerBackoff → ℕ → PeerBackoff
attempted b now = record {
  attempt_count = b.attempt_count + 1;
  last_attempt = now;
  is_connected = false;
}

abbrev pub auto_dial : NetworkManager → ℕ → Rtc → String → PeerBackoff → NetworkManager
auto_dial m now rtc id b =
    if cools_down m now b
    then set_backoff m id b
    else if lacks_signaling m id
    then try_addresses (set_backoff m id b) id
    else dial true (set_backoff m id (attempted b now)) rtc id

abbrev pub auto_inactive : NetworkManager → ℕ → Rtc → String → PeerBackoff → NetworkManager
auto_inactive m now rtc id b =
    if peer_slot_available m.limits m.active_peers id
    then auto_dial m now rtc id (noticed b now)
    else set_backoff m id (record b { attempt_count = max b.attempt_count 1; last_attempt = now })

unfoldable pub auto_connect : NetworkManager → ℕ → Rtc → String → NetworkManager
unfolding stuck_seconds peer_slot_available get_cooldown_duration
auto_connect m now rtc id =
    let b = backoff_or (get m.backoff_states id) now false in
    elim (get m.active_peers id) [
      | some c ↦ auto_active (set_backoff m id b) now id b c
      | none ↦ auto_inactive m now rtc id b
    ]

-- `Call` once no client stands in the way
abbrev pub call_dial : NetworkManager → ℕ → Rtc → String → NetworkManager
call_dial m now rtc id =
    let m1 =
      set_backoff (record m { focused_peer = some id }) id
        (record { attempt_count = 1; last_attempt = now; is_connected = false }) in
    if lacks_signaling m1 id then try_addresses m1 id else dial false m1 rtc id

abbrev pub call_free : NetworkManager → ℕ → Rtc → String → NetworkManager
call_free m now rtc id =
    if peer_slot_available m.limits m.active_peers id then call_dial m now rtc id else m

unfoldable pub call : NetworkManager → ℕ → Rtc → String → NetworkManager
unfolding peer_slot_available
call m now rtc id = elim (get m.active_peers id) [
  | none ↦ call_free m now rtc id
  | some c ↦
      if is_stuck c now 5 || is_dead c.connection_state
      then call_free (drop_peer m id []) now rtc id
      else m
]

abbrev pub describe : WebRtcClient → String → WebRtcClient
describe c sdp = record c { remote_description = some sdp }

abbrev pub route_answer : NetworkManager → String → String → NetworkManager
route_answer m id sdp =
    perform m (route_signal (record { to_node_id = id; signal = answer sdp }) ∷ [])

-- An offer that restarts ICE in a session that is there
abbrev pub restart : NetworkManager → Rtc → String → String → WebRtcClient → NetworkManager
restart m rtc id sdp c = elim (rtc.accept_offer_and_answer sdp) [
  | err e ↦ m
  | ok answer_sdp ↦
      route_answer (record m { active_peers = insert m.active_peers id (describe c sdp) }) id
        answer_sdp
]

abbrev pub is_duplicate : Option WebRtcClient → String → Bool
is_duplicate none sdp = false
is_duplicate (some c) sdp = elim (c.remote_description) [ none ↦ false | some rd ↦ str_eq rd sdp ]

abbrev pub accept : NetworkManager → Rtc → String → String → NetworkManager
accept m rtc id sdp =
    let m1 =
      drop_peer
        (perform m (on_p2p_connecting id ∷ on_peer_state_changed id connecting_transport ∷ [])) id
        [] in
    elim (rtc.new_client) [
      | err e ↦ m1
      | ok client ↦ elim (rtc.accept_offer_and_answer sdp) [
        | err e ↦ m1
        | ok answer_sdp ↦
            let m2 = route_answer m1 id answer_sdp in
            record m2 { active_peers = insert m2.active_peers id (describe client sdp) }
      ]
    ]

abbrev pub inbound_offer : NetworkManager → Rtc → String → String → NetworkManager
inbound_offer m rtc id sdp =
    if is_duplicate (get m.active_peers id) sdp
    then m
    else if peer_slot_available m.limits m.active_peers id
    then accept m rtc id sdp
    else m

abbrev pub inbound_answer : NetworkManager → Rtc → String → String → NetworkManager
inbound_answer m rtc id sdp = elim (get m.active_peers id) [
  | none ↦ m
  | some c ↦ elim (rtc.apply_answer sdp) [
    | err e ↦ m
    | ok u ↦ record m { active_peers = insert m.active_peers id (describe c sdp) }
  ]
]

-- An ICE candidate goes to the library, and the manager's state stays.
unfoldable pub handle_inbound : NetworkManager → Rtc → InboundRtcSignal → NetworkManager
unfolding peer_slot_available
handle_inbound m rtc inbound = elim (inbound.signal) [
  | offer sdp false ↦ inbound_offer m rtc inbound.from_node_id sdp
  | offer sdp true ↦ elim (get m.active_peers inbound.from_node_id) [
    | none ↦ inbound_offer m rtc inbound.from_node_id sdp
    | some c ↦ restart m rtc inbound.from_node_id sdp c
  ]
  | answer sdp ↦ inbound_answer m rtc inbound.from_node_id sdp
  | ice_candidate c mid index ↦ m
]
