-- ===== src/Network/State.antt =====
-- The state of `NetworkManager` (client-core/src/network/manager.rs) and what its handlers do to the
-- world: each send, callback and spawned task is an `Effect`, appended to the list of those done.
-- Lines of the log are left out. A spawned task that sends after a sleep is `queued_after`. The
-- readings of the clock in one handler are one number, `now`.
use p2p_common.Common.{
  ℕ, ◌-◌, ◌*◌, ◌/◌, String, Bool, true, false, ◌&&◌, ◌||◌, Option, none, some, List, [], ◌∷◌, ◌++◌,
  ◌==◌, ltb, str_eq, if◌then◌else◌, length, keep,
}
use p2p_common.Common.Dict.{Dict, get, insert, remove, values, empty, contains_key}
use p2p_common.Protocol.Types.{Uuid, NodeInfo}
use p2p_common.Protocol.Message.{P2pMessage}
use p2p_common.Registry.{Known, PeerMap, no_known}
use p2p_common.Mesh.Messages.{TunnelSession}
use p2p_common.Limits.{Limits, initial, redial_backoff}
use p2p_common.Network.Types.{
  NetworkMode, web_socket_connecting, PeerBackoff, ConnectionState, new, connecting, connected,
  disconnected, failed, closed, NetCmd, RtcSignalEnvelope, WsMessage, WsState, P2pPeerState,
  P2pFailure, TurnCredentials,
}

-- What the manager reads of a client: the state of its peer connection, as the library gives it, and
-- the remote description that was last accepted.
pub record WebRtcClient : Type 0 where
  pub connection_id : Uuid
  pub created_at : ℕ
  pub connection_state : ConnectionState
  pub remote_description : Option String

pub data Effect : Type 0 where
  queued : NetCmd → Effect
  queued_after : (millis : ℕ) → NetCmd → Effect
  closed_connection : Uuid → Effect
  on_p2p_connecting on_p2p_disconnected : String → Effect
  on_peer_state_changed : String → P2pPeerState → Effect
  on_peer_failed : String → P2pFailure → Effect
  on_update_nodes : List NodeInfo → Effect
  on_ws_state_changed : WsState → Effect
  on_connected on_disconnected : Effect
  -- a spawned `route_rtc_signal`, `connect_to_peer_signaling` and `trigger_cached_peer_reconnections`
  route_signal : RtcSignalEnvelope → Effect
  connect_signaling : (addr peer_id : String) → Effect
  reconnect_cached : Effect
  sent_to_peer : String → P2pMessage → Effect
  sent_to_ws : WsMessage → Effect
  -- an entry of a peer's `active_uploads`
  registered_upload : (peer_id : String) (transfer_id : Uuid) (local_file_path : String) → Effect
  discovery_started : Effect

-- The fields of the source, then the tables of the process that the handlers read: the limits, the
-- known keys, the peer store and the active tunnels.
pub record NetworkManager : Type 0 where
  pub mode : NetworkMode
  pub my_info : NodeInfo
  -- `current_ws_tx.is_some()`
  pub has_ws : Bool
  pub active_peers : Dict WebRtcClient
  pub backoff_states : Dict PeerBackoff
  pub focused_peer : Option String
  pub last_known_nodes : Dict NodeInfo
  pub current_turn_credentials : Option TurnCredentials
  pub current_ws_url : Option String
  pub local_discovery_enabled : Bool
  pub local_discovery_started : Bool
  pub limits : Limits
  pub known : Known
  pub peers : PeerMap
  pub tunnels : Dict TunnelSession
  pub effects : List Effect

abbrev pub new_manager : NodeInfo → NetworkManager
new_manager my_info = record {
  mode = web_socket_connecting;
  my_info = my_info;
  has_ws = false;
  active_peers = empty;
  backoff_states = empty;
  focused_peer = none;
  last_known_nodes = empty;
  current_turn_credentials = none;
  current_ws_url = none;
  local_discovery_enabled = false;
  local_discovery_started = false;
  limits = initial;
  known = no_known;
  peers = empty;
  tunnels = empty;
  effects = [];
}

abbrev pub perform : NetworkManager → List Effect → NetworkManager
perform m es = record m { effects = m.effects ++ es }

-- Whole seconds of a ladder, in milliseconds. The ladders are total (`ladders-total`).
abbrev pub seconds : Option ℕ → ℕ
seconds none = 0
seconds (some n) = n * 1000

unfoldable pub get_cooldown_duration : Limits → ℕ → ℕ
unfolding redial_backoff
get_cooldown_duration l attempt_count = seconds (redial_backoff l.timeouts attempt_count)

abbrev pub is_dialling : ConnectionState → Bool
is_dialling new = true
is_dialling connecting = true
is_dialling _ = false

abbrev pub is_dead : ConnectionState → Bool
is_dead disconnected = true
is_dead failed = true
is_dead closed = true
is_dead _ = false

abbrev pub takes_slot : WebRtcClient → Bool
takes_slot c = elim (c.connection_state) [
  | connected ↦ true
  | new ↦ true
  | connecting ↦ true
  | _ ↦ false
]

abbrev pub taken : Dict WebRtcClient → ℕ
taken active = length (keep takes_slot (values active))

unfoldable pub peer_slot_available : Limits → Dict WebRtcClient → String → Bool
peer_slot_available l active peer_id =
    if (l.max_peers == 0) || contains_key active peer_id
    then true
    else ltb (taken active) l.max_peers

-- `created_at.elapsed().as_secs() > limit`
abbrev pub is_stuck : WebRtcClient → ℕ → ℕ → Bool
is_stuck c now limit = is_dialling c.connection_state && ltb limit ((now - c.created_at) / 1000)

abbrev pub is_focused : NetworkManager → String → Bool
is_focused m id = elim (m.focused_peer) [ none ↦ false | some f ↦ str_eq f id ]

abbrev pub unfocus : NetworkManager → String → NetworkManager
unfocus m id = if is_focused m id then record m { focused_peer = none } else m

-- `entry(id).or_insert_with(..)` of a backoff
abbrev pub backoff_or : Option PeerBackoff → ℕ → Bool → PeerBackoff
backoff_or none now up = record { attempt_count = 0; last_attempt = now; is_connected = up }
backoff_or (some b) now up = b

abbrev pub set_backoff : NetworkManager → String → PeerBackoff → NetworkManager
set_backoff m id b = record m { backoff_states = insert m.backoff_states id b }

-- `active_peers.remove(id)` and what is done with the client that was there
abbrev pub drop_peer : NetworkManager → String → List Effect → NetworkManager
drop_peer m id told = elim (get m.active_peers id) [
  | none ↦ m
  | some c ↦
      perform (record m { active_peers = remove m.active_peers id })
        (closed_connection c.connection_id ∷ told)
]

abbrev pub update_nodes : NetworkManager → NetworkManager
update_nodes m = perform m (on_update_nodes (values m.last_known_nodes) ∷ [])
