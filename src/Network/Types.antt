-- ===== src/Network/Types.antt =====
-- The data of client-core/src/network: nodeinnet-api/src/rtc.rs for the signals, client-core/src/lib.rs
-- for the commands and events, network/types.rs for the modes. A `PathBuf` is its text.
use p2p_common.Common.{ℕ, String, Bool, Option, List}
use p2p_common.Protocol.Types.{Uuid, NodeInfo, SharedResource, ResourceType}
use p2p_common.Protocol.Message.{P2pMessage}

pub data RtcSignal : Type 0 where
  offer : (sdp : String) (ice_restart : Bool) → RtcSignal
  answer : (sdp : String) → RtcSignal
  ice_candidate :
      (candidate : String) (sdp_mid : Option String) (sdp_mline_index : Option ℕ) → RtcSignal

pub record RtcSignalEnvelope : Type 0 where
  pub to_node_id : String
  pub signal : RtcSignal

pub record InboundRtcSignal : Type 0 where
  pub from_node_id : String
  pub signal : RtcSignal

pub record TurnCredentials : Type 0 where
  pub username : String
  pub credential : String
  pub uris : List String

-- nodeinnet-api/src/ws.rs, less the three messages on devices, which the client does not read
pub data WsMessage : Type 0 where
  ping : WsMessage
  pong : (timestamp : ℕ) → WsMessage
  list_nodes : WsMessage
  rtc_signal : RtcSignalEnvelope → WsMessage
  update_node_info : NodeInfo → WsMessage
  nodes_list : List NodeInfo → WsMessage
  inbound_rtc_signal : InboundRtcSignal → WsMessage

pub data NetCmd : Type 0 where
  connect : String → NodeInfo → Option TurnCredentials → NetCmd
  disconnect : NetCmd
  apply_turn_credentials : Option TurnCredentials → NetCmd
  disconnect_peer : String → NetCmd
  disconnect_peer_session : String → Uuid → NetCmd
  send : WsMessage → NetCmd
  send_p2p : String → NetCmd
  send_p2p_message : P2pMessage → NetCmd
  send_to_peer : String → P2pMessage → NetCmd
  broadcast_p2p_message : ResourceType → P2pMessage → NetCmd
  handle_inbound_signal : InboundRtcSignal → NetCmd
  register_upload : (peer_id : String) (transfer_id : Uuid) (local_file_path : String) → NetCmd
  call : String → NetCmd
  auto_connect : String → NetCmd
  peer_connected : String → List SharedResource → NetCmd
  reload_resources : List SharedResource → NetCmd
  update_name : String → NetCmd
  process_nodes_list : List NodeInfo → NetCmd
  merge_nodes_list : List NodeInfo → NetCmd
  set_local_discovery : Bool → NetCmd

pub data WsState : Type 0 where
  disconnected connecting connected local_mesh local_mesh_error : WsState

pub data P2pPeerState : Type 0 where
  disconnected connecting_transport authenticating connected failed : P2pPeerState

pub data P2pFailure : Type 0 where
  transport : String → P2pFailure
  clock_skew : (ahead_ms : ℕ) → P2pFailure
  bad_signature : String → P2pFailure
  unknown_key : P2pFailure
  missing_hmac bad_hmac no_session_key : (resource : String) → P2pFailure
  unauthenticated : P2pFailure
  offer_failed client_init_failed : String → P2pFailure

pub data NetworkMode : Type 0 where
  web_socket_connecting web_socket_connected local_mesh_fallback : NetworkMode

pub record PeerBackoff : Type 0 where
  pub attempt_count : ℕ
  -- an `Instant`, in milliseconds
  pub last_attempt : ℕ
  pub is_connected : Bool

-- `RTCPeerConnectionState` of the webrtc library
pub data ConnectionState : Type 0 where
  unspecified new connecting connected disconnected failed closed : ConnectionState
