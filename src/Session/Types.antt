-- ===== src/Session/Types.antt =====
-- The state of a session (`IncomingP2pContext` of client-core/src/rtc/mod.rs) and what its messages find
-- about them. Where the source polls, the table or flag that each attempt reads is given, since other
-- tasks may change it meanwhile.
use p2p_common.Common.{ℕ, String, Bool, List, [], ◌∷◌, ◌++◌}
use p2p_common.Protocol.Message.{P2pMessage, SecuredP2pEnvelope}
use p2p_common.Registry.{Known}
use p2p_common.Node.{NodeContext, Env}
use p2p_common.Network.Types.{NetCmd, P2pFailure, P2pPeerState}

pub data SessionEvent : Type 0 where
  on_peer_failed : P2pFailure → SessionEvent
  on_peer_state_changed : P2pPeerState → SessionEvent
  on_p2p_connected : SessionEvent
  on_p2p_message : P2pMessage → SessionEvent
  on_p2p_ping_updated : ℕ → SessionEvent
  command : NetCmd → SessionEvent
  -- an envelope that is written to the data channel past the queue
  written : SecuredP2pEnvelope → SessionEvent

pub record Session : Type 0 where
  pub node : NodeContext
  pub target_node_id : String
  pub last_pong : ℕ
  pub known : Known
  -- the data channel is open
  pub is_open : Bool
  pub events : List SessionEvent

pub record World : Type 0 where
  pub env : Env
  pub now : ℕ
  -- the known keys at each attempt to find the peer's, and whether the session is authenticated at
  -- each attempt to see it
  pub known_at : ℕ → Known
  pub authenticated_at : ℕ → Bool
  -- `format!("{}:{}", ip, port)`
  pub address : String → ℕ → String

abbrev pub told : Session → List SessionEvent → Session
told s es = record s { events = s.events ++ es }

abbrev pub fail : Session → P2pFailure → Session
fail s why = told s (on_peer_failed why ∷ on_peer_state_changed P2pPeerState.failed ∷ [])
