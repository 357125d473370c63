-- ===== src/Client/Transport.antt =====
-- The callback of client-core/src/rtc/mod.rs for a change of the transport's state, with the task that it
-- starts when the transport is disconnected: a wait, an ICE restart, a second wait. What the task finds
-- after each wait is an argument.
pub mod Laws
use p2p_common.Common.{
  String, Bool, true, false, Option, none, some, List, [], ◌∷◌, ◌++◌, ◌||◌, str_lt, if◌then◌else◌,
}
use p2p_common.Common.Result.{Result, ok, err}
use p2p_common.Protocol.Types.{Uuid}
use p2p_common.Node.{NodeContext, shutdown}
use p2p_common.Network.Types.{
  NetCmd, disconnect_peer_session, send, rtc_signal, offer, P2pFailure, transport, P2pPeerState,
  ConnectionState, unspecified, new, connecting, connected, disconnected, failed, closed,
}

pub data TransportEvent : Type 0 where
  on_peer_failed : P2pFailure → TransportEvent
  on_peer_state_changed : P2pPeerState → TransportEvent
  command : NetCmd → TransportEvent

pub record Transport : Type 0 where
  pub node : NodeContext
  pub events : List TransportEvent

-- What the library answers, and finds after the two waits. The text is `format!("{s:?}")`.
pub record Recovery : Type 0 where
  pub my_id : String
  pub target : String
  pub connection_id : Uuid
  pub debug : ConnectionState → String
  pub after_grace : ConnectionState
  pub create_offer : Result (Unit {0})
  pub set_local_description : Result (Unit {0})
  pub local_description : Option String
  pub after_window : ConnectionState

abbrev pub tell : Transport → List TransportEvent → Transport
tell t es = record t { events = t.events ++ es }

abbrev pub is_disconnected : ConnectionState → Bool
is_disconnected disconnected = true
is_disconnected _ = false

abbrev pub is_failed : ConnectionState → Bool
is_failed failed = true
is_failed _ = false

abbrev pub is_broken : ConnectionState → Bool
is_broken failed = true
is_broken closed = true
is_broken _ = false

abbrev pub peer_state : ConnectionState → P2pPeerState
peer_state connecting = P2pPeerState.connecting_transport
peer_state connected = P2pPeerState.connecting_transport
peer_state disconnected = P2pPeerState.disconnected
peer_state failed = P2pPeerState.failed
peer_state closed = P2pPeerState.disconnected
peer_state _ = P2pPeerState.disconnected

abbrev pub tear_down : Recovery → Transport → Transport
tear_down r t =
    let told = tell t (command (disconnect_peer_session r.target r.connection_id) ∷ []) in
    record told { node = shutdown t.node }

abbrev pub restart_offer : Recovery → Option String → List TransportEvent
restart_offer r none = []
restart_offer r (some sdp) =
    command (send (rtc_signal (record { to_node_id = r.target; signal = offer sdp true }))) ∷ []

abbrev pub described : Recovery → Result (Unit {0}) → List TransportEvent
described r (err e) = []
described r (ok u) = restart_offer r r.local_description

abbrev pub offered : Recovery → Result (Unit {0}) → List TransportEvent
offered r (err e) = []
offered r (ok u) = described r r.set_local_description

-- The restart is offered by the side with the smaller id.
unfoldable pub ice_restart : Recovery → List TransportEvent
ice_restart r = if str_lt r.my_id r.target then offered r r.create_offer else []

unfoldable pub recover : Recovery → Transport → Transport
unfolding ice_restart
recover r t =
    if is_disconnected r.after_grace
    then (let t1 = tell t (ice_restart r) in
        if is_disconnected r.after_window || is_failed r.after_window then tear_down r t1 else t1)
    else t

abbrev pub report : Recovery → ConnectionState → List TransportEvent
report r s =
    (if is_failed s then on_peer_failed (transport (r.debug s)) ∷ [] else [])
    ++ on_peer_state_changed (peer_state s) ∷ []

-- Every state but `new`, on which the callback returns
abbrev pub on_state : Recovery → Transport → ConnectionState → Transport
on_state r t s =
    let t1 = tell t (report r s) in
    let t2 = if is_broken s then tear_down r t1 else t1 in
    if is_disconnected s then recover r t2 else t2

unfoldable pub on_peer_connection_state_change : Recovery → Transport → ConnectionState → Transport
unfolding recover
on_peer_connection_state_change r t new = t
on_peer_connection_state_change r t s = on_state r t s
