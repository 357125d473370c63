-- ===== src/Network/Route/Laws.antt =====
-- Signals from one client to another through a tunnel.
use p2p_common.Common.{
  ℕ, ◌≡◌, ◌⊎◌, refl, String, Bool, true, false, Option, none, some, List, ◌++◌, ap, ◌∙◌, [], ◌∷◌,
  str_eq_refl, arith,
}
use Prim.Native.Nat.add
use p2p_common.Mesh.Messages.{
  Mesh, handle_tunnel_message, LocalMeshSignal, inbound_rtc_signal, emit, signalled,
}
use p2p_common.Network.Types.{
  RtcSignal, offer, answer, ice_candidate, RtcSignalEnvelope, handle_inbound_signal,
}
use p2p_common.Network.State.{NetworkManager, queued, perform}
use p2p_common.Network.Route.{
  tunnel_message, parse_signal, handle_peer_signal, route_rtc_signal, over_tunnel, over_ws,
}

-- A signal as it comes out of a tunnel: the message has no place for the restart of ICE.
abbrev pub without_restart : RtcSignal → RtcSignal
without_restart (offer sdp ice_restart) = offer sdp false
without_restart (answer sdp) = answer sdp
without_restart (ice_candidate candidate mid index) = ice_candidate candidate mid index

-- A signal that is routed over a tunnel arrives, where the receiving process has a channel of signals, and
-- its manager has local discovery on: the tunnel puts one message behind the signals that were sent, and
-- changes nothing else, and from that message the manager queues the command that handles the signal, from
-- the node at the other end of the tunnel. The signal is the one that was sent, but an offer has
-- lost the mark that it restarts ICE.
pub tunnel_message-arrives :
    (mesh : Mesh) (m : NetworkManager) (e : RtcSignalEnvelope) (from : String)
    (sent : List LocalMeshSignal)
    → mesh.signals ≡ some sent
    → m.local_discovery_enabled ≡ true
    → (s : LocalMeshSignal) × (handle_tunnel_message mesh (tunnel_message e) from e.to_node_id
        ≡ record mesh { signals = some (sent ++ s ∷ []) })
      × (handle_peer_signal m s
          ≡ perform m (
              queued (
                handle_inbound_signal
                  (record { from_node_id = from; signal = without_restart e.signal }))
              ∷ []))
unfolding handle_tunnel_message handle_peer_signal parse_signal
tunnel_message-arrives mesh m e from sent channel on =
    let (s, put, done) = go e.signal in
    (s, put ∙ ap (λ g. record mesh { signals = signalled s g }) channel, done)
  where
    go :
        (s : RtcSignal)
        → (x : _) × (handle_tunnel_message mesh
              (tunnel_message (record { to_node_id = e.to_node_id; signal = s }))
              from
              e.to_node_id
            ≡ emit mesh x)
          × (handle_peer_signal m x
              ≡ perform m (
                  queued (
                    handle_inbound_signal
                      (record { from_node_id = from; signal = without_restart s }))
                  ∷ []))
    go (offer sdp restart) = (
      inbound_rtc_signal from "offer" sdp none none,
      rw (str_eq_refl e.to_node_id) refl,
      rw on refl,
    )
    go (answer sdp) = (
      inbound_rtc_signal from "answer" sdp none none,
      rw (str_eq_refl e.to_node_id) refl,
      rw on refl,
    )
    go (ice_candidate c mid index) = (
      inbound_rtc_signal from "candidate" c mid index,
      rw (str_eq_refl e.to_node_id) refl,
      rw on refl,
    )

-- With a server a signal is always sent, over the tunnel or over the server.
pub route_rtc_signal-connected :
    (e : RtcSignalEnvelope) (seen : ℕ → Option Bool)
    → (route_rtc_signal e seen true ≡ over_tunnel (tunnel_message e))
      ⊎ (route_rtc_signal e seen true ≡ over_ws e)
unfolding route_rtc_signal
route_rtc_signal-connected e seen = ground arith
