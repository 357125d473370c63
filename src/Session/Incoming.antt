-- ===== src/Session/Incoming.antt =====
-- `handle_incoming_p2p_message` of client-core/src/rtc/mod.rs, built without `feature-rdesk`. The input
-- is the decoded envelope.
use p2p_common.Common.{
  ℕ, zero, suc, ◌+◌, String, Bool, true, false, ◌||◌, Option, none, some, [], ◌∷◌, if◌then◌else◌,
}
use p2p_common.Common.Dict.{get, entries_of}
use p2p_common.Common.Result.{ok, err}
use p2p_common.Crypto.{verify_hmac_sha256}
use p2p_common.Protocol.Message.{
  P2pMessage, SecuredP2pEnvelope, handshake, handshake_response, peers_sync, pong,
}
use p2p_common.Protocol.Access.{resource_id}
use p2p_common.Node.{process_message}
use p2p_common.Network.Types.{missing_hmac, bad_hmac, no_session_key, unauthenticated}
use p2p_common.Session.Types.{Session, World, told, fail, on_p2p_message}
use p2p_common.Session.Core.{handle_core_message}
use p2p_common.Session.Resources.{on_handshake_response, on_peers_sync}

-- The polls for the flag
unfoldable pub becomes_authenticated : (ℕ → Bool) → ℕ → ℕ → Bool
becomes_authenticated at i zero = false
becomes_authenticated at i (suc left) = at i || becomes_authenticated at (i + 1) left

abbrev pub is_handshake : P2pMessage → Bool
is_handshake (handshake _ _ _ _ _ _ _) = true
is_handshake _ = false

unfoldable pub deliver : World → Session → P2pMessage → Session
unfolding handle_core_message
deliver w s msg =
    let s1 = told s (on_p2p_message msg ∷ []) in
    handle_core_message w (record s1 { node = process_message w.env s1.node msg }) msg

-- The firewall in front of the delivery
unfoldable pub gate : World → Session → P2pMessage → Session
unfolding deliver becomes_authenticated
gate w s msg =
    if s.node.is_authenticated || is_handshake msg
    then deliver w s msg
    else if becomes_authenticated w.authenticated_at 0 25
    then (let c = s.node in
        deliver w (record s { node = record c { is_authenticated = true } }) msg)
    else fail s unauthenticated

abbrev pub mac_checked : World → Session → P2pMessage → String → String → Option String → Session
mac_checked w s msg id token none = fail s (missing_hmac id)
mac_checked w s msg id token (some mac) = elim (w.env.to_bson msg) [
  | err e ↦ s
  | ok bytes ↦
      if verify_hmac_sha256 w.env.crypto bytes token mac then gate w s msg else fail s (bad_hmac id)
]

abbrev pub keyed : World → Session → P2pMessage → Option String → String → Option String → Session
keyed w s msg mac id none = fail s (no_session_key id)
keyed w s msg mac id (some token) = mac_checked w s msg id token mac

abbrev pub guarded : World → Session → P2pMessage → Option String → Option String → Session
guarded w s msg mac none = gate w s msg
guarded w s msg mac (some id) = keyed w s msg mac id (get s.node.session_keys id)

unfoldable pub handle_incoming_p2p_message : World → Session → SecuredP2pEnvelope → Session
unfolding gate on_handshake_response on_peers_sync
handle_incoming_p2p_message w s envelope = elim (envelope.message) [
  | handshake_response resources ↦ on_handshake_response w s resources
  | peers_sync nodes addresses ↦ on_peers_sync s nodes (entries_of addresses)
  | pong t ↦ record s { last_pong = t }
  | _ ↦ guarded w s envelope.message envelope.mac (resource_id envelope.message)
]
