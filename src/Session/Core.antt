-- ===== src/Session/Core.antt =====
-- `handle_core_message` of client-core/src/rtc/core.rs.
use p2p_common.Common.{
  ℕ, zero, suc, ◌+◌, ◌-◌, ◌%◌, ◌^◌, String, Bool, true, false, ◌&&◌, Option, none, some, [], ◌∷◌,
  if◌then◌else◌, ltb, map,
}
use p2p_common.Common.Result.{ok, err}
use p2p_common.Crypto.{verify_p2p_handshake}
use p2p_common.Protocol.Message.{P2pMessage, handshake, goodbye, ping, pong}
use p2p_common.Registry.{Known, update_entry, get_known_public_key}
use p2p_common.Node.{NodeContext, process_message, shutdown}
use p2p_common.Network.Types.{P2pFailure, clock_skew, bad_signature, unknown_key}
use p2p_common.Session.Types.{
  Session, World, told, fail, on_p2p_ping_updated, written, on_p2p_connected,
}

-- The handshake is refused, and the channel closed.
abbrev pub refuse : Session → P2pFailure → Session
refuse s why = record (fail s why) { is_open = false }

-- The polls for the public key; one unit of fuel for each.
unfoldable pub find_key : (ℕ → Known) → String → ℕ → ℕ → Option String
find_key known_at id i zero = none
find_key known_at id i (suc left) =
    let later = find_key known_at id (i + 1) left in
    elim (get_known_public_key (known_at i) id) [ some key ↦ some key | none ↦ later ]

abbrev pub is_too_old : ℕ → ℕ → Bool
is_too_old now timestamp = ltb timestamp now && ltb 60000 (now - timestamp)

abbrev pub cache_in : World → NodeContext → String → ℕ → NodeContext
cache_in w node id port = record node {
  peer_store =
      update_entry node.peer_store id (λ c. record c {
        last_known_addresses = map (λ ip. w.address ip port) node.discovered_ips;
      });
}

-- The addresses of the peer, where it tells a port and addresses were seen
abbrev pub cache_addresses : World → Session → Option ℕ → Session
cache_addresses w s none = s
cache_addresses w s (some port) = elim (s.node.discovered_ips) [
  | [] ↦ s
  | _ ∷ _ ↦ record s { node = cache_in w s.node s.target_node_id port }
]

abbrev pub take_size : NodeContext → Option ℕ → NodeContext
take_size c none = c
take_size c (some size) = record c { peer_max_chunk_size = size }

-- What follows on a handshake whose signature is good
abbrev pub authenticate : World → Session → Option ℕ → Option ℕ → P2pMessage → Session
authenticate w s size port msg =
    let authentic = s.node in
    let s1 =
      cache_addresses w
        (told (record s { node = record authentic { is_authenticated = true } })
          (on_p2p_connected ∷ []))
        port in
    record s1 { node = process_message w.env (take_size s1.node size) msg }

abbrev pub on_key :
    World → Session → String → ℕ → Option ℕ → Option ℕ → P2pMessage → Option String → Session
on_key w s signature timestamp size port msg none = refuse s unknown_key
on_key w s signature timestamp size port msg (some key) =
    elim (verify_p2p_handshake w.env.crypto signature key s.target_node_id s.node.my_info.id
      timestamp) [ err e ↦ refuse s (bad_signature e) | ok u ↦ authenticate w s size port msg ]

unfoldable pub core_handshake :
    World → Session → String → ℕ → Option ℕ → Option ℕ → P2pMessage → Session
unfolding find_key
core_handshake w s signature timestamp size port msg =
    if is_too_old w.now timestamp
    then refuse s (clock_skew (w.now - timestamp))
    else on_key w s signature timestamp size port msg (find_key w.known_at s.target_node_id 0 10)

-- The answer to a ping is written if it can be serialised.
abbrev pub answer_ping : World → Session → ℕ → Session
answer_ping w s t = elim (w.env.to_bson (pong t)) [
  | err e ↦ s
  | ok bytes ↦ told s (written (record { mac = none; message = pong t }) ∷ [])
]

unfoldable pub handle_core_message : World → Session → P2pMessage → Session
unfolding core_handshake
handle_core_message w s (handshake version timestamp signature types size port from) =
    core_handshake w s signature timestamp size port
      (handshake version timestamp signature types size port from)
handle_core_message w s goodbye = record s { node = shutdown s.node; is_open = false }
handle_core_message w s (ping t) = answer_ping w s t
handle_core_message w s (pong t) =
    told (record s { last_pong = w.now }) (on_p2p_ping_updated ((w.now + 2 ^ 64 - t) % 2 ^ 64) ∷ [])
handle_core_message w s msg = s
