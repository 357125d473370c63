-- ===== src/Session/Resources.antt =====
-- The messages that tell keys, in `handle_incoming_p2p_message` of client-core/src/rtc/mod.rs.
use p2p_common.Common.{ℕ, ◌+◌, String, true, none, some, List, [], ◌∷◌, if◌then◌else◌}
use p2p_common.Common.Dict.{Dict, insert}
use p2p_common.Common.Result.{ok, err}
use p2p_common.Protocol.Types.{NodeInfo, SharedResource}
use p2p_common.Protocol.Message.{handshake_response}
use p2p_common.Registry.{PeerMap, update_entry, update_known_public_keys}
use p2p_common.Node.{NodeContext, type_eq}
use p2p_common.Network.Types.{peer_connected, merge_nodes_list, P2pPeerState}
use p2p_common.Session.Types.{Session, World, told, on_peer_state_changed, command, written}

-- `HandshakeResponse`: the keys and the types of the remote resources
unfoldable pub learn_resources : NodeContext → List SharedResource → NodeContext
learn_resources c [] = c
learn_resources c (r ∷ resources) =
    learn_resources
      (record c {
        remote_resources =
            λ t. if type_eq t r.resource_type then some r.id else c.remote_resources t;
        session_keys = elim (r.session_token) [
          | none ↦ c.session_keys
          | some token ↦ insert c.session_keys r.id token
        ];
      })
      resources

-- The tokens of the own resources, in the answer to the first `HandshakeResponse`
unfoldable pub own_tokens :
    (ℕ → String) → ℕ → Dict String → List SharedResource → Dict String × ℕ × List SharedResource
own_tokens token drawn keys [] = (keys, drawn, [])
own_tokens token drawn keys (r ∷ resources) =
    let (keys', drawn', rest) =
      own_tokens token (drawn + 1) (insert keys r.id (token drawn)) resources in
    (keys', drawn', record r { session_token = some (token drawn) } ∷ rest)

abbrev pub write_response : World → Session → List SharedResource → Session
write_response w s shared = elim (w.env.to_bson (handshake_response shared)) [
  | err e ↦ s
  | ok bytes ↦ told s (written (record { mac = none; message = handshake_response shared }) ∷ [])
]

unfoldable pub respond : World → Session → Session
unfolding own_tokens
respond w s =
    let c = s.node in
    let (keys, drawn, shared) = own_tokens w.env.token c.drawn c.session_keys c.my_info.resources in
    write_response w (record s { node = record c { session_keys = keys; drawn = drawn } }) shared

-- The keys are taken, and the peer is reported as connected.
unfoldable pub connect : Session → List SharedResource → Session
unfolding learn_resources
connect s resources =
    let learnt = learn_resources s.node resources in
    told (record s { node = record learnt { is_authenticated = true } })
      (on_peer_state_changed P2pPeerState.connected
        ∷ command (peer_connected s.target_node_id resources)
        ∷ [])

unfoldable pub on_handshake_response : World → Session → List SharedResource → Session
unfolding connect respond
on_handshake_response w s resources =
    if s.node.is_authenticated then connect s resources else respond w (connect s resources)

-- `PeersSync`
unfoldable pub store_synced : PeerMap → List NodeInfo → PeerMap
store_synced peers [] = peers
store_synced peers (n ∷ nodes) =
    store_synced
      (update_entry peers n.id
        (λ c. record c { public_key = n.public_key; name = n.name; os = n.os }))
      nodes

unfoldable pub store_addresses : PeerMap → List (String × List String) → PeerMap
store_addresses peers [] = peers
store_addresses peers ((id, addresses) ∷ more) =
    store_addresses (update_entry peers id (λ c. record c { last_known_addresses = addresses }))
      more

abbrev pub store_peers : NodeContext → List NodeInfo → List (String × List String) → NodeContext
store_peers node nodes addresses = record node {
  peer_store = store_addresses (store_synced node.peer_store nodes) addresses;
}

unfoldable pub on_peers_sync : Session → List NodeInfo → List (String × List String) → Session
unfolding store_synced store_addresses
on_peers_sync s nodes addresses =
    told
      (record s {
        known = update_known_public_keys s.known nodes;
        node = store_peers s.node nodes addresses;
      })
      (command (merge_nodes_list nodes) ∷ [])
