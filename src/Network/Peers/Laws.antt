-- ===== src/Network/Peers/Laws.antt =====
-- What the ends, the beginnings and the merges of client-core/src/network/peer_orchestrator.rs keep.
use p2p_common.Common.{
  ℕ, ◌≡◌, ◌⊎◌, refl, ap, ◌∙◌, String, true, false, not, ◌&&◌, Option, none, some, ◌==◌, ==_iff,
  str_eq, str_eq_refl, if◌then◌else◌, arith, eq_iff, inl, inr, List, [], ◌∷◌, Bool-cases,
  Option-cases,
}
use p2p_common.Common.Dict.{get, get-insert, get-insert_self, get-remove}
use p2p_common.Protocol.Types.{Uuid, NodeInfo, SharedResource}
use p2p_common.Network.State.{
  NetworkManager, WebRtcClient, unfocus, drop_peer, backoff_or, on_p2p_disconnected,
}
use p2p_common.Network.Types.{PeerBackoff}
use p2p_common.Network.Peers.{
  after_loss, disconnect_peer, disconnect_peer_session, peer_connected, merge_node, merge_all,
  merge_nodes_list, merged,
}

-- The end of a session closes what the table holds only if it is that session: either nothing
-- changes, or the session of that id is in the table and the handler does what `DisconnectPeer` does.
pub disconnect_peer_session_lem :
    (m : NetworkManager) (now : ℕ) (id : String) (conn : Uuid)
    → (disconnect_peer_session m now id conn ≡ m)
      ⊎ ((c : WebRtcClient) × (get m.active_peers id ≡ some c)
          × (c.connection_id ≡ conn)
          × (disconnect_peer_session m now id conn ≡ disconnect_peer m now id))
unfolding disconnect_peer_session disconnect_peer
disconnect_peer_session_lem m now id conn = elim (Option-cases (get m.active_peers id)) [
  | inl gone ↦ inl (rw (gone, disconnect_peer_session) refl)
  | inr (c, there) ↦ elim (Bool-cases (c.connection_id == conn)) [
    | inr other ↦ inl (rw (there, disconnect_peer_session, other) refl)
    | inl same ↦ inr (
      c,
      there,
      (==_iff c.connection_id conn).0 same,
      rw (there, disconnect_peer_session, disconnect_peer, same) refl,
    )
  ]
]

-- What a merge keeps of a node that is known: its id, its key and its kind; and it stays online.
abbrev pub Keeps : NodeInfo → Option NodeInfo → Type 0
Keeps n after =
    (n' : NodeInfo) × (after ≡ some n')
    × (n'.id ≡ n.id)
    × (n'.public_key ≡ n.public_key)
    × (n'.app_type ≡ n.app_type)
    × ((n.is_online && not n'.is_online) ≡ false)

Keeps-refl : (n : NodeInfo) (after : Option NodeInfo) → after ≡ some n → Keeps n after
Keeps-refl n after e = (n, e, refl, refl, refl, ground arith)

Keeps-trans :
    (n : NodeInfo) (after last : Option NodeInfo)
    → Keeps n after
    → ((n' : NodeInfo) → after ≡ some n' → Keeps n' last)
    → Keeps n last
Keeps-trans n after last (n', e, i, k, a, o) next =
    let (l, el, il, kl, al, ol) = next n' e in
    (l, el, il ∙ i, kl ∙ k, al ∙ a, ground (arith, o, ol))

merge_entry : Option NodeInfo → NodeInfo → NodeInfo
merge_entry none node = node
merge_entry (some old) node = merged old node

-- The entry of one id after a merge of one node
merge_node-get :
    (m : NetworkManager) (node : NodeInfo) (id : String)
    → get (merge_node m node).last_known_nodes id ≡ (
        if not (str_eq node.id m.my_info.id) && str_eq node.id id
        then some (merge_entry (get m.last_known_nodes node.id) node)
        else get m.last_known_nodes id)
unfolding merge_node merge_entry
merge_node-get m node id = elim (Option-cases (get m.last_known_nodes node.id)) [
  | inl new ↦ ground (arith, new, get-insert m.last_known_nodes node.id id node)
  | inr (old, known) ↦
      ground (arith, known, get-insert m.last_known_nodes node.id id (merged old node))
]

merge_node-my_info :
    (m : NetworkManager) (node : NodeInfo) → (merge_node m node).my_info ≡ m.my_info
unfolding merge_node
merge_node-my_info m node = ground arith

merge_node-Keeps :
    (m : NetworkManager) (node : NodeInfo) (id : String) (n : NodeInfo)
    → get m.last_known_nodes id ≡ some n
    → Keeps n (get (merge_node m node).last_known_nodes id)
unfolding merge_entry
merge_node-Keeps m node id n known =
    elim (Bool-cases (not (str_eq node.id m.my_info.id) && str_eq node.id id)) [
      | inr other ↦ rw (merge_node-get m node id, other) (Keeps-refl n _ known)
      | inl same ↦
          let e : node.id ≡ id = ground (arith, same, eq_iff node.id id) in
          let old : get m.last_known_nodes node.id ≡ some n = rw e known in
          rw (merge_node-get m node id, same, old, merge_entry)
            (merged n node, refl, refl, refl, refl, ground arith)
    ]

merge_all-Keeps :
    (m : NetworkManager) (nodes : List NodeInfo) (id : String) (n : NodeInfo)
    → get m.last_known_nodes id ≡ some n
    → Keeps n (get (merge_all m nodes).last_known_nodes id)
unfolding merge_all
merge_all-Keeps m [] id n known = Keeps-refl n _ known
merge_all-Keeps m (node ∷ nodes) id n known =
    Keeps-trans n (get (merge_node m node).last_known_nodes id) _
      (merge_node-Keeps m node id n known) (merge_all-Keeps (merge_node m node) nodes id)

-- A list of nodes that a peer sends cannot take a node over: of a node that is known already, the
-- id, the public key and the kind stay, and a node that is online stays online.
pub merge_nodes_list-Keeps :
    (m : NetworkManager) (nodes : List NodeInfo) (id : String) (n : NodeInfo)
    → get m.last_known_nodes id ≡ some n
    → Keeps n (get (merge_nodes_list m nodes).last_known_nodes id)
unfolding merge_nodes_list
merge_nodes_list-Keeps m nodes id n known = merge_all-Keeps m nodes id n known

merge_all-own :
    (m : NetworkManager) (nodes : List NodeInfo) (my_id : String)
    → m.my_info.id ≡ my_id
    → get (merge_all m nodes).last_known_nodes my_id ≡ get m.last_known_nodes my_id
unfolding merge_all
merge_all-own m [] my_id mine = refl
merge_all-own m (node ∷ nodes) my_id mine =
    merge_all-own (merge_node m node) nodes my_id
      (ap (λ (i : NodeInfo). i.id) (merge_node-my_info m node) ∙ mine)
    ∙ merge_node-get m node my_id
    ∙ rw mine (ground arith)

-- What a peer says of the client's own node is not read.
pub merge_nodes_list-own :
    (m : NetworkManager) (nodes : List NodeInfo)
    → get (merge_nodes_list m nodes).last_known_nodes m.my_info.id
      ≡ get m.last_known_nodes m.my_info.id
unfolding merge_nodes_list
merge_nodes_list-own m nodes = merge_all-own m nodes m.my_info.id refl

disconnect_peer-backoff :
    (m : NetworkManager) (now : ℕ) (id : String)
    → get (disconnect_peer m now id).backoff_states id
      ≡ some (after_loss (backoff_or (get m.backoff_states id) now false) now)
unfolding disconnect_peer
disconnect_peer-backoff m now id =
    let dropped = unfocus (drop_peer m id (on_p2p_disconnected id ∷ [])) id in
    let same : dropped.backoff_states ≡ m.backoff_states = ground arith in
    get-insert_self dropped.backoff_states id _
    ∙ ap (λ d. some (after_loss (backoff_or (get d id) now false) now)) same

disconnect_peer-active :
    (m : NetworkManager) (now : ℕ) (id : String)
    → get (disconnect_peer m now id).active_peers id ≡ none
unfolding disconnect_peer
disconnect_peer-active m now id = ground (arith, get-remove m.active_peers id id, str_eq_refl id)

peer_connected-backoff :
    (m : NetworkManager) (now : ℕ) (id : String) (resources : List SharedResource)
    → (b : PeerBackoff) × (get (peer_connected m now id resources).backoff_states id ≡ some b)
      × (b.is_connected ≡ true)
unfolding peer_connected
peer_connected-backoff m now id resources =
    let b = record (backoff_or (get m.backoff_states id) now true) {
      is_connected = true;
      attempt_count = 0;
    } in
    (b, ground (arith, get-insert_self m.backoff_states id b), refl)

-- A session that was up and is lost costs the peer a first wait: whatever the backoff was before the
-- connection, afterwards it counts one attempt, made at the time of the loss, and no session of the
-- peer is left.
pub disconnect_peer-peer_connected :
    (m : NetworkManager) (now later : ℕ) (id : String) (resources : List SharedResource)
    → let after = disconnect_peer (peer_connected m now id resources) later id in
      (get after.backoff_states id
        ≡ some (record { attempt_count = 1; last_attempt = later; is_connected = false }))
      × (get after.active_peers id ≡ none)
disconnect_peer-peer_connected m now later id resources =
    let up = peer_connected m now id resources in
    let (b, e, was_up) = peer_connected-backoff m now id resources in
    (
      rw (disconnect_peer-backoff up later id, e) (ground (arith, was_up)),
      disconnect_peer-active up later id,
    )
