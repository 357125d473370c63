-- ===== src/Network/Server/Laws.antt =====
-- What a list of nodes from the server leaves of what it does not name.
use p2p_common.Common.{
  ℕ, ◌≡◌, refl, sym, ap, ◌∙◌, String, Bool, true, false, none, List, [], ◌∷◌, str_eq, str_eq_refl,
  arith, inl, inr, Bool-cases, Option-cases, any, keep, eq_iff,
}
use p2p_common.Common.Dict.{
  get, keys, retain, get-insert, get-remove, get-retain-none, get-keys, contains_key,
}
use p2p_common.Protocol.Types.{NodeInfo, SharedResource}
use p2p_common.Registry.{PeerMap, update_known_public_keys}
use p2p_common.Network.State.{unfocus, NetworkManager, Effect, drop_peer}
use p2p_common.Network.Peers.{lose}
use p2p_common.Network.Server.{
  is_listed, is_stored, is_dial_target, store_nodes, sync_store, keep_stored, close_unlisted,
  close_all_unlisted, refreshed, dial_later, process_nodes, keep_listed, process_nodes_list,
}

store_nodes-unstored :
    (nodes : List NodeInfo) (peers : PeerMap) (id : String)
    → is_stored nodes id ≡ false
    → get peers id ≡ none
    → get (store_nodes peers nodes) id ≡ none
unfolding store_nodes
store_nodes-unstored [] peers id h gone = gone
store_nodes-unstored (n ∷ nodes) peers id h gone = elim (Bool-cases n.is_temporary) [
  | inl brief ↦ rw brief (store_nodes-unstored nodes peers id (rw brief at h) gone)
  | inr lasting ↦ elim (Bool-cases (str_eq n.id id)) [
    | inl same ↦ cc (rw (lasting, same) at h)
    | inr other ↦ rw lasting (
        store_nodes-unstored nodes _ id (rw (lasting, other) at h)
          (rw (get-insert peers n.id id _, other) gone))
  ]
]

-- The peer store follows the server: a node that is not on its list, or only as a temporary node, is
-- not in the store afterwards.
pub sync_store-unstored :
    (peers : PeerMap) (nodes : List NodeInfo) (id : String)
    → is_stored nodes id ≡ false
    → get (sync_store peers nodes) id ≡ none
unfolding sync_store
sync_store-unstored peers nodes id h =
    store_nodes-unstored nodes (retain (keep_stored nodes) peers) id h
      (get-retain-none (keep_stored nodes) peers id (λ p. rw h refl))

drop_peer-none :
    (m : NetworkManager) (id j : String) (told : List Effect)
    → get m.active_peers j ≡ none
    → get (drop_peer m id told).active_peers j ≡ none
drop_peer-none m id j told h = ground (arith, h, get-remove m.active_peers id j)

pub lose-active :
    (m : NetworkManager) (now : ℕ) (id : String)
    → (lose (unfocus m id) now id).active_peers ≡ m.active_peers
lose-active m now id = ground arith

close_unlisted-none :
    (m : NetworkManager) (now : ℕ) (nodes : List NodeInfo) (id j : String)
    → get m.active_peers j ≡ none
    → get (close_unlisted m now nodes id).active_peers j ≡ none
close_unlisted-none m now nodes id j h = elim (Bool-cases (is_listed nodes id)) [
  | inl listed ↦ rw listed h
  | inr unlisted ↦
      rw (unlisted, lose-active (drop_peer m id []) now id) (drop_peer-none m id j [] h)
]

drop_peer_self :
    (m : NetworkManager) (id : String) (told : List Effect)
    → get (drop_peer m id told).active_peers id ≡ none
drop_peer_self m id told = ground (arith, get-remove m.active_peers id id, str_eq_refl id)

close_unlisted_self :
    (m : NetworkManager) (now : ℕ) (nodes : List NodeInfo) (id : String)
    → is_listed nodes id ≡ false
    → get (close_unlisted m now nodes id).active_peers id ≡ none
close_unlisted_self m now nodes id h =
    rw (h, lose-active (drop_peer m id []) now id) (drop_peer_self m id [])

close_all_unlisted-none :
    (m : NetworkManager) (now : ℕ) (nodes : List NodeInfo) (ids : List String) (j : String)
    → get m.active_peers j ≡ none
    → get (close_all_unlisted m now nodes ids).active_peers j ≡ none
unfolding close_all_unlisted
close_all_unlisted-none m now nodes [] j h = h
close_all_unlisted-none m now nodes (id ∷ ids) j h =
    close_all_unlisted-none (close_unlisted m now nodes id) now nodes ids j
      (close_unlisted-none m now nodes id j h)

close_all_unlisted-closes :
    (m : NetworkManager) (now : ℕ) (nodes : List NodeInfo) (ids : List String) (j : String)
    → is_listed nodes j ≡ false
    → any (λ id. str_eq id j) ids ≡ true
    → get (close_all_unlisted m now nodes ids).active_peers j ≡ none
unfolding close_all_unlisted
close_all_unlisted-closes m now nodes [] j h among = cc among
close_all_unlisted-closes m now nodes (id ∷ ids) j h among = elim (Bool-cases (str_eq id j)) [
  | inl same ↦
      let e : j ≡ id = sym ((eq_iff id j).0 same) in
      close_all_unlisted-none (close_unlisted m now nodes id) now nodes ids j
        (rw e (close_unlisted_self m now nodes id (rw e at h)))
  | inr other ↦
      close_all_unlisted-closes (close_unlisted m now nodes id) now nodes ids j h
        (rw other at among)
]

close_keys-closes :
    (m : NetworkManager) (now : ℕ) (nodes : List NodeInfo) (j : String)
    → is_listed nodes j ≡ false
    → get (close_all_unlisted m now nodes (keys m.active_peers)).active_peers j ≡ none
close_keys-closes m now nodes j h = elim (Option-cases (get m.active_peers j)) [
  | inl gone ↦ close_all_unlisted-none m now nodes (keys m.active_peers) j gone
  | inr (c, there) ↦
      close_all_unlisted-closes m now nodes (keys m.active_peers) j h
        (get-keys m.active_peers j c there)
]

pub dial_later-active :
    (m : NetworkManager) (targets : List NodeInfo) (node : NodeInfo)
    → (dial_later m targets node).active_peers ≡ m.active_peers
dial_later-active m targets node = elim (Bool-cases (is_dial_target m.my_info.id node)) [
  | inl is ↦ rw is refl
  | inr isnt ↦ rw isnt refl
]

module _ (same_json : List SharedResource → List SharedResource → Bool) where
  refreshed-none :
      (m : NetworkManager) (node : NodeInfo) (j : String)
      → get m.active_peers j ≡ none
      → get (refreshed same_json m node).active_peers j ≡ none
  refreshed-none m node j h = ground (arith, h, get-remove m.active_peers node.id j)

  process_nodes-none :
      (nodes targets : List NodeInfo) (m : NetworkManager) (j : String)
      → get m.active_peers j ≡ none
      → get (process_nodes same_json m targets nodes).active_peers j ≡ none
  unfolding process_nodes
  process_nodes-none [] targets m j h = h
  process_nodes-none (node ∷ nodes) targets m j h =
      process_nodes-none nodes targets _ j (
        rw (dial_later-active (refreshed same_json m node) targets node)
          (refreshed-none m node j h))

-- A list of nodes from the server closes the sessions of the nodes that it does not name: whatever the
-- sessions were, afterwards there is none of a node that is not on the list.
pub process_nodes_list-closes :
    (same_json : List SharedResource → List SharedResource → Bool) (m : NetworkManager) (now : ℕ)
    (nodes : List NodeInfo) (id : String)
    → is_listed nodes id ≡ false
    → get (process_nodes_list same_json m now nodes).active_peers id ≡ none
unfolding process_nodes_list
process_nodes_list-closes same_json m now nodes id h =
    process_nodes-none same_json nodes _ _ id (close_keys-closes _ now nodes id h)

dial_later-tunnels :
    (m : NetworkManager) (targets : List NodeInfo) (node : NodeInfo)
    → (dial_later m targets node).tunnels ≡ m.tunnels
dial_later-tunnels m targets node = elim (Bool-cases (is_dial_target m.my_info.id node)) [
  | inl is ↦ rw is refl
  | inr isnt ↦ rw isnt refl
]

refreshed-tunnels :
    (same_json : List SharedResource → List SharedResource → Bool) (m : NetworkManager)
    (node : NodeInfo)
    → (refreshed same_json m node).tunnels ≡ m.tunnels
refreshed-tunnels same_json m node = ground arith

process_nodes-tunnels :
    (same_json : List SharedResource → List SharedResource → Bool) (nodes targets : List NodeInfo)
    (m : NetworkManager)
    → (process_nodes same_json m targets nodes).tunnels ≡ m.tunnels
unfolding process_nodes
process_nodes-tunnels same_json [] targets m = refl
process_nodes-tunnels same_json (node ∷ nodes) targets m =
    process_nodes-tunnels same_json nodes targets _
    ∙ dial_later-tunnels (refreshed same_json m node) targets node
    ∙ refreshed-tunnels same_json m node

close_all_unlisted-tunnels :
    (m : NetworkManager) (now : ℕ) (nodes : List NodeInfo) (ids : List String)
    → (close_all_unlisted m now nodes ids).tunnels ≡ m.tunnels
unfolding close_all_unlisted
close_all_unlisted-tunnels m now nodes [] = refl
close_all_unlisted-tunnels m now nodes (id ∷ ids) =
    close_all_unlisted-tunnels (close_unlisted m now nodes id) now nodes ids ∙ ground arith

keep_listed-none :
    (m : NetworkManager) (nodes : List NodeInfo) (id : String) (node : NodeInfo)
    → is_listed nodes id ≡ false
    → contains_key m.tunnels id ≡ false
    → keep_listed m nodes id node ≡ none
keep_listed-none m nodes id node h alone = rw (h, alone) refl

-- A node that the server does not name, and to which there is no tunnel, is forgotten.
pub process_nodes_list-forgets :
    (same_json : List SharedResource → List SharedResource → Bool) (m : NetworkManager) (now : ℕ)
    (nodes : List NodeInfo) (id : String)
    → is_listed nodes id ≡ false
    → contains_key m.tunnels id ≡ false
    → get (process_nodes_list same_json m now nodes).last_known_nodes id ≡ none
unfolding process_nodes_list
process_nodes_list-forgets same_json m now nodes id h alone =
    let m1 = record m {
      known = update_known_public_keys m.known nodes;
      peers = sync_store m.peers nodes;
    } in
    let m2 = close_all_unlisted m1 now nodes (keys m1.active_peers) in
    let m3 = process_nodes same_json m2 (keep (is_dial_target m2.my_info.id) nodes) nodes in
    let same : m3.tunnels ≡ m.tunnels =
      process_nodes-tunnels same_json nodes _ m2
      ∙ close_all_unlisted-tunnels m1 now nodes (keys m1.active_peers) in
    get-retain-none (keep_listed m3 nodes) m3.last_known_nodes id
      (λ node. keep_listed-none m3 nodes id node h (ap (λ t. contains_key t id) same ∙ alone))
