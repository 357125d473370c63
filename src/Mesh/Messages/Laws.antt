-- ===== src/Mesh/Messages/Laws.antt =====
-- What a message from a tunnel can and cannot change.
use mathlib.Core.List.{append-nil}
use p2p_common.Common.{
  str_eq_ne, ℕ, ◌≡◌, ◌≢◌, refl, sym, ap, ◌∙◌, String, Option, none, some, List, [], ◌∷◌, ◌++◌,
  str_eq, if◌then◌else◌, arith, eq_iff, inl, inr, Bool-cases, Option-cases,
}
use p2p_common.Common.Dict.{get, get-insert, insert}
use p2p_common.Protocol.Types.{NodeTopologyInfo}
use p2p_common.Protocol.Message.{P2pMessage, ping, rtc_signal, request_topology, response_topology}
use p2p_common.Registry.{get_known_public_key}
use p2p_common.Registry.Laws.{known-update_one}
use p2p_common.Mesh.Messages.{
  Mesh, TunnelSession, handle_tunnel_message, learn_peer, learn_peers, learn_addresses, remember,
  discovered, send_to, queued,
}

learn_addresses-known :
    (m : Mesh) (id : String) (addresses : List String)
    → (learn_addresses m id addresses).known ≡ m.known
learn_addresses-known m id [] = refl
learn_addresses-known m id (a ∷ addresses) = refl

learn_peer-known :
    (m : Mesh) (my_id : String) (p : NodeTopologyInfo) (id key : String)
    → get_known_public_key m.known id ≡ some key
    → get_known_public_key (learn_peer m my_id p).known id ≡ some key
unfolding learn_peer
learn_peer-known m my_id p id key h = elim (Bool-cases (str_eq p.id my_id)) [
  | inl self ↦ rw self h
  | inr other ↦ elim (Option-cases (get_known_public_key m.known p.id)) [
    | inr (old, e) ↦ rw (other, e, learn_addresses-known m p.id p.last_known_addresses) h
    | inl e ↦
        rw
          (
            other,
            e,
            learn_addresses-known (remember m p) p.id p.last_known_addresses,
            known-update_one m.known (discovered p) id,
            str_eq_ne p.id id
                (λ (same : p.id ≡ id). cc (same, e, h, ap (get_known_public_key m.known) same)),
          )
          h
  ]
]

learn_peers-known :
    (m : Mesh) (my_id : String) (peers : List NodeTopologyInfo) (id key : String)
    → get_known_public_key m.known id ≡ some key
    → get_known_public_key (learn_peers m my_id peers).known id ≡ some key
unfolding learn_peers
learn_peers-known m my_id [] id key h = h
learn_peers-known m my_id (p ∷ peers) id key h =
    learn_peers-known (learn_peer m my_id p) my_id peers id key
      (learn_peer-known m my_id p id key h)

send_to-known : (m : Mesh) (id : String) (msg : P2pMessage) → (send_to m id msg).known ≡ m.known
send_to-known m id msg = ground arith

-- Whatever message comes through a tunnel, a public key that is known for a node stays: a peer can
-- introduce nodes that are unknown, and cannot replace the key of one that is known.
pub handle_tunnel_message-known :
    (m : Mesh) (msg : P2pMessage) (remote my_id id key : String)
    → get_known_public_key m.known id ≡ some key
    → get_known_public_key (handle_tunnel_message m msg remote my_id).known id ≡ some key
unfolding handle_tunnel_message
handle_tunnel_message-known m (ping n) remote my_id id key h = h
handle_tunnel_message-known m (rtc_signal target s x mid index) remote my_id id key h =
    elim (Bool-cases (str_eq target my_id)) [
      | inl mine ↦ rw mine h
      | inr other ↦ rw (other, send_to-known m target (rtc_signal target s x mid index)) h
    ]
handle_tunnel_message-known m request_topology remote my_id id key h =
    rw (send_to-known m remote _) h
handle_tunnel_message-known m (response_topology peers) remote my_id id key h =
    learn_peers-known m my_id peers id key h
handle_tunnel_message-known m _ remote my_id id key h = h

-- What a message does to the tunnel of one id: nothing, or it queues messages behind the others.
abbrev pub Extends : Option TunnelSession → Option TunnelSession → Type 0
Extends none after = after ≡ none
Extends (some t) after =
    (extra : List P2pMessage) × (after ≡ some (record t { queue = t.queue ++ extra }))

pub Extends-refl : (o : Option TunnelSession) → Extends o o
Extends-refl none = refl
Extends-refl (some t) = ([], rw append-nil)

pub send_to_missing :
    (m : Mesh) (id : String) (msg : P2pMessage) → get m.tunnels id ≡ none → send_to m id msg ≡ m
send_to_missing m id msg e = rw (e, send_to)

pub send_to_open :
    (m : Mesh) (id : String) (msg : P2pMessage) (t : TunnelSession)
    → get m.tunnels id ≡ some t
    → send_to m id msg ≡ record m { tunnels = insert m.tunnels id (queued msg t) }
send_to_open m id msg t e = rw (e, send_to)

send_to-Extends :
    (m : Mesh) (id : String) (msg : P2pMessage) (j : String)
    → Extends (get m.tunnels j) (get (send_to m id msg).tunnels j)
send_to-Extends m id msg j = elim (Option-cases (get m.tunnels id)) [
  | inl missing ↦ rw (send_to_missing m id msg missing) (Extends-refl (get m.tunnels j))
  | inr (t, e) ↦
      rw (send_to_open m id msg t e, get-insert m.tunnels id j (queued msg t))
        (elim (Bool-cases (str_eq id j)) [
          | inr other ↦ rw other (Extends-refl (get m.tunnels j))
          | inl same ↦
              let at_j : get m.tunnels j ≡ some t =
                ap (get m.tunnels) (sym ((eq_iff id j).0 same)) ∙ e in
              rw (same, at_j) (msg ∷ [], refl)
        ])
]

learn_peer-tunnels :
    (m : Mesh) (my_id : String) (p : NodeTopologyInfo) → (learn_peer m my_id p).tunnels ≡ m.tunnels
unfolding learn_peer
learn_peer-tunnels m my_id p = ground arith

learn_peers-tunnels :
    (m : Mesh) (my_id : String) (peers : List NodeTopologyInfo)
    → (learn_peers m my_id peers).tunnels ≡ m.tunnels
unfolding learn_peers
learn_peers-tunnels m my_id [] = refl
learn_peers-tunnels m my_id (p ∷ peers) =
    learn_peers-tunnels (learn_peer m my_id p) my_id peers ∙ learn_peer-tunnels m my_id p

-- No message opens, closes or replaces a tunnel: for every node id there is a tunnel after it
-- exactly when there was one before, of the same connection, and its queue holds what it held, with
-- what the message added behind.
pub handle_tunnel_message-Extends :
    (m : Mesh) (msg : P2pMessage) (remote my_id j : String)
    → Extends (get m.tunnels j) (get (handle_tunnel_message m msg remote my_id).tunnels j)
unfolding handle_tunnel_message
handle_tunnel_message-Extends m (ping n) remote my_id j = Extends-refl (get m.tunnels j)
handle_tunnel_message-Extends m (rtc_signal target s x mid index) remote my_id j =
    elim (Bool-cases (str_eq target my_id)) [
      | inl mine ↦ rw mine (Extends-refl (get m.tunnels j))
      | inr other ↦ rw other (send_to-Extends m target (rtc_signal target s x mid index) j)
    ]
handle_tunnel_message-Extends m request_topology remote my_id j = send_to-Extends m remote _ j
handle_tunnel_message-Extends m (response_topology peers) remote my_id j =
    rw (learn_peers-tunnels m my_id peers) (Extends-refl (get m.tunnels j))
handle_tunnel_message-Extends m _ remote my_id j = Extends-refl (get m.tunnels j)

-- A signal for another node is put, unchanged, behind the queue of that node's tunnel, where there
-- is one; the tunnels of the other nodes, the keys, the peers and the local signals do not change.
pub handle_tunnel_message-forwards :
    (m : Mesh) (target s x remote my_id j : String) (mid : Option String) (index : Option ℕ)
    (t : TunnelSession)
    → target ≢ my_id
    → get m.tunnels target ≡ some t
    → let after = handle_tunnel_message m (rtc_signal target s x mid index) remote my_id in
      (get after.tunnels j ≡ (
        if str_eq target j
        then some (queued (rtc_signal target s x mid index) t)
        else get m.tunnels j))
      × (after ≡ record m { tunnels = after.tunnels })
unfolding handle_tunnel_message
handle_tunnel_message-forwards m target s x remote my_id j mid index t h e =
    rw (str_eq_ne target my_id h, send_to_open m target (rtc_signal target s x mid index) t e)
      (get-insert m.tunnels target j _, refl)
