-- ===== src/Session/Firewall.antt =====
-- What a session that is not authenticated lets pass.
use p2p_common.Common.{
  ℕ, zero, suc, ◌≡◌, ◌≢◌, refl, ◌+◌, ◌<◌, String, Bool, true, false, Option, none, some, arith, inl,
  inr, Bool-cases, ◌⊎◌, List,
}
use p2p_common.Common.Dict.{Dict, get, entries_of}
use p2p_common.Protocol.Types.{NodeInfo}
use p2p_common.Node.{NodeContext}
use p2p_common.Common.Result.{Result-cases}
use p2p_common.Crypto.{verify_hmac_sha256}
use p2p_common.Protocol.Message.{P2pMessage, handshake, handshake_response, peers_sync, pong}
use p2p_common.Network.Types.{unauthenticated}
use p2p_common.Session.Types.{Session, World, fail}
use p2p_common.Session.Resources.{on_peers_sync, store_peers}
use p2p_common.Session.Incoming.{
  becomes_authenticated, is_handshake, gate, mac_checked, keyed, guarded,
  handle_incoming_p2p_message,
}

abbrev pub opens_session : P2pMessage → Bool
opens_session (handshake _ _ _ _ _ _ _) = true
opens_session (handshake_response _) = true
opens_session _ = false

becomes_authenticated-false :
    (at : ℕ → Bool) (left i : ℕ)
    → ((j : ℕ) → j < i + left → at j ≡ false)
    → becomes_authenticated at i left ≡ false
unfolding becomes_authenticated
becomes_authenticated-false at zero i never = refl
becomes_authenticated-false at (suc left) i never =
    rw (never i (omega arith))
      (becomes_authenticated-false at left (i + 1) (λ j h. never j (omega arith)))

module _ (w : World) (s : Session) (unknown : s.node.is_authenticated ≡ false)
    (never : (j : ℕ) → j < 25 → w.authenticated_at j ≡ false) where
  gate-fail : (msg : P2pMessage) → is_handshake msg ≡ false → gate w s msg ≡ fail s unauthenticated
  unfolding gate
  gate-fail msg other =
      let shut = becomes_authenticated-false w.authenticated_at 25 0 never in
      simp (unknown, other, shut)

  mac_checked-same :
      (msg : P2pMessage) (id key : String) (mac : Option String)
      → is_handshake msg ≡ false
      → (mac_checked w s msg id key mac).node ≡ s.node
  mac_checked-same msg id key none other = refl
  mac_checked-same msg id key (some m) other = elim (Result-cases (w.env.to_bson msg)) [
    | inl (e, failed) ↦ rw (failed, mac_checked) refl
    | inr (bytes, encoded) ↦ elim (Bool-cases (verify_hmac_sha256 w.env.crypto bytes key m)) [
      | inr forged ↦ rw (encoded, mac_checked, forged) refl
      | inl good ↦ rw (encoded, mac_checked, good, gate-fail msg other) refl
    ]
  ]

  guarded-same :
      (msg : P2pMessage) (mac r : Option String)
      → is_handshake msg ≡ false
      → (guarded w s msg mac r).node ≡ s.node
  guarded-same msg mac none other = rw (gate-fail msg other) refl
  guarded-same msg mac (some id) other = go (get s.node.session_keys id)
    where
      go : (k : Option String) → (keyed w s msg mac id k).node ≡ s.node
      go none = refl
      go (some key) = mac_checked-same msg id key mac other

-- What a message may do to the context before anything is proved: open the session, or, as `PeersSync`,
-- change the peer store and nothing else of it.
abbrev pub Opens : P2pMessage → NodeContext → NodeContext → Type 0
Opens msg before after =
    (opens_session msg ≡ true)
    ⊎ ((nodes : List NodeInfo) × (addresses : Dict (List String)) × (msg
          ≡ peers_sync nodes addresses)
        × (after ≡ store_peers before nodes (entries_of addresses)))

-- On a session that is not authenticated, and does not become so within the polls, a message that changes
-- the context of the node is a `Handshake` or a `HandshakeResponse`, or it is a `PeersSync`, which writes
-- its nodes and addresses to the peer store and changes nothing else of the context.
pub handle_incoming_p2p_message-Opens :
    (w : World) (s : Session) (msg : P2pMessage) (mac : Option String)
    → s.node.is_authenticated ≡ false
    → ((j : ℕ) → j < 25 → w.authenticated_at j ≡ false)
    → let after = (handle_incoming_p2p_message w s (record { mac = mac; message = msg })).node in
      after ≢ s.node → Opens msg s.node after
unfolding handle_incoming_p2p_message on_peers_sync
handle_incoming_p2p_message-Opens w s (handshake _ _ _ _ _ _ _) mac unknown never acts = inl refl
handle_incoming_p2p_message-Opens w s (handshake_response _) mac unknown never acts = inl refl
handle_incoming_p2p_message-Opens w s (peers_sync nodes addresses) mac unknown never acts =
    inr (nodes, addresses, refl, refl)
handle_incoming_p2p_message-Opens w s (pong _) mac unknown never acts = absurd (acts refl)
handle_incoming_p2p_message-Opens w s msg mac unknown never acts =
    absurd (acts (guarded-same w s unknown never msg mac _ refl))
