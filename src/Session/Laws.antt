-- ===== src/Session/Laws.antt =====
-- What lets a message of a peer act on a session.
use p2p_common.Common.{
  ℕ, zero, suc, ◌≡◌, ◌≢◌, ◌⊎◌, refl, ◌∙◌, ◌+◌, ◌≤◌, ◌<◌, String, true, false, Option, none, some,
  List, arith, inl, inr, Bool-cases, Option-cases,
}
use p2p_common.Common.Dict.{get}
use p2p_common.Common.Result.{ok, Result-cases}
use p2p_common.Crypto.{verify_hmac_sha256, verify_p2p_handshake}
use p2p_common.Protocol.Types.{ResourceType}
use p2p_common.Protocol.Message.{P2pMessage, handshake, handshake_response, peers_sync, pong, ping}
use p2p_common.Protocol.Access.{resource_id}
use p2p_common.Registry.{Known, get_known_public_key}
use p2p_common.Session.Types.{Session, World}
use p2p_common.Session.Core.{find_key, is_too_old, on_key, core_handshake, handle_core_message}
use p2p_common.Session.Incoming.{mac_checked, keyed, guarded, handle_incoming_p2p_message}

-- The MAC of the message checks under the session key of its resource.
abbrev pub Authorized : World → Session → P2pMessage → Option String → String → Type 0
Authorized w s msg mac id =
    (key : String) × (m : String) × (bytes : List ℕ) × (get s.node.session_keys id ≡ some key)
    × (mac ≡ some m)
    × (w.env.to_bson msg ≡ ok bytes)
    × (verify_hmac_sha256 w.env.crypto bytes key m ≡ true)

mac_checked-Authorized :
    (w : World) (s : Session) (msg : P2pMessage) (mac : Option String) (id key : String)
    → get s.node.session_keys id ≡ some key
    → (mac_checked w s msg id key mac).node ≢ s.node
    → Authorized w s msg mac id
mac_checked-Authorized w s msg none id key held acts = absurd (acts refl)
mac_checked-Authorized w s msg (some m) id key held acts = elim (Result-cases (w.env.to_bson msg)) [
  | inl (e, failed) ↦ absurd (acts (rw (failed, mac_checked) refl))
  | inr (bytes, encoded) ↦ elim (Bool-cases (verify_hmac_sha256 w.env.crypto bytes key m)) [
    | inr forged ↦ absurd (acts (rw (encoded, mac_checked, forged) refl))
    | inl good ↦ (key, m, bytes, held, refl, encoded, good)
  ]
]

guarded-Authorized :
    (w : World) (s : Session) (msg : P2pMessage) (mac : Option String) (id : String)
    → (guarded w s msg mac (some id)).node ≢ s.node
    → Authorized w s msg mac id
guarded-Authorized w s msg mac id acts = go (get s.node.session_keys id) refl acts
  where
    go :
        (k : Option String)
        → get s.node.session_keys id ≡ k
        → (keyed w s msg mac id k).node ≢ s.node
        → Authorized w s msg mac id
    go none keyless acts = absurd (acts refl)
    go (some key) held acts = mac_checked-Authorized w s msg mac id key held acts

named-Authorized :
    (w : World) (s : Session) (msg : P2pMessage) (mac : Option String) (id : String)
    (r : Option String)
    → r ≡ some id
    → (guarded w s msg mac r).node ≢ s.node
    → Authorized w s msg mac id
named-Authorized w s msg mac id r named acts = guarded-Authorized w s msg mac id (rw named at acts)

-- A message that names a resource changes the context of the session, and so reaches a handler, is
-- answered or ends a stream, only if it carries a MAC that checks under the session key that the
-- context holds for that resource.
pub handle_incoming_p2p_message-Authorized :
    (w : World) (s : Session) (msg : P2pMessage) (mac : Option String) (id : String)
    → resource_id msg ≡ some id
    → (handle_incoming_p2p_message w s (record { mac = mac; message = msg })).node ≢ s.node
    → Authorized w s msg mac id
unfolding handle_incoming_p2p_message resource_id
handle_incoming_p2p_message-Authorized w s (ping t) mac id named acts = cc named
handle_incoming_p2p_message-Authorized w s (handshake_response resources) mac id named acts =
    cc named
handle_incoming_p2p_message-Authorized w s (peers_sync nodes addresses) mac id named acts = cc named
handle_incoming_p2p_message-Authorized w s (pong t) mac id named acts = cc named
handle_incoming_p2p_message-Authorized w s msg mac id named acts =
    named-Authorized w s msg mac id _ named acts

find_key-some :
    (known_at : ℕ → Known) (id key : String) (left i : ℕ)
    → find_key known_at id i left ≡ some key
    → (j : ℕ) × (j < i + left) × (get_known_public_key (known_at j) id ≡ some key)
unfolding find_key
find_key-some known_at id key zero i h = cc h
find_key-some known_at id key (suc left) i h =
    elim (Option-cases (get_known_public_key (known_at i) id)) [
      | inr (k, found) ↦ (i, omega arith, found ∙ rw (found, find_key) at h)
      | inl missing ↦
          let (j, early, there) =
            find_key-some known_at id key left (i + 1) (rw (missing, find_key) at h) in
          (j, omega arith, there)
    ]

-- A key that was known at one of ten polls verifies the signature over the ids and the time of the
-- handshake, and the handshake is not older than a minute.
abbrev pub Authentic : World → Session → String → ℕ → Type 0
Authentic w s signature timestamp =
    (key : String) × (j : ℕ) × (u : Unit) × (j < 10)
    × (get_known_public_key (w.known_at j) s.target_node_id ≡ some key)
    × (verify_p2p_handshake w.env.crypto signature key s.target_node_id s.node.my_info.id timestamp
        ≡ ok u)
    × (w.now ≤ timestamp + 60000)

abbrev pub Refused : Session → Session → Type 0
Refused before after = (after.node ≡ before.node) × (after.is_open ≡ false)

on_key-Authentic :
    (w : World) (s : Session) (signature : String) (timestamp : ℕ) (size port : Option ℕ)
    (msg : P2pMessage) (k : Option String)
    → find_key w.known_at s.target_node_id 0 10 ≡ k
    → w.now ≤ timestamp + 60000
    → Authentic w s signature timestamp ⊎ Refused s (on_key w s signature timestamp size port msg k)
on_key-Authentic w s signature timestamp size port msg none found young = inr (refl, refl)
on_key-Authentic w s signature timestamp size port msg (some key) found young =
    elim (Result-cases (
      verify_p2p_handshake w.env.crypto signature key s.target_node_id s.node.my_info.id
        timestamp)) [
          | inl (e, bad) ↦ inr (rw (bad, on_key) refl, rw (bad, on_key) refl)
          | inr (u, good) ↦
              let (j, early, known) = find_key-some w.known_at s.target_node_id key 10 0 found in
              inl (key, j, u, early, known, good, young)
        ]

is_too_old-false : (now timestamp : ℕ) → is_too_old now timestamp ≡ false → now ≤ timestamp + 60000
is_too_old-false now timestamp young = ground arith

-- A handshake that the peer sends closes the channel and leaves the context as it was, unless it is at
-- most a minute old and signed, for this pair of nodes, with the key known for the peer.
pub handle_core_message-Authentic :
    (w : World) (s : Session) (version signature : String) (timestamp : ℕ)
    (types : Option (List ResourceType)) (size port : Option ℕ) (from : Option String)
    → let msg = handshake version timestamp signature types size port from in
      Authentic w s signature timestamp ⊎ Refused s (handle_core_message w s msg)
unfolding handle_core_message core_handshake
handle_core_message-Authentic w s version signature timestamp types size port from =
    elim (Bool-cases (is_too_old w.now timestamp)) [
      | inl old ↦ inr (rw old refl, rw old refl)
      | inr young ↦ rw young (
          on_key-Authentic w s signature timestamp size port
            (handshake version timestamp signature types size port from) _ refl
            (is_too_old-false w.now timestamp young))
    ]
