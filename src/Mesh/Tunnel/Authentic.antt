-- ===== src/Mesh/Tunnel/Authentic.antt =====
-- Who is at the other end of a tunnel.
use p2p_common.Common.{
  ℕ, ◌≡◌, refl, sym, ◌∙◌, String, Bool, true, false, Option, none, some, List, [], ◌∷◌, str_eq,
  eq_iff,
}
use p2p_common.Common.Dict.{get, get-insert_self}
use p2p_common.Common.Result.{Result, ok, err, ensure, ok_or, ◌>>◌, >>=-eq-ok}
use p2p_common.Crypto.{Primitives, sign_p2p_handshake, verify_p2p_handshake}
use p2p_common.Protocol.Message.{P2pMessage, request_topology}
use p2p_common.Registry.{Known, get_known_public_key}
use p2p_common.Mesh.Messages.{Mesh, send_to}
use p2p_common.Mesh.Messages.Laws.{send_to_open}
use p2p_common.Mesh.Tunnel.{
  Noise, Codec, Local, Opened, Claim, claim_of, check_initiator, check_responder, map_err,
  open_tunnel, get_noise_private_key, accept_session, answer_initiator, handle_incoming_tcp_tunnel,
  offer_session, connect_to_peer_signaling,
}

-- The message claims to come from `id`, and its signature checks, for this node and the time that
-- the message gives, against the public key that is known for `id`.
abbrev pub Proves : Primitives → Known → String → P2pMessage → String → Type 0
Proves p known my_id msg id =
    (claim : Claim) × (key : String) × (claim_of msg ≡ some claim)
    × (claim.node_id ≡ id)
    × (get_known_public_key known id ≡ some key)
    × (verify_p2p_handshake p claim.signature key id my_id claim.timestamp_ms ≡ ok tt)

ok_or-eq-ok {ℓ} : {A : Type ℓ} (o : Option A) (e : String) {a : A} → ok_or o e ≡ ok a → o ≡ some a
ok_or-eq-ok none e h = cc
ok_or-eq-ok (some a) e h = cc

map_err-eq-ok {ℓ} :
    {A : Type ℓ} (what : String) (r : Result A) {a : A} → map_err what r ≡ ok a → r ≡ ok a
map_err-eq-ok what (ok a) h = h
map_err-eq-ok what (err e) h = cc

verified :
    (p : Primitives) (known : Known) (my_id id why : String) (msg : P2pMessage) (claim : Claim)
    (key : String)
    → claim_of msg ≡ some claim
    → get_known_public_key known claim.node_id ≡ some key
    → (map_err why
          (verify_p2p_handshake p claim.signature key claim.node_id my_id claim.timestamp_ms)
        >> ok claim.node_id)
      ≡ ok id
    → Proves p known my_id msg id
verified p known my_id id why msg claim key ec ek h =
    let (u, ev, same) =
      >>=-eq-ok
        (map_err why
          (verify_p2p_handshake p claim.signature key claim.node_id my_id claim.timestamp_ms))
        (λ _. ok claim.node_id) h in
    let e : claim.node_id ≡ id = cc same in
    (claim, key, ec, e, rw e at ek, rw e at (map_err-eq-ok why _ ev))

check_initiator-Proves :
    (p : Primitives) (known : Known) (my_id id : String) (msg : P2pMessage)
    → check_initiator p known my_id msg ≡ ok id
    → Proves p known my_id msg id
unfolding check_initiator
check_initiator-Proves p known my_id id msg h =
    let (claim, ec, h1) = >>=-eq-ok (ok_or (claim_of msg) _) _ h in
    let (key, ek, h2) = >>=-eq-ok (ok_or (get_known_public_key known claim.node_id) _) _ h1 in
    verified p known my_id id _ msg claim key (ok_or-eq-ok _ _ ec) (ok_or-eq-ok _ _ ek) h2

check_responder-Proves :
    (p : Primitives) (known : Known) (my_id target id : String) (msg : P2pMessage)
    → check_responder p known my_id target msg ≡ ok id
    → Proves p known my_id msg id × (id ≡ target)
unfolding check_responder verified
check_responder-Proves p known my_id target id msg h =
    let (claim, ec, h1) = >>=-eq-ok (ok_or (claim_of msg) _) _ h in
    let (u, same, h2) = >>=-eq-ok (ensure (str_eq claim.node_id target) _) _ h1 in
    let (key, ek, h3) = >>=-eq-ok (ok_or (get_known_public_key known claim.node_id) _) _ h2 in
    let proof =
      verified p known my_id id _ msg claim key (ok_or-eq-ok _ _ ec) (ok_or-eq-ok _ _ ek) h3 in
    (
      proof,
      sym (proof.3)
          ∙ (eq_iff claim.node_id target).0 (ensured (str_eq claim.node_id target) _ same),
    )
  where
    ensured : (b : Bool) (e : String) → ensure b e ≡ ok tt → b ≡ true
    ensured true e h = refl
    ensured false e h = cc

get-open_tunnel :
    (m : Mesh) (id : String) (c : ℕ)
    → get (open_tunnel m id c).tunnels id ≡ some (record { connection_id = c; queue = [] })
unfolding open_tunnel
get-open_tunnel m id c = get-insert_self m.tunnels id _

module _ {H T : Type 0} (noise : Noise H T) (codec : Codec) (p : Primitives) (l : Local) where
  answer_initiator-opens :
      (m : Mesh) (initiator : String) (t : T) (written unread : List ℕ) (o : Opened T)
      → answer_initiator noise codec p l m initiator t written unread ≡ ok o
      → (o.remote ≡ initiator) × (o.mesh ≡ open_tunnel m initiator l.connection_id)
  unfolding answer_initiator
  answer_initiator-opens m initiator t written unread o h =
      let (signature, es, h1) =
        >>=-eq-ok (sign_p2p_handshake p l.private_key_b64 l.my_id initiator l.now) _ h in
      let (plain, ep, h2) = >>=-eq-ok (codec.to_vec _) _ h1 in
      let (r, ee, h3) = >>=-eq-ok (noise.encrypt t plain) _ h2 in (cc, cc)

-- A tunnel that a stranger opened stands under the id of a node whose known public key has signed
-- the handshake for this node: the message that was decrypted from the stream proves it. The tunnel
-- is new, with an empty queue.
pub handle_incoming-Proves :
    {H T : Type 0} (noise : Noise H T) (codec : Codec) (p : Primitives) (l : Local) (m : Mesh)
    (noise_key stream : List ℕ) (o : Opened T)
    → handle_incoming_tcp_tunnel noise codec p l m noise_key stream ≡ ok o
    → (msg : P2pMessage) × Proves p m.known l.my_id msg o.remote
      × (get o.mesh.tunnels o.remote
          ≡ some (record { connection_id = l.connection_id; queue = [] }))
unfolding handle_incoming_tcp_tunnel
handle_incoming-Proves noise codec p l m noise_key stream o h =
    let (r, es, h1) = >>=-eq-ok (accept_session noise codec p l noise_key stream) _ h in
    let (id, ec, h2) = >>=-eq-ok (check_initiator p m.known l.my_id r.0.message) _ h1 in
    let (er, em) = answer_initiator-opens noise codec p l m id r.1 r.2 r.3 o h2 in
    (
      r.0.message,
      check_initiator-Proves p m.known l.my_id o.remote r.0.message (rw er ec),
      rw (em, er) (get-open_tunnel m id l.connection_id),
    )

-- A tunnel that this node opened stands under the id that it dialled, and the answer that came back
-- through the stream proves that id. The tunnel is new, and a request for the topology is the one
-- message in its queue.
pub connect_to_peer-Proves :
    {H T : Type 0} (noise : Noise H T) (codec : Codec) (p : Primitives) (l : Local) (m : Mesh)
    (target : String) (sha256 : List ℕ → List ℕ) (stream : List ℕ) (o : Opened T)
    → connect_to_peer_signaling noise codec p l m target sha256 stream ≡ ok o
    → (msg : P2pMessage) × Proves p m.known l.my_id msg target
      × (o.remote ≡ target)
      × (get o.mesh.tunnels target
          ≡ some (record { connection_id = l.connection_id; queue = request_topology ∷ [] }))
unfolding connect_to_peer_signaling
connect_to_peer-Proves noise codec p l m target sha256 stream o h =
    let (key, ek, h1) = >>=-eq-ok (get_noise_private_key p sha256 l.private_key_b64) _ h in
    let (r, es, h2) = >>=-eq-ok (offer_session noise codec p l target key stream) _ h1 in
    let (id, ec, h3) = >>=-eq-ok (check_responder p m.known l.my_id target r.0.message) _ h2 in
    let (proof, same) = check_responder-Proves p m.known l.my_id target id r.0.message ec in
    let opened = open_tunnel m target l.connection_id in
    let em : send_to opened target request_topology ≡ o.mesh = cc in
    let there =
      send_to_open opened target request_topology _ (get-open_tunnel m target l.connection_id) in
    (r.0.message, rw same at proof, cc, rw (← em, there) (get-insert_self opened.tunnels target _))
