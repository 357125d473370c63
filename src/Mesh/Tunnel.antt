-- ===== src/Mesh/Tunnel.antt =====
-- The two ends of a tunnel's handshake in p2p-node/src/local_mesh.rs: `handle_incoming_tcp_tunnel`
-- and `connect_to_peer_signaling` from an accepted or connected stream to the tunnel's entry in the
-- table. The Noise library and serde_json are parameters; the clock and the random connection id
-- are values of `Local`. A write to the socket succeeds. Errors are those of the source, with its text in front of the library's.
pub mod Authentic
use Prim.Native.String.{◌++◌ as text_append}
use p2p_common.Common.{
  ℕ, String, Bool, true, false, Option, none, some, List, [], ◌∷◌, ◌++◌, ◌==◌, str_eq,
  if◌then◌else◌, length, ltb,
}
use p2p_common.Common.Dict.{Dict, get, insert}
use p2p_common.Common.Result.{Result, ok, err, ensure, ok_or, ◌>>=◌, ◌>>◌}
use p2p_common.Crypto.{Primitives, sign_p2p_handshake, verify_p2p_handshake}
use p2p_common.Protocol.Types.{Uuid}
use p2p_common.Protocol.Message.{P2pMessage, SecuredP2pEnvelope, handshake, request_topology}
use p2p_common.Registry.{Known, get_known_public_key}
use p2p_common.Mesh.Packets.{read_packet, write_packet}
use p2p_common.Mesh.Messages.{Mesh, TunnelSession, tunnel_established, emit, send_to}

-- snow: a handshake state `H` and a transport state `T`. The payloads of the handshake are empty.
pub record Noise (H T : Type 0) : Type 0 where
  pub build_responder : List ℕ → Result H
  pub build_initiator : List ℕ → Result H
  pub read_message : H → List ℕ → Result H
  pub write_message : H → Result (List ℕ × H)
  pub into_transport_mode : H → Result T
  pub decrypt : T → List ℕ → Result (List ℕ × T)
  pub encrypt : T → List ℕ → Result (List ℕ × T)

-- serde_json on an envelope
pub record Codec : Type 0 where
  pub to_vec : SecuredP2pEnvelope → Result (List ℕ)
  pub from_slice : List ℕ → Result SecuredP2pEnvelope

pub record Local : Type 0 where
  pub my_id : String
  pub private_key_b64 : String
  pub app_version : String
  pub tcp_port : ℕ
  -- the clock, in milliseconds, and `Uuid::new_v4()`
  pub now : ℕ
  pub connection_id : Uuid

-- `map_err(|e| format!("..: {}", e))`
abbrev pub map_err {ℓ} : {A : Type ℓ} → String → Result A → Result A
map_err what (ok a) = ok a
map_err what (err e) = err (text_append what e)

-- `get_noise_private_key`
unfoldable pub get_noise_private_key : Primitives → (List ℕ → List ℕ) → String → Result (List ℕ)
get_noise_private_key p sha256 priv_b64 = do
  decoded ← p.b64_decode priv_b64
  ensure (length decoded == 32) "Invalid private key size"
  ok (sha256 decoded)

-- What stands in a handshake that names its sender: the signature, the time and the sender.
pub record Claim : Type 0 where
  pub signature : String
  pub timestamp_ms : ℕ
  pub node_id : String

unfoldable pub claim_of : P2pMessage → Option Claim
claim_of (handshake _ timestamp signature _ _ _ (some id)) =
    some (record { signature = signature; timestamp_ms = timestamp; node_id = id })
claim_of _ = none

-- The checks of `handle_incoming_tcp_tunnel` on the decrypted message
unfoldable pub check_initiator : Primitives → Known → String → P2pMessage → Result String
check_initiator p known my_id msg = do
  claim ← ok_or (claim_of msg) "Invalid Handshake message"
  key ←
      ok_or (get_known_public_key known claim.node_id)
        (text_append "No known public key for initiator " claim.node_id)
  map_err "handshake signature verification failed: "
      (verify_p2p_handshake p claim.signature key claim.node_id my_id claim.timestamp_ms)
  ok claim.node_id

-- The checks of `connect_to_peer_signaling` on the answer
unfoldable pub check_responder : Primitives → Known → String → String → P2pMessage → Result String
check_responder p known my_id target msg = do
  claim ← ok_or (claim_of msg) "Invalid Handshake response"
  ensure (str_eq claim.node_id target) (
      text_append "Responder node ID mismatch: expected "
        (text_append target (text_append ", got " claim.node_id)))
  key ←
      ok_or (get_known_public_key known claim.node_id)
        (text_append "No known public key for responder " claim.node_id)
  map_err "responder handshake signature verification failed: "
      (verify_p2p_handshake p claim.signature key claim.node_id my_id claim.timestamp_ms)
  ok claim.node_id

abbrev pub own_handshake : Local → String → Option ℕ → SecuredP2pEnvelope
own_handshake l signature port = record {
  mac = none;
  message = handshake l.app_version l.now signature none (some 10240) port (some l.my_id);
}

-- The entry of a new tunnel, and the signal
unfoldable pub open_tunnel : Mesh → String → Uuid → Mesh
open_tunnel m id connection =
    emit
      (record m {
        tunnels = insert m.tunnels id (record { connection_id = connection; queue = [] });
      })
      (tunnel_established id)

-- A tunnel that stands: the tables, the bytes written, the bytes not read yet and the session.
pub record Opened (T : Type 0) : Type 0 where
  pub mesh : Mesh
  pub written : List ℕ
  pub unread : List ℕ
  pub session : T
  pub remote : String

module _ {H T : Type 0} (noise : Noise H T) (codec : Codec) (p : Primitives) (l : Local) where
  -- The responder's half of the Noise exchange, and the first message on the session
  unfoldable pub accept_session :
      List ℕ → List ℕ → Result (SecuredP2pEnvelope × T × List ℕ × List ℕ)
  accept_session noise_key stream = do
    h0 ← noise.build_responder noise_key
    (pkt1, s1) ← map_err "failed reading Msg 1: " (read_packet stream)
    h1 ← map_err "failed reading Msg 1 payload: " (noise.read_message h0 pkt1)
    (pkt2, h2) ← map_err "failed writing Msg 2: " (noise.write_message h1)
    (pkt3, s2) ← map_err "failed reading Msg 3: " (read_packet s1)
    h3 ← map_err "failed reading Msg 3 payload: " (noise.read_message h2 pkt3)
    t0 ← noise.into_transport_mode h3
    (encrypted, s3) ← map_err "failed reading encrypted handshake: " (read_packet s2)
    (plain, t1) ←
        map_err "failed reading transport handshake payload: " (noise.decrypt t0 encrypted)
    envelope ← map_err "failed parsing handshake envelope: " (codec.from_slice plain)
    ok (envelope, t1, write_packet [] pkt2, s3)

  -- The answer to a checked initiator
  unfoldable pub answer_initiator : Mesh → String → T → List ℕ → List ℕ → Result (Opened T)
  answer_initiator m initiator t written unread = do
    signature ← sign_p2p_handshake p l.private_key_b64 l.my_id initiator l.now
    plain ← codec.to_vec (own_handshake l signature (some l.tcp_port))
    (encrypted, t') ← noise.encrypt t plain
    ok (record {
      mesh = open_tunnel m initiator l.connection_id;
      written = write_packet written encrypted;
      unread = unread;
      session = t';
      remote = initiator;
    })

  unfoldable pub handle_incoming_tcp_tunnel : Mesh → List ℕ → List ℕ → Result (Opened T)
  handle_incoming_tcp_tunnel m noise_key stream = do
    (envelope, t, written, unread) ← accept_session noise_key stream
    initiator ← check_initiator p m.known l.my_id envelope.message
    answer_initiator m initiator t written unread

  -- The initiator's half of the Noise exchange, its own handshake, and the answer
  unfoldable pub offer_session :
      String → List ℕ → List ℕ → Result (SecuredP2pEnvelope × T × List ℕ × List ℕ)
  offer_session target noise_key stream = do
    h0 ← noise.build_initiator noise_key
    (pkt1, h1) ← map_err "Msg 1 write error: " (noise.write_message h0)
    (pkt2, s1) ← map_err "Msg 2 read error: " (read_packet stream)
    h2 ← map_err "Msg 2 payload error: " (noise.read_message h1 pkt2)
    (pkt3, h3) ← map_err "Msg 3 write error: " (noise.write_message h2)
    t0 ← noise.into_transport_mode h3
    signature ← sign_p2p_handshake p l.private_key_b64 l.my_id target l.now
    plain ←
        codec.to_vec
          (own_handshake l signature (if ltb 0 l.tcp_port then some l.tcp_port else none))
    (encrypted, t1) ← noise.encrypt t0 plain
    (answer, s2) ← map_err "failed reading responder handshake: " (read_packet s1)
    (opened, t2) ← map_err "failed decrypting responder handshake: " (noise.decrypt t1 answer)
    envelope ← map_err "failed parsing responder handshake: " (codec.from_slice opened)
    ok (envelope, t2, write_packet (write_packet (write_packet [] pkt1) pkt3) encrypted, s2)

  unfoldable pub connect_to_peer_signaling :
      Mesh → String → (List ℕ → List ℕ) → List ℕ → Result (Opened T)
  connect_to_peer_signaling m target sha256 stream = do
    noise_key ← get_noise_private_key p sha256 l.private_key_b64
    (envelope, t, written, unread) ← offer_session target noise_key stream
    responder ← check_responder p m.known l.my_id target envelope.message
    ok (record {
      mesh = send_to (open_tunnel m target l.connection_id) target request_topology;
      written = written;
      unread = unread;
      session = t;
      remote = target;
    })
