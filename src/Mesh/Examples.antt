-- ===== src/Mesh/Examples.antt =====
-- The theorems on local_mesh.rs at concrete inputs.
use p2p_common.Common.{
  ℕ, zero, suc, ◌≡◌, refl, true, none, some, List, [], ◌∷◌, ◌++◌, arith, replicate, length,
  length-replicate, str_eq, if◌then◌else◌, inr,
}
use p2p_common.Common.Dict.{get, insert, empty}
use p2p_common.Common.Result.{ok}
use p2p_common.Crypto.{Primitives, sign_p2p_handshake, verify_p2p_handshake}
use p2p_common.Crypto.Toy.{toy}
use p2p_common.Protocol.Message.{
  P2pMessage, handshake, ping, rtc_signal, request_topology, response_topology,
}
use p2p_common.Protocol.Types.{NodeTopologyInfo}
use p2p_common.Registry.{no_known, get_known_public_key}
use p2p_common.Mesh.Packets.{read_packet, write_packet}
use p2p_common.Mesh.Packets.Laws.{read-write_packet}
use p2p_common.Mesh.Messages.{Mesh, handle_tunnel_message, send_to}
use p2p_common.Mesh.Messages.Laws.{handle_tunnel_message-known, Extends}
use p2p_common.Mesh.Tunnel.{
  accept_session, check_initiator, answer_initiator, claim_of, offer_session, check_responder,
  get_noise_private_key, Noise, Codec, Local, Opened, open_tunnel, handle_incoming_tcp_tunnel,
  connect_to_peer_signaling,
}
use p2p_common.Mesh.Tunnel.Authentic.{Proves, handle_incoming-Proves, connect_to_peer-Proves}
use p2p_common.Mesh.Loop.{Event, outgoing, packet, read_failed, run_tunnel_loop}
use p2p_common.Mesh.Loop.Laws.{run_tunnel_loop-Extends}

read-write_packet_example :
    read_packet (write_packet [] (5 ∷ 6 ∷ []) ++ (7 ∷ [])) ≡ ok (5 ∷ 6 ∷ [], 7 ∷ [])
read-write_packet_example = read-write_packet (5 ∷ 6 ∷ []) (7 ∷ []) (omega arith)

-- 11 MB of zeros
abbrev large : List ℕ
large = replicate 11000000 0

length-large : length large ≡ 11000000
length-large = length-replicate 11000000 0

abbrev mesh : Mesh
mesh = record {
  tunnels =
      insert (insert empty "b" (record { connection_id = 1; queue = [] })) "c"
        (record { connection_id = 2; queue = ping 3 ∷ [] });
  known = record no_known { public_keys = insert empty "b" "key" };
  peers = empty;
  signals = some [];
}

abbrev claimed : NodeTopologyInfo
claimed = record { id = "b"; name = "b"; public_key = "other"; last_known_addresses = [] }

handle_tunnel_message-known_example :
    get_known_public_key
      (handle_tunnel_message mesh (response_topology (claimed ∷ [])) "c" "me").known
      "b"
    ≡ some "key"
unfolding get_known_public_key get insert empty
handle_tunnel_message-known_example =
    handle_tunnel_message-known mesh (response_topology (claimed ∷ [])) "c" "me" "b" "key" refl

abbrev signal : P2pMessage
signal = rtc_signal "b" "offer" "sdp" none none

abbrev zeros : ℕ → List ℕ
zeros zero = []
zeros (suc n) = 0 ∷ zeros n

-- Libraries that accept everything: what is decrypted is a handshake of "b".
abbrev noise : Noise (Unit {0}) (Unit {0})
noise = record {
  build_responder = λ k. ok tt;
  build_initiator = λ k. ok tt;
  read_message = λ h bytes. ok tt;
  write_message = λ h. ok ([], tt);
  into_transport_mode = λ h. ok tt;
  decrypt = λ t bytes. ok (bytes, tt);
  encrypt = λ t bytes. ok (bytes, tt);
}

abbrev hello : P2pMessage
hello = handshake "0.1.0" 5 "sig" none none none (some "b")

abbrev codec : Codec
codec = record {
  to_vec = λ e. ok [];
  from_slice = λ bytes. ok (record { mac = none; message = hello });
}

abbrev lenient : Primitives
lenient = record toy {
  b64_encode = λ bytes. "sig";
  b64_decode = λ s. if str_eq s "key" then ok (zeros 32) else ok (zeros 64);
  verify = λ key message signature. ok tt;
}

abbrev local : Local
local = record {
  my_id = "me";
  private_key_b64 = "key";
  app_version = "0.1.0";
  tcp_port = 9;
  now = 5;
  connection_id = 42;
}

abbrev no_key : List ℕ
no_key = []

abbrev stream : List ℕ
stream = zeros 12

abbrev responded : Opened (Unit {0})
responded = record {
  mesh = open_tunnel mesh "b" 42;
  written = write_packet (write_packet [] []) [];
  unread = [];
  session = tt;
  remote = "b";
}

accepted : handle_incoming_tcp_tunnel noise codec lenient local mesh no_key stream ≡ ok responded
unfolding handle_incoming_tcp_tunnel accept_session check_initiator answer_initiator claim_of
    read_packet get_known_public_key get insert empty sign_p2p_handshake verify_p2p_handshake
accepted = refl

handle_incoming-Proves_example :
    (msg : P2pMessage) × Proves lenient mesh.known "me" msg "b"
    × (get responded.mesh.tunnels "b" ≡ some (record { connection_id = 42; queue = [] }))
handle_incoming-Proves_example =
    handle_incoming-Proves noise codec lenient local mesh no_key stream responded accepted

abbrev dialled : Opened (Unit {0})
dialled = record {
  mesh = send_to (open_tunnel mesh "b" 42) "b" request_topology;
  written = write_packet (write_packet (write_packet [] []) []) [];
  unread = 0 ∷ 0 ∷ 0 ∷ 0 ∷ [];
  session = tt;
  remote = "b";
}

answered :
    connect_to_peer_signaling noise codec lenient local mesh "b" (λ bytes. bytes) stream
    ≡ ok dialled
unfolding connect_to_peer_signaling offer_session check_responder get_noise_private_key claim_of
    read_packet get_known_public_key get insert empty sign_p2p_handshake verify_p2p_handshake
answered = refl

connect_to_peer-Proves_example :
    (msg : P2pMessage) × Proves lenient mesh.known "me" msg "b"
    × (dialled.remote ≡ "b")
    × (get dialled.mesh.tunnels "b"
        ≡ some (record { connection_id = 42; queue = request_topology ∷ [] }))
connect_to_peer-Proves_example =
    connect_to_peer-Proves noise codec lenient local mesh "b" (λ bytes. bytes) stream dialled
      answered

abbrev events : List Event
events = outgoing true ∷ packet (some request_topology) ∷ read_failed ∷ []

-- The loop of an old connection with "c", after a newer one took its place
run_tunnel_loop-Extends_example :
    Extends (get mesh.tunnels "c") (get (run_tunnel_loop events mesh "c" "me" 1).0.tunnels "c")
unfolding get insert empty
run_tunnel_loop-Extends_example =
    run_tunnel_loop-Extends events mesh "c" "me" 1 "c"
      (inr (record { connection_id = 2; queue = ping 3 ∷ [] }, refl, λ e. omega arith))

ended : (run_tunnel_loop events mesh "c" "me" 2).1 ≡ some []
unfolding run_tunnel_loop
ended = refl
