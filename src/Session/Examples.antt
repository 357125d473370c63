-- ===== src/Session/Examples.antt =====
-- The theorems on a session at a node that shares one terminal.
use p2p_common.Common.{
  ◌≡◌, ◌≢◌, ◌⊎◌, refl, sym, ap, ◌∙◌, String, true, false, none, some, List, [], ◌∷◌, ◌++◌, map, All,
  replicate,
}
use p2p_common.Common.Dict.{get, insert, empty}
use p2p_common.Common.Result.{ok}
use p2p_common.Crypto.{handshake_payload, key_bytes, verify_hmac_sha256}
use p2p_common.Crypto.Mac.{verify_hmac_iff}
use p2p_common.Crypto.Toy.{toy, toy-IsSound, unary, signature_of}
use p2p_common.Protocol.Types.{terminal, SharedResource}
use p2p_common.Protocol.Message.{start_terminal, handshake, handshake_response}
use p2p_common.Protocol.Access.{allowed_resource_types, resource_id}
use p2p_common.Registry.{Known, no_known}
use p2p_common.Network.Types.{P2pPeerState, peer_connected}
use p2p_common.Network.Peers.{unknown_node}
use p2p_common.Node.{NodeContext, process_message, access_allowed, is_response, dispatch}
use p2p_common.Session.Types.{Session, World, on_peer_state_changed, command, written}
use p2p_common.Session.Core.{handle_core_message}
use p2p_common.Session.Incoming.{deliver, gate, handle_incoming_p2p_message}
use p2p_common.Session.Laws.{
  Authorized, Authentic, Refused, handle_incoming_p2p_message-Authorized,
  handle_core_message-Authentic,
}
use p2p_common.Session.Response.{HasToken, handle_incoming_p2p_message-HasToken}
use p2p_common.Session.Firewall.{Opens, handle_incoming_p2p_message-Opens}

abbrev shell : SharedResource
shell = record {
  id = "sh";
  name = "Shell";
  resource_type = terminal;
  config = some "secret";
  is_active = true;
  session_token = none;
}

abbrev context : NodeContext
context = record {
  my_info = unknown_node "b" "key" (shell ∷ []);
  peer_id = "a";
  is_authenticated = true;
  remote_resources = λ t. none;
  active_terminals = empty;
  active_socks_streams = [];
  session_keys = insert empty "sh" "10";
  peer_max_chunk_size = 10240;
  discovered_ips = [];
  peer_store = empty;
  outgoing = [];
  handled = [];
  drawn = 0;
}

abbrev session : Session
session = record {
  node = context;
  target_node_id = "a";
  last_pong = 0;
  known = no_known;
  is_open = true;
  events = [];
}

abbrev fresh : Session
fresh = record session { node = record context { is_authenticated = false } }

abbrev directory : Known
directory = record no_known { public_keys = insert empty "a" (unary (replicate 32 7)) }

abbrev world : World
world = record {
  env = record {
    crypto = toy;
    to_bson = λ m. ok (1 ∷ 2 ∷ []);
    token = λ n. "token";
    installed = true;
  };
  now = 6;
  known_at = λ i. directory;
  authenticated_at = λ i. false;
  address = λ ip port. ip;
}

abbrev mac : String
mac = toy.hex_encode (toy.hmac_sha256 (key_bytes toy (toy.hex_decode "10")) (1 ∷ 2 ∷ []))

good : verify_hmac_sha256 toy (1 ∷ 2 ∷ []) "10" mac ≡ true
good = (verify_hmac_iff toy (1 ∷ 2 ∷ []) "10" mac).1 (toy-IsSound.hex_round_trip _)

ran :
    (handle_incoming_p2p_message world session
      (record { mac = some mac; message = start_terminal "sh" })).node.handled
    ≡ start_terminal "sh" ∷ []
unfolding handle_incoming_p2p_message gate deliver handle_core_message process_message
    access_allowed is_response resource_id allowed_resource_types dispatch get insert empty
ran = rw good refl

accepted :
    (handle_incoming_p2p_message world session
      (record { mac = some mac; message = start_terminal "sh" })).node
    ≢ session.node
accepted e = cc (sym ran ∙ ap (λ (c : NodeContext). c.handled) e)

handle_incoming_p2p_message-Authorized_example :
    Authorized world session (start_terminal "sh") (some mac) "sh"
unfolding resource_id
handle_incoming_p2p_message-Authorized_example =
    handle_incoming_p2p_message-Authorized world session (start_terminal "sh") (some mac) "sh" refl
      accepted

abbrev mark : String
mark = unary (signature_of (handshake_payload "a" "b" 5))

handle_core_message-Authentic_example :
    Authentic world fresh mark 5
    ⊎ Refused fresh
        (handle_core_message world fresh (handshake "0.1.0" 5 mark none (some 100) (some 7) none))
handle_core_message-Authentic_example =
    handle_core_message-Authentic world fresh "0.1.0" mark 5 none (some 100) (some 7) none

handle_incoming_p2p_message-HasToken_example :
    let after =
      handle_incoming_p2p_message world fresh
        (record { mac = none; message = handshake_response (shell ∷ []) }) in
    (shared : List SharedResource) × (after.node.is_authenticated ≡ true)
    × (map (λ r. r.id) shared ≡ "sh" ∷ [])
    × All HasToken shared
    × (after.events
        ≡ ([]
            ++ (on_peer_state_changed P2pPeerState.connected
                ∷ command (peer_connected "a" (shell ∷ []))
                ∷ []))
          ++ (written (record { mac = none; message = handshake_response shared }) ∷ []))
handle_incoming_p2p_message-HasToken_example =
    handle_incoming_p2p_message-HasToken world fresh none (shell ∷ []) refl
      (λ m. (1 ∷ 2 ∷ [], refl))

opened :
    (handle_incoming_p2p_message world fresh
      (record { mac = none; message = handshake_response (shell ∷ []) })).node
    ≢ fresh.node
opened e = cc (
    sym (handle_incoming_p2p_message-HasToken_example.1)
    ∙ ap (λ (c : NodeContext). c.is_authenticated) e)

handle_incoming_p2p_message-Opens_example :
    Opens
      (handshake_response (shell ∷ []))
      fresh.node
      (handle_incoming_p2p_message world fresh
        (record { mac = none; message = handshake_response (shell ∷ []) })).node
handle_incoming_p2p_message-Opens_example =
    handle_incoming_p2p_message-Opens world fresh (handshake_response (shell ∷ [])) none refl
      (λ j h. refl) opened
