-- ===== src/Node/Examples.antt =====
-- The theorems on the node context at a node that shares one terminal.
use p2p_common.Common.{◌≡◌, ◌≢◌, refl, ap, String, true, none, some, [], ◌∷◌}
use p2p_common.Common.Dict.{get, insert, empty}
use p2p_common.Common.Result.{ok}
use p2p_common.Crypto.{verify_hmac_sha256}
use p2p_common.Crypto.Toy.{toy, toy-IsSound}
use p2p_common.Protocol.Types.{terminal, SharedResource}
use p2p_common.Protocol.Message.{message, start_terminal, terminal_output}
use p2p_common.Protocol.Access.{allowed_resource_types, resource_id}
use p2p_common.Network.Peers.{unknown_node}
use p2p_common.Node.{
  NodeContext, Env, process_message, access_allowed, is_response, dispatch, send_msg,
}
use p2p_common.Node.Access.{Shares, process_message-Shares, send_msg-verifies}

abbrev shell : SharedResource
shell = record {
  id = "sh";
  name = "Shell";
  resource_type = terminal;
  config = some "secret";
  is_active = true;
  session_token = none;
}

abbrev context : NodeContext
context = record {
  my_info = unknown_node "me" "key" (shell ∷ []);
  peer_id = "peer";
  is_authenticated = true;
  remote_resources = λ t. none;
  active_terminals = empty;
  active_socks_streams = [];
  session_keys = insert empty "sh" "10";
  peer_max_chunk_size = 10240;
  discovered_ips = [];
  peer_store = empty;
  outgoing = [];
  handled = [];
  drawn = 0;
}

abbrev env : Env
env = record {
  crypto = toy;
  to_bson = λ m. ok (1 ∷ 2 ∷ []);
  token = λ n. "token";
  installed = true;
}

acts : process_message env context (start_terminal "sh") ≢ context
unfolding process_message access_allowed is_response resource_id allowed_resource_types dispatch
acts e = cc (ap (λ (c : NodeContext). c.handled) e)

process_message-Shares_example : Shares context "sh" (allowed_resource_types (start_terminal "sh"))
unfolding is_response resource_id
process_message-Shares_example =
    process_message-Shares env context (start_terminal "sh") "sh" refl refl acts

send_msg-verifies_example :
    (mac : String) × (send_msg env context (terminal_output "sh" []) ≡ record context {
      outgoing = message (record { mac = some mac; message = terminal_output "sh" [] }) ∷ [];
    })
    × (verify_hmac_sha256 toy (1 ∷ 2 ∷ []) "10" mac ≡ true)
unfolding resource_id get insert empty
send_msg-verifies_example =
    send_msg-verifies env toy-IsSound context (terminal_output "sh" []) "sh" "10" (1 ∷ 2 ∷ []) refl
      refl refl
