-- ===== src/Client/Examples.antt =====
-- The theorems on the client at a channel, a transport and a shared screen.
use p2p_common.Common.{
  suc, zero, ℕ, str_eq, ap, ◌≡◌, ◌≢◌, ◌+◌, any, ◌*◌, map, String, refl, true, false, none, some,
  List, [], ◌∷◌, ◌++◌, keep, arith, length, inl,
}
use p2p_common.Common.Dict.{empty}
use p2p_common.Common.Result.{Result, ok}
use p2p_common.Crypto.Toy.{toy}
use p2p_common.Protocol.Types.{remote_desktop, SharedResource}
use p2p_common.Protocol.Message.{
  P2pMessage, SecuredP2pEnvelope, message, terminal_output, remote_desktop_request,
}
use p2p_common.Limits.{Timeouts, sanitised}
use p2p_common.Limits as limits
use p2p_common.Network.Types.{disconnected, failed}
use p2p_common.Network.Peers.{unknown_node}
use p2p_common.Node.{NodeContext}
use p2p_common.Client.KeepAlive.{opened, watch, ticked, pong_received}
use p2p_common.Client.KeepAlive.Silence.{ticks, ticks-is_open, watch-late}
use p2p_common.Client.KeepAlive.Rounds.{rounds, rounds-sanitised}
use p2p_common.Client.Outbound.{Channel, Wire, run_pipe, on_open}
use p2p_common.Client.Outbound.Stream.{received, received-refines_queue}
use p2p_common.Client.Outbound.Handover.{Handover, begin, Reach, here, next, find_shut, put_off}
use p2p_common.Client.Outbound.Handover.Races.{Reach-Accounted, Accounted, Stranded, races}
use p2p_common.Client.Transport.{Transport, Recovery, on_peer_connection_state_change, ice_restart}
use p2p_common.Client.Transport.Laws.{
  is_disconnect, ending, node_after, ends, on_peer_connection_state_change-ends,
  ice_restart-one_side,
}
use p2p_common.Client.Desktop.{
  StreamKey, Host, Desk, on_desktop_message, put_key, key_eq, stream_at, drop_client,
}
use p2p_common.Client.Desktop.Aligned.{Aligned, after_message, Host-Aligned}
use p2p_common.Client.Desktop.Lifetime.{
  is_stop, drop_client-stream_at, after_message-Allowed, Allowed,
}

abbrev encode_any : P2pMessage → Result (List ℕ)
encode_any msg = ok (1 ∷ [])

-- Pings every 15 seconds; none is answered in 45.
ticks-is_open_example : (watch encode_any 45000 (opened 0) (ticks 5 15000 15000)).is_open ≡ false
ticks-is_open_example =
    ticks-is_open encode_any 45000 15000 4 15000 (opened 0) refl (omega arith) (omega arith)
      (omega arith)

watch-late_example :
    let after =
      watch encode_any 45000
        (opened 1000)
        (ticked 51000 ∷ pong_received 51000 ∷ ticked 66000 ∷ []) in
    (after.is_open ≡ false) × (after.pings ≡ [])
watch-late_example =
    watch-late encode_any 45000 15000 1000 51000 (pong_received 51000 ∷ ticked 66000 ∷ [])
      (omega arith) (omega arith) (omega arith) (inl (omega arith))

abbrev short : Timeouts
short = record limits.default { ping_interval_secs = 20; pong_timeout_ms = 5000 }

rounds-sanitised_example :
    (watch encode_any (sanitised short).pong_timeout_ms (opened 1000) (
      rounds
        (false ∷ false ∷ true ∷ false ∷ [])
        ((sanitised short).ping_interval_secs * 1000)
        11000)).is_open
    ≡ true
unfolding sanitised
rounds-sanitised_example =
    rounds-sanitised encode_any short (false ∷ false ∷ true ∷ false ∷ []) 1000 11000
      (omega arith, (omega arith, (omega arith, tt))) (omega arith) (omega arith) (omega arith)

abbrev plain : String → SecuredP2pEnvelope
plain id = record { mac = none; message = terminal_output id [] }

abbrev two_bytes : List ℕ
two_bytes = 7 ∷ 8 ∷ []

abbrev wire : Wire
wire = record {
  env = record { crypto = toy; to_bson = encode_any; token = λ n. "token"; installed = true };
  encode = λ e. ok two_bytes;
  is_authenticated_at = λ i. true;
  session_keys_at = λ i. empty;
  peer_max_chunk_size = 10240;
}

abbrev fresh : Channel
fresh = record { is_open = false; accepts = λ i. true; sent = [] }

filled : two_bytes ≢ []
filled e = cc e

-- A message is sent before the handshake, and one between the two that were put off.
abbrev meanwhile : ℕ → List SecuredP2pEnvelope
meanwhile zero = plain "d" ∷ []
meanwhile (suc (suc (suc zero))) = plain "e" ∷ []
meanwhile (suc _) = []

received-refines_queue_example :
    let early =
      run_pipe wire
        (record { channel = some fresh; pending_messages = [] })
        (map message (plain "a" ∷ plain "b" ∷ [])) in
    let opened = on_open wire (plain "hello") fresh (λ i. map message (meanwhile i)) early in
    let done = run_pipe wire opened (map message (plain "c" ∷ [])) in
    (received done
      ≡ some (
          map
            (λ e. two_bytes)
            (plain "d" ∷ plain "hello" ∷ plain "a" ∷ plain "e" ∷ plain "b" ∷ plain "c" ∷ [])))
    × (done.pending_messages ≡ [])
received-refines_queue_example =
    received-refines_queue wire (λ e. two_bytes) (plain "hello") (plain "a" ∷ plain "b" ∷ [])
      (plain "c" ∷ []) meanwhile (some fresh) fresh (λ e. (refl, filled)) refl refl (λ i. refl) refl

abbrev put_by : Handover
put_by = record begin { pending_messages = plain "a" ∷ []; taken = plain "a" ∷ [] }

Reach-Accounted_example : Accounted (λ m. true) put_by
Reach-Accounted_example =
    Reach-Accounted (λ m. true)
      (next (next here (find_shut begin (plain "a") refl refl)) (
        put_off (record begin { in_hand = some (plain "a"); taken = plain "a" ∷ [] }) (plain "a")
          refl))

races_example :
    ((h : Handover) × Reach begin h
      × ((later : Handover) → Reach h later → Stranded (plain "a") later))
    × ((h : Handover) × Reach begin h × (h.written ≡ plain "a" ∷ plain "hello" ∷ []))
races_example = races (plain "a") (plain "hello")

abbrev screen : SharedResource
screen = record {
  id = "screen";
  name = "Screen";
  resource_type = remote_desktop;
  config = none;
  is_active = true;
  session_token = none;
}

abbrev context : NodeContext
context = record {
  my_info = unknown_node "me" "key" (screen ∷ []);
  peer_id = "peer";
  is_authenticated = true;
  remote_resources = λ t. none;
  active_terminals = empty;
  active_socks_streams = [];
  session_keys = empty;
  peer_max_chunk_size = 10240;
  discovered_ips = [];
  peer_store = empty;
  outgoing = [];
  handled = [];
  drawn = 0;
}

abbrev recovery : String → String → Recovery
recovery me peer = record {
  my_id = me;
  target = peer;
  connection_id = 5;
  debug = λ s. "Disconnected";
  after_grace = disconnected;
  create_offer = ok tt;
  set_local_description = ok tt;
  local_description = some "sdp";
  after_window = failed;
}

abbrev transport : Transport
transport = record { node = context; events = [] }

on_peer_connection_state_change-ends_example :
    let r = recovery "a" "b" in
    let after = on_peer_connection_state_change r transport disconnected in
    (keep is_disconnect after.events
      ≡ keep is_disconnect transport.events ++ ending r (ends r disconnected))
    × (after.node ≡ node_after (ends r disconnected) transport.node)
on_peer_connection_state_change-ends_example =
    on_peer_connection_state_change-ends (recovery "a" "b") transport disconnected

differ : (recovery "a" "b").my_id ≢ (recovery "a" "b").target
differ e = let f : true ≡ false = ap (str_eq "a") e in cc f

ice_restart-one_side_example :
    length (ice_restart (recovery "a" "b")) + length (ice_restart (recovery "b" "a")) ≡ 1
ice_restart-one_side_example =
    ice_restart-one_side (recovery "a" "b") (recovery "b" "a") refl refl differ
      ("sdp", refl, refl, refl) ("sdp", refl, refl, refl)

abbrev key : StreamKey
key = record { connection = 5; resource = "screen" }

abbrev other_key : StreamKey
other_key = record { connection = 6; resource = "screen" }

abbrev host : Host
host = record {
  streams = (other_key, 1) ∷ [];
  original_sizes = (other_key, true) ∷ [];
  bitrates = (other_key, 800000) ∷ [];
  node = context;
  effects = [];
}

abbrev desk : Desk
desk = record {
  connection_id = 5;
  has_provider = true;
  primary_screen_size = some (800, 600);
  add_track = ok 2;
  decode = λ text. ok [];
  from_utf8 = λ bytes. ok "sdp";
  encode = λ sdp. sdp;
  set_remote_description = λ sdp. ok tt;
  create_answer = λ sdp. ok "answer";
  set_local_description = λ sdp. ok tt;
  local_description = λ sdp. some sdp;
}

abbrev start : P2pMessage
start = remote_desktop_request "screen" true false none false

Host-Aligned_example : Aligned (after_message desk host start) × Aligned (drop_client 6 host)
Host-Aligned_example = Host-Aligned desk host start 6 (refl, refl)

started : stream_at key (after_message desk host start).streams ≡ some 2
unfolding on_desktop_message stream_at put_key key_eq
started = refl

after_message-Allowed_example : Allowed desk host start key
after_message-Allowed_example = after_message-Allowed desk host start key 2 started

shown : stream_at other_key host.streams ≡ some 1
unfolding stream_at key_eq
shown = refl

drop_client-stream_at_example : any (is_stop other_key) (drop_client 6 host).effects ≡ true
drop_client-stream_at_example = (drop_client-stream_at 6 host other_key).1 1 shown refl
