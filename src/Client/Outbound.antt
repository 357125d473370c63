-- ===== src/Client/Outbound.antt =====
-- The way out of a client: the task that drains `outgoing_tx`, the writes to the data channel
-- (`send_chunked_binary`), and what the channel writes when it opens (`on_open`, in `new` and in
-- `create_offer`). The waits of the token bucket and for the channel's buffer change no state.
pub mod Frames
pub mod Stream
pub mod Handover
use p2p_common.Common.{
  ℕ, zero, suc, ◌+◌, String, Bool, true, false, Option, none, some, List, [], ◌∷◌, ◌++◌, ltb, ◌==◌,
  if◌then◌else◌, length,
}
use p2p_common.Common.Dict.{Dict, get}
use p2p_common.Common.Result.{Result, ok, err}
use p2p_common.Crypto.{sign_p2p_handshake}
use p2p_common.Protocol.Types.{NodeInfo}
use p2p_common.Protocol.Message.{
  P2pMessage, SecuredP2pEnvelope, OutboundP2pPayload, message, unsigned_message, binary, handshake,
}
use p2p_common.Protocol.Access.{resource_id}
use p2p_common.Chunking.{frame_chunks}
use p2p_common.Node.{Env, mac_with}

-- A data channel: what was written, and which of its writes the library takes.
pub record Channel : Type 0 where
  pub is_open : Bool
  pub accepts : ℕ → Bool
  pub sent : List (List ℕ)

-- The frames are written up to the first that the library refuses.
unfoldable pub send_frames : Channel → List (List ℕ) → Channel
send_frames ch [] = ch
send_frames ch (frame ∷ frames) =
    let rest = send_frames (record ch { sent = ch.sent ++ frame ∷ [] }) frames in
    if ch.accepts (length ch.sent) then rest else ch

unfoldable pub send_chunked_binary : Channel → List ℕ → ℕ → Channel
unfolding send_frames
send_chunked_binary ch bytes max_chunk_payload =
    send_frames ch (frame_chunks bytes max_chunk_payload)

-- What the task reads of its surroundings. The flag and the keys are read anew at each of its polls.
pub record Wire : Type 0 where
  pub env : Env
  -- `to_bson_vec` of an envelope
  pub encode : SecuredP2pEnvelope → Result (List ℕ)
  pub is_authenticated_at : ℕ → Bool
  pub session_keys_at : ℕ → Dict String
  pub peer_max_chunk_size : ℕ

-- The polls for the key of a resource; one unit of fuel for each.
unfoldable pub find_session_key : (ℕ → Bool) → (ℕ → Dict String) → String → ℕ → ℕ → Option String
find_session_key authenticated_at keys_at id i zero = none
find_session_key authenticated_at keys_at id i (suc left) =
    let later = find_session_key authenticated_at keys_at id (i + 1) left in
    if authenticated_at i
    then elim (get (keys_at i) id) [ some key ↦ some key | none ↦ later ]
    else later

abbrev pub sealed_with : Wire → P2pMessage → Option String → Option SecuredP2pEnvelope
sealed_with w msg none = none
sealed_with w msg (some key) =
    some (record { mac = mac_with w.env.crypto key (w.env.to_bson msg); message = msg })

abbrev pub sealed_for : Wire → P2pMessage → Option String → Option SecuredP2pEnvelope
sealed_for w msg none = some (record { mac = none; message = msg })
sealed_for w msg (some id) =
    sealed_with w msg (find_session_key w.is_authenticated_at w.session_keys_at id 0 100)

-- `none`: the packet is dropped, for want of a key.
unfoldable pub sealed : Wire → P2pMessage → Option SecuredP2pEnvelope
unfolding find_session_key
sealed w msg = sealed_for w msg (resource_id msg)

pub record Pipe : Type 0 where
  -- `data_channel`
  pub channel : Option Channel
  pub pending_messages : List SecuredP2pEnvelope

abbrev pub write : Wire → ℕ → Channel → SecuredP2pEnvelope → Channel
write w size ch envelope = elim (w.encode envelope) [
  | err e ↦ ch
  | ok bytes ↦ send_chunked_binary ch bytes size
]

abbrev pub put_off : Pipe → SecuredP2pEnvelope → Pipe
put_off p envelope = record p { pending_messages = p.pending_messages ++ envelope ∷ [] }

abbrev pub pass_to : Wire → Pipe → SecuredP2pEnvelope → Option Channel → Pipe
pass_to w p envelope none = put_off p envelope
pass_to w p envelope (some ch) =
    if ch.is_open
    then record p { channel = some (write w w.peer_max_chunk_size ch envelope) }
    else put_off p envelope

abbrev pub pass : Wire → Pipe → SecuredP2pEnvelope → Pipe
pass w p envelope = pass_to w p envelope p.channel

-- A binary payload is lost where no channel is open.
abbrev pub pass_binary : Wire → Pipe → List ℕ → Option Channel → Pipe
pass_binary w p bytes none = p
pass_binary w p bytes (some ch) =
    let size = if w.peer_max_chunk_size == 0 then 10240 else w.peer_max_chunk_size in
    if ch.is_open then record p { channel = some (send_chunked_binary ch bytes size) } else p

abbrev pub pass_sealed : Wire → Pipe → Option SecuredP2pEnvelope → Pipe
pass_sealed w p none = p
pass_sealed w p (some envelope) = pass w p envelope

-- One round of the task
unfoldable pub pipe_step : Wire → Pipe → OutboundP2pPayload → Pipe
unfolding sealed send_chunked_binary
pipe_step w p (unsigned_message msg) = pass_sealed w p (sealed w msg)
pipe_step w p (message envelope) = pass w p envelope
pipe_step w p (binary bytes) = pass_binary w p bytes p.channel

unfoldable pub run_pipe : Wire → Pipe → List OutboundP2pPayload → Pipe
unfolding pipe_step
run_pipe w p [] = p
run_pipe w p (payload ∷ payloads) = run_pipe w (pipe_step w p payload) payloads

abbrev pub port_or_none : ℕ → Option ℕ
port_or_none port = if ltb 0 port then some port else none

abbrev pub signature_or_invalid : Result String → String
signature_or_invalid (ok signature) = signature
signature_or_invalid (err e) = "INVALID_SIG"

unfoldable pub opening_handshake : Wire → NodeInfo → String → String → ℕ → ℕ → SecuredP2pEnvelope
opening_handshake w my_info private_key target now local_port = record {
  mac = none;
  message =
      handshake my_info.version now
        (signature_or_invalid (sign_p2p_handshake w.env.crypto private_key my_info.id target now))
        none (some 10240) (port_or_none local_port) (some my_info.id);
}

-- A write of the callback, which holds the channel that the pipe has
abbrev pub write_own : Wire → SecuredP2pEnvelope → Pipe → Pipe
write_own w envelope p = elim (p.channel) [
  | none ↦ p
  | some ch ↦ record p { channel = some (write w 10240 ch envelope) }
]

-- Before each of the callback's steps from the i-th on, the task has sent the payloads `busy i`.
abbrev pub flush : Wire → (ℕ → List OutboundP2pPayload) → ℕ → List SecuredP2pEnvelope → Pipe → Pipe
flush w busy i [] p = p
flush w busy i (envelope ∷ envelopes) p =
    flush w busy (suc i) envelopes (write_own w envelope (run_pipe w p (busy i)))

-- The channel opens: the handshake goes out, then what was put off is taken and written, while the task
-- goes on: it sends `busy 0` before the handshake, `busy 1` before what was put off is taken, and `busy (2 + i)`
-- before the i-th of these is written. Each of its rounds is one step here; Handover takes the
-- look at the channel and the putting off apart. The ping task is in KeepAlive.
unfoldable pub on_open :
    Wire → SecuredP2pEnvelope → Channel → (ℕ → List OutboundP2pPayload) → Pipe → Pipe
unfolding send_chunked_binary run_pipe
on_open w hello ch busy p =
    let opened = record p { channel = some (record ch { is_open = true }) } in
    let greeted = run_pipe w (write_own w hello (run_pipe w opened (busy 0))) (busy 1) in
    flush w busy 2 greeted.pending_messages (record greeted { pending_messages = [] })
