-- ===== src/Client/Desktop.antt =====
-- Remote desktop in client-core/src/rtc/mod.rs (`feature-rdesk`), behind the checks of Session: the streams
-- of the host, with their parameters, and what the messages and the drop of a client do to them. The loop
-- of a stream, which captures and encodes, is one effect.
pub mod Keys
pub mod Aligned
pub mod Lifetime
use p2p_common.Common.{
  ℕ, String, Bool, true, false, not, ◌&&◌, Option, none, some, List, [], ◌∷◌, ◌++◌, ◌==◌, str_eq,
  if◌then◌else◌, keep, map,
}
use p2p_common.Common.Result.{Result, ok, err, ◌>>=◌, ◌>>◌}
use p2p_common.Protocol.Types.{Uuid, DesktopInputEvent}
use p2p_common.Protocol.Message.{
  P2pMessage, OutboundP2pPayload, unsigned_message, remote_desktop_request, remote_desktop_response,
  remote_desktop_sdp_offer, remote_desktop_sdp_answer, remote_desktop_input,
}
use p2p_common.Node.{NodeContext, send, serves_desktop}

pub record StreamKey : Type 0 where
  pub connection : Uuid
  pub resource : String

unfoldable pub key_eq : StreamKey → StreamKey → Bool
key_eq j k = j.connection == k.connection && str_eq j.resource k.resource

-- `HashMap<StreamKey, _>`
abbrev pub KeyMap : Type 0 → Type 0
KeyMap V = List (StreamKey × V)

unfoldable pub stream_at : {V : Type 0} → StreamKey → KeyMap V → Option V
stream_at k [] = none
stream_at k ((j, v) ∷ m) = if key_eq j k then some v else stream_at k m

unfoldable pub put_key : {V : Type 0} → StreamKey → V → KeyMap V → KeyMap V
put_key k v [] = (k, v) ∷ []
put_key k v ((j, w) ∷ m) = if key_eq j k then (j, v) ∷ m else (j, w) ∷ put_key k v m

unfoldable pub drop_key : {V : Type 0} → StreamKey → KeyMap V → KeyMap V
drop_key k [] = []
drop_key k ((j, w) ∷ m) = if key_eq j k then drop_key k m else (j, w) ∷ drop_key k m

-- A write through the shared flag of a key, if the map holds it
unfoldable pub store_at : {V : Type 0} → StreamKey → V → KeyMap V → KeyMap V
store_at k v [] = []
store_at k v ((j, w) ∷ m) = (if key_eq j k then (j, v) else (j, w)) ∷ store_at k v m

pub data DesktopEffect : Type 0 where
  -- `add_track`, with the task that captures, encodes and writes
  stream_started : StreamKey → Bool → DesktopEffect
  -- the stop flag is set, the task aborted and the track removed
  stream_stopped : StreamKey → DesktopEffect
  renegotiated : String → DesktopEffect
  input_applied : DesktopInputEvent → DesktopEffect
  -- the descriptions that the peer connection takes
  remote_offer remote_answer local_answer : (sdp : String) → DesktopEffect

pub record Host : Type 0 where
  pub streams : KeyMap ℕ
  pub original_sizes : KeyMap Bool
  pub bitrates : KeyMap ℕ
  pub node : NodeContext
  pub effects : List DesktopEffect

-- The answers of the provider of the desktop, of `add_track`, which gives the id of a sender, of the peer
-- connection and of base64. A description is its SDP.
pub record Desk : Type 0 where
  pub connection_id : Uuid
  pub has_provider : Bool
  pub primary_screen_size : Option (ℕ × ℕ)
  pub add_track : Result ℕ
  pub decode : String → Result (List ℕ)
  pub from_utf8 : List ℕ → Result String
  pub encode : String → String
  pub set_remote_description : String → Result (Unit {0})
  pub create_answer : String → Result String
  pub set_local_description : String → Result (Unit {0})
  pub local_description : String → Option String

abbrev pub act : Host → List DesktopEffect → Host
act h es = record h { effects = h.effects ++ es }

abbrev pub respond_with : Host → P2pMessage → Host
respond_with h msg = record h { node = send h.node (unsigned_message msg) }

abbrev pub width_of : Option (ℕ × ℕ) → Option ℕ
width_of none = none
width_of (some (w, h)) = some w

abbrev pub height_of : Option (ℕ × ℕ) → Option ℕ
height_of none = none
height_of (some (w, h)) = some h

abbrev pub screen_of : Desk → Bool → Option (ℕ × ℕ)
screen_of d start = if start && d.has_provider then d.primary_screen_size else none

abbrev pub add_stream : Desk → Host → StreamKey → Bool → ℕ → Bool → Result ℕ → Host
add_stream d h key original bitrate force (err e) = h
add_stream d h key original bitrate force (ok sender) =
    act
      (record h {
        streams = put_key key sender h.streams;
        original_sizes = put_key key original h.original_sizes;
        bitrates = put_key key bitrate h.bitrates;
      })
      (stream_started key force ∷ renegotiated key.resource ∷ [])

abbrev pub start_stream : Desk → Host → StreamKey → Bool → ℕ → Bool → Option ℕ → Host
start_stream d h key original bitrate force (some sender) = record h {
  original_sizes = store_at key original h.original_sizes;
  bitrates = store_at key bitrate h.bitrates;
}
start_stream d h key original bitrate force none =
    add_stream d h key original bitrate force d.add_track

abbrev pub stop_stream : Host → StreamKey → Option ℕ → Host
stop_stream h key none = h
stop_stream h key (some sender) =
    act
      (record h {
        streams = drop_key key h.streams;
        original_sizes = drop_key key h.original_sizes;
        bitrates = drop_key key h.bitrates;
      })
      (stream_stopped key ∷ [])

abbrev pub bitrate_or_default : Option ℕ → ℕ
bitrate_or_default none = 800000
bitrate_or_default (some bps) = bps

unfoldable pub on_desktop_request : Desk → Host → String → Bool → Bool → Option ℕ → Bool → Host
unfolding stream_at put_key drop_key store_at
on_desktop_request d h id start original bitrate_bps force =
    let key : StreamKey = record { connection = d.connection_id; resource = id } in
    let screen = screen_of d start in
    let h1 =
      respond_with h (remote_desktop_response id true none (width_of screen) (height_of screen)) in
    let found = stream_at key h.streams in
    if serves_desktop h.node id
    then (if start
        then start_stream d h1 key original (bitrate_or_default bitrate_bps) force found
        else act (stop_stream h1 key found) (renegotiated id ∷ []))
    else respond_with h (
        remote_desktop_response id false (some "Remote desktop service is inactive or unavailable")
          none none)

-- The text that a peer sends as its description
abbrev pub sdp_of : Desk → String → Result String
sdp_of d text = do bytes ← d.decode text; d.from_utf8 bytes

abbrev pub answer_of : Desk → String → Result String
answer_of d sdp = do
  d.set_remote_description sdp
  answer ← d.create_answer sdp
  d.set_local_description answer
  ok answer

abbrev pub local_effects : Result String → List DesktopEffect
local_effects (err e) = []
local_effects (ok answer) = local_answer answer ∷ []

abbrev pub offer_effects : Desk → Result String → List DesktopEffect
offer_effects d (err e) = []
offer_effects d (ok sdp) = elim (d.set_remote_description sdp) [
  | err e ↦ []
  | ok u ↦ remote_offer sdp ∷ local_effects (answer_of d sdp)
]

abbrev pub answer_effects : Desk → Result String → List DesktopEffect
answer_effects d (err e) = []
answer_effects d (ok sdp) = elim (d.set_remote_description sdp) [
  | err e ↦ []
  | ok u ↦ remote_answer sdp ∷ []
]

-- What is sent for an offer
abbrev pub sdp_answer : Desk → String → String → Option P2pMessage
sdp_answer d id text = elim (sdp_of d text) [
  | err e ↦ none
  | ok sdp ↦ elim (answer_of d sdp) [
    | err e ↦ none
    | ok answer ↦ elim (d.local_description answer) [
      | none ↦ none
      | some kept ↦ some (remote_desktop_sdp_answer id (d.encode kept))
    ]
  ]
]

abbrev pub respond_if : NodeContext → Option P2pMessage → NodeContext
respond_if c none = c
respond_if c (some msg) = send c (unsigned_message msg)

-- The task of a `RemoteDesktopSdpOffer`
abbrev pub on_sdp_offer : Desk → Host → String → String → Host
on_sdp_offer d h id text = record h {
  node = respond_if h.node (sdp_answer d id text);
  effects = h.effects ++ offer_effects d (sdp_of d text);
}

-- The task of a `RemoteDesktopSdpAnswer`
abbrev pub on_sdp_answer : Desk → Host → String → Host
on_sdp_answer d h text = record h { effects = h.effects ++ answer_effects d (sdp_of d text) }

-- The messages that the feature takes; `none`: the message goes on to `on_p2p_message` and the node.
unfoldable pub on_desktop_message : Desk → Host → P2pMessage → Option Host
unfolding on_desktop_request
on_desktop_message d h (remote_desktop_request id start original bitrate_bps force) =
    some (on_desktop_request d h id start original bitrate_bps force)
on_desktop_message d h (remote_desktop_sdp_offer id sdp) = some (on_sdp_offer d h id sdp)
on_desktop_message d h (remote_desktop_sdp_answer id sdp) = some (on_sdp_answer d h sdp)
on_desktop_message d h (remote_desktop_input id event) =
    some (if d.has_provider then act h (input_applied event ∷ []) else h)
on_desktop_message d h msg = none

abbrev pub is_of : Uuid → StreamKey → Bool
is_of conn_id key = key.connection == conn_id

abbrev pub keys_of : {V : Type 0} → KeyMap V → List StreamKey
keys_of m = map (λ e. e.0) m

unfoldable pub stop_all : Host → List StreamKey → Host
unfolding stream_at drop_key
stop_all h [] = h
stop_all h (key ∷ keys) =
    let stopped : List DesktopEffect = elim (stream_at key h.streams) [
      | none ↦ []
      | some s ↦ stream_stopped key ∷ []
    ] in
    stop_all
      (record h {
        streams = drop_key key h.streams;
        original_sizes = drop_key key h.original_sizes;
        bitrates = drop_key key h.bitrates;
        effects = h.effects ++ stopped;
      })
      keys

-- `Drop for WebRtcClient`
unfoldable pub drop_client : Uuid → Host → Host
unfolding stop_all
drop_client conn_id h = stop_all h (keep (is_of conn_id) (keys_of h.streams))
