-- ===== src/Client/Desktop/Aligned.antt =====
-- The three maps of the streams stay together.
use p2p_common.Common.{
  ℕ, ◌≡◌, refl, sym, ap, ◌∙◌, String, Bool, true, false, not, Option, none, some, List, [], ◌∷◌,
  if◌then◌else◌, keep, Bool-cases, inl, inr,
}
use p2p_common.Common.Result.{Result, ok, err}
use p2p_common.Protocol.Types.{Uuid, DesktopInputEvent}
use p2p_common.Protocol.Message.{
  P2pMessage, remote_desktop_request, remote_desktop_response, remote_desktop_sdp_offer,
  remote_desktop_sdp_answer, remote_desktop_input,
}
use p2p_common.Node.{serves_desktop}
use p2p_common.Client.Desktop.{
  StreamKey, key_eq, KeyMap, stream_at, put_key, drop_key, store_at, Host, Desk, keys_of, is_of,
  stop_all, drop_client, on_desktop_message, on_desktop_request, start_stream, add_stream,
  stop_stream, act, respond_with, renegotiated, input_applied, screen_of, bitrate_or_default,
  width_of, height_of,
}

put_name : StreamKey → List StreamKey → List StreamKey
put_name k [] = k ∷ []
put_name k (j ∷ keys) = if key_eq j k then j ∷ keys else j ∷ put_name k keys

keys_of-put_key :
    {V : Type 0} (k : StreamKey) (v : V) (m : KeyMap V)
    → keys_of (put_key k v m) ≡ put_name k (keys_of m)
unfolding put_key put_name
keys_of-put_key k v [] = refl
keys_of-put_key k v ((j, w) ∷ m) = elim (Bool-cases (key_eq j k)) [
  | inl same ↦ rw same refl
  | inr other ↦ rw other (ap (λ r. j ∷ r) (keys_of-put_key k v m))
]

keys_of-drop_key :
    {V : Type 0} (k : StreamKey) (m : KeyMap V)
    → keys_of (drop_key k m) ≡ keep (λ j. not (key_eq j k)) (keys_of m)
unfolding drop_key
keys_of-drop_key k [] = refl
keys_of-drop_key k ((j, w) ∷ m) = elim (Bool-cases (key_eq j k)) [
  | inl same ↦ rw same (keys_of-drop_key k m)
  | inr other ↦ rw other (ap (λ r. j ∷ r) (keys_of-drop_key k m))
]

keys_of-store_at :
    {V : Type 0} (k : StreamKey) (v : V) (m : KeyMap V) → keys_of (store_at k v m) ≡ keys_of m
unfolding store_at
keys_of-store_at k v [] = refl
keys_of-store_at k v ((j, w) ∷ m) = elim (Bool-cases (key_eq j k)) [
  | inl same ↦ rw same (ap (λ r. j ∷ r) (keys_of-store_at k v m))
  | inr other ↦ rw other (ap (λ r. j ∷ r) (keys_of-store_at k v m))
]

-- The three maps hold the same streams, in the same order.
abbrev pub Aligned : Host → Type 0
Aligned h =
    (keys_of h.original_sizes ≡ keys_of h.streams) × (keys_of h.bitrates ≡ keys_of h.streams)

add_stream-Aligned :
    (d : Desk) (h : Host) (key : StreamKey) (original : Bool) (bitrate : ℕ) (force : Bool)
    (r : Result ℕ)
    → Aligned h
    → Aligned (add_stream d h key original bitrate force r)
add_stream-Aligned d h key original bitrate force (err e) a = a
add_stream-Aligned d h key original bitrate force (ok sender) (sizes, rates) =
    let s = keys_of-put_key key sender h.streams in
    (
      keys_of-put_key key original h.original_sizes ∙ ap (put_name key) sizes ∙ sym s,
      keys_of-put_key key bitrate h.bitrates ∙ ap (put_name key) rates ∙ sym s,
    )

start_stream-Aligned :
    (d : Desk) (h : Host) (key : StreamKey) (original : Bool) (bitrate : ℕ) (force : Bool)
    (found : Option ℕ)
    → Aligned h
    → Aligned (start_stream d h key original bitrate force found)
start_stream-Aligned d h key original bitrate force none a =
    add_stream-Aligned d h key original bitrate force d.add_track a
start_stream-Aligned d h key original bitrate force (some sender) (sizes, rates) = (
  keys_of-store_at key original h.original_sizes ∙ sizes,
  keys_of-store_at key bitrate h.bitrates ∙ rates,
)

-- The three maps less a key
dropped-Aligned :
    (h : Host) (key : StreamKey)
    → Aligned h
    → (keys_of (drop_key key h.original_sizes) ≡ keys_of (drop_key key h.streams))
      × (keys_of (drop_key key h.bitrates) ≡ keys_of (drop_key key h.streams))
dropped-Aligned h key (sizes, rates) =
    let less = keep (λ j. not (key_eq j key)) in
    let s = keys_of-drop_key key h.streams in
    (
      keys_of-drop_key key h.original_sizes ∙ ap less sizes ∙ sym s,
      keys_of-drop_key key h.bitrates ∙ ap less rates ∙ sym s,
    )

stop_stream-Aligned :
    (h : Host) (key : StreamKey) (found : Option ℕ) → Aligned h → Aligned (stop_stream h key found)
stop_stream-Aligned h key none a = a
stop_stream-Aligned h key (some sender) a = dropped-Aligned h key a

pub stop_all-Aligned : (keys : List StreamKey) (h : Host) → Aligned h → Aligned (stop_all h keys)
unfolding stop_all
stop_all-Aligned [] h a = a
stop_all-Aligned (key ∷ keys) h a = stop_all-Aligned keys _ (dropped-Aligned h key a)

on_desktop_request-Aligned :
    (d : Desk) (h : Host) (id : String) (start original : Bool) (bitrate : Option ℕ) (force : Bool)
    → Aligned h
    → Aligned (on_desktop_request d h id start original bitrate force)
unfolding on_desktop_request
on_desktop_request-Aligned d h id start original bitrate force a =
    go (serves_desktop h.node id) start
  where
    key : StreamKey
    key = record { connection = d.connection_id; resource = id }

    h1 : Bool → Host
    h1 b = respond_with h (
        remote_desktop_response id true none (width_of (screen_of d b)) (height_of (screen_of d b)))

    go :
        (serves b : Bool)
        → Aligned (
            if serves
            then (if b
                then start_stream d
                    (h1 b)
                    key
                    original
                    (bitrate_or_default bitrate)
                    force
                    (stream_at key h.streams)
                else act (stop_stream (h1 b) key (stream_at key h.streams)) (renegotiated id ∷ []))
            else respond_with h (
                remote_desktop_response id false
                  (some "Remote desktop service is inactive or unavailable")
                  none
                  none))
    go false b = a
    go true true =
        start_stream-Aligned d (h1 true) key original (bitrate_or_default bitrate) force
          (stream_at key h.streams) a
    go true false = stop_stream-Aligned (h1 false) key (stream_at key h.streams) a

-- The host after a message, or as it was
abbrev pub after_message : Desk → Host → P2pMessage → Host
after_message d h msg = elim (on_desktop_message d h msg) [ none ↦ h | some h' ↦ h' ]

-- Whatever message comes, and when a client is dropped, the streams, their sizes and their bitrates stay
-- maps of the same keys.
pub Host-Aligned :
    (d : Desk) (h : Host) (msg : P2pMessage) (gone : Uuid)
    → Aligned h
    → Aligned (after_message d h msg) × Aligned (drop_client gone h)
unfolding on_desktop_message drop_client
Host-Aligned d h msg gone a =
    (message_kept msg, stop_all-Aligned (keep (is_of gone) (keys_of h.streams)) h a)
  where
    applied :
        (b : Bool) (event : DesktopInputEvent)
        → Aligned (if b then act h (input_applied event ∷ []) else h)
    applied true event = a
    applied false event = a

    message_kept : (m : P2pMessage) → Aligned (after_message d h m)
    message_kept (remote_desktop_request id start original bitrate force) =
        on_desktop_request-Aligned d h id start original bitrate force a
    message_kept (remote_desktop_sdp_offer id sdp) = a
    message_kept (remote_desktop_sdp_answer id sdp) = a
    message_kept (remote_desktop_input id event) = applied d.has_provider event
    message_kept m = a
