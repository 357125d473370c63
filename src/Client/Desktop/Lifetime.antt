-- ===== src/Client/Desktop/Lifetime.antt =====
-- Who may start a stream, and what the drop of a client leaves of them.
use p2p_common.Common.{
  ◌++◌, ℕ, ◌≡◌, ◌⊎◌, refl, sym, ap, ◌∙◌, String, Bool, true, false, Option, none, some, List, [],
  ◌∷◌, ◌==◌, if◌then◌else◌, keep, any, Bool-cases, inl, inr,
}
use p2p_common.Common.Result.{Result, ok, err}
use p2p_common.Protocol.Types.{Uuid}
use p2p_common.Protocol.Message.{
  P2pMessage, remote_desktop_response, remote_desktop_request, remote_desktop_sdp_offer,
  remote_desktop_sdp_answer, remote_desktop_input,
}
use p2p_common.Node.{serves_desktop}
use p2p_common.Client.Desktop.{
  DesktopEffect, stream_stopped, StreamKey, key_eq, KeyMap, stream_at, Host, Desk, keys_of, is_of,
  stop_all, drop_client, on_desktop_message, on_desktop_request, start_stream, add_stream,
  stop_stream, act, respond_with, renegotiated, input_applied, screen_of, width_of, height_of,
  bitrate_or_default,
}
use p2p_common.Client.Desktop.Aligned.{after_message}
use p2p_common.Client.Desktop.Keys.{key_eq→eq, stream_at-put_key, stream_at-drop_key}

both_none :
    {V : Type 0} (b c : Bool) (o : Option V)
    → (if c then none else (if b then none else o)) ≡ (if (if b then true else c) then none else o)
both_none true true o = refl
both_none true false o = refl
both_none false c o = refl

stream_at-stop_all :
    (keys : List StreamKey) (k : StreamKey) (h : Host)
    → stream_at k (stop_all h keys).streams
      ≡ (if any (λ j. key_eq j k) keys then none else stream_at k h.streams)
unfolding stop_all
stream_at-stop_all [] k h = refl
stream_at-stop_all (j ∷ keys) k h =
    stream_at-stop_all keys k _
    ∙ ap (λ o. if any (λ j. key_eq j k) keys then none else o) (stream_at-drop_key j k h.streams)
    ∙ both_none (key_eq j k) (any (λ j. key_eq j k) keys) (stream_at k h.streams)

none_listed :
    (gone : Uuid) (k : StreamKey) (keys : List StreamKey)
    → is_of gone k ≡ false
    → any (λ j. key_eq j k) (keep (is_of gone) keys) ≡ false
none_listed gone k [] other = refl
none_listed gone k (j ∷ keys) other = elim (Bool-cases (is_of gone j)) [
  | inr skip ↦ rw skip (none_listed gone k keys other)
  | inl own ↦ elim (Bool-cases (key_eq j k)) [
    | inr differ ↦ rw (own, differ) (none_listed gone k keys other)
    | inl same ↦ absurd (cc (sym own ∙ ap (is_of gone) (key_eq→eq j k same) ∙ other))
  ]
]

listed :
    (gone : Uuid) (k : StreamKey) (m : KeyMap ℕ)
    → (if any (λ j. key_eq j k) (keep (is_of gone) (keys_of m)) then none else stream_at k m)
      ≡ (if is_of gone k then none else stream_at k m)
unfolding stream_at
listed gone k [] = elim (Bool-cases (is_of gone k)) [
  | inl own ↦ rw own refl
  | inr other ↦ rw other refl
]
listed gone k ((i, w) ∷ m) = elim (Bool-cases (key_eq i k)) [
  | inr more ↦ elim (Bool-cases (is_of gone i)) [
    | inl own ↦ rw (own, more) (listed gone k m)
    | inr other ↦ rw (other, more) (listed gone k m)
  ]
  | inl here ↦ elim (Bool-cases (is_of gone i)) [
    | inl own ↦ rw (own, here, ap (is_of gone) (sym (key_eq→eq i k here)) ∙ own) refl
    | inr other ↦
        (let e = ap (is_of gone) (sym (key_eq→eq i k here)) ∙ other in
          rw (other, here, none_listed gone k (keys_of m) e, e) refl)
  ]
]

-- The effect that stops the stream of a key: its flag is set, its task aborted, its track removed.
abbrev pub is_stop : StreamKey → DesktopEffect → Bool
is_stop k (stream_stopped j) = key_eq j k
is_stop k _ = false

any-append :
    (p : DesktopEffect → Bool) (xs ys : List DesktopEffect)
    → any p (xs ++ ys) ≡ (if any p xs then true else any p ys)
any-append p [] ys = refl
any-append p (x ∷ xs) ys = elim (Bool-cases (p x)) [
  | inl yes_it ↦ rw yes_it refl
  | inr no_it ↦ rw no_it (any-append p xs ys)
]

stop_all-keeps :
    (keys : List StreamKey) (k : StreamKey) (h : Host)
    → any (is_stop k) h.effects ≡ true
    → any (is_stop k) (stop_all h keys).effects ≡ true
unfolding stop_all
stop_all-keeps [] k h stopped = stopped
stop_all-keeps (j ∷ keys) k h stopped =
    stop_all-keeps keys k _ (any-append (is_stop k) h.effects _ ∙ rw stopped refl)

either_way : (b : Bool) → (if b then true else true) ≡ true
either_way true = refl
either_way false = refl

stop_all-stops :
    (keys : List StreamKey) (k : StreamKey) (h : Host) (s : ℕ)
    → stream_at k h.streams ≡ some s
    → any (λ j. key_eq j k) keys ≡ true
    → any (is_stop k) (stop_all h keys).effects ≡ true
unfolding stop_all
stop_all-stops [] k h s there named = cc named
stop_all-stops (j ∷ keys) k h s there named = elim (Bool-cases (key_eq j k)) [
  | inr other ↦
      stop_all-stops keys k _ s (stream_at-drop_key j k h.streams ∙ rw other there)
        (rw other at named)
  | inl same ↦
      let found : stream_at j h.streams ≡ some s =
        ap (λ i. stream_at i h.streams) (key_eq→eq j k same) ∙ there in
      stop_all-keeps keys k _ (
        any-append (is_stop k) h.effects _
        ∙ rw (found, same) (either_way (any (is_stop k) h.effects)))
]

named_of :
    (gone : Uuid) (k : StreamKey) (s : ℕ) (m : KeyMap ℕ)
    → stream_at k m ≡ some s
    → is_of gone k ≡ true
    → any (λ j. key_eq j k) (keep (is_of gone) (keys_of m)) ≡ true
named_of gone k s m there own =
    elim (Bool-cases (any (λ j. key_eq j k) (keep (is_of gone) (keys_of m)))) [
      | inl named ↦ named
      | inr missing ↦ absurd (cc (rw (missing, own, there) at (listed gone k m)))
    ]

-- The drop of a client takes every stream of its connection out of the map and stops it (its flag is set,
-- its task aborted and its track removed), and leaves the streams of the others as they were.
pub drop_client-stream_at :
    (gone : Uuid) (h : Host) (k : StreamKey)
    → (stream_at k (drop_client gone h).streams
        ≡ (if k.connection == gone then none else stream_at k h.streams))
      × ((s : ℕ)
          → stream_at k h.streams ≡ some s
          → (k.connection == gone) ≡ true
          → any (is_stop k) (drop_client gone h).effects ≡ true)
unfolding drop_client
drop_client-stream_at gone h k = (
  stream_at-stop_all (keep (is_of gone) (keys_of h.streams)) k h ∙ listed gone k h.streams,
  λ s there own.
      stop_all-stops (keep (is_of gone) (keys_of h.streams)) k h s there
        (named_of gone k s h.streams there own),
)

start_stream-stream_at :
    (d : Desk) (h : Host) (key : StreamKey) (original : Bool) (bitrate : ℕ) (force : Bool)
    (k : StreamKey) (s : ℕ) (found : Option ℕ)
    → stream_at k (start_stream d h key original bitrate force found).streams ≡ some s
    → (stream_at k h.streams ≡ some s) ⊎ (key ≡ k)
start_stream-stream_at d h key original bitrate force k s (some sender) there = inl there
start_stream-stream_at d h key original bitrate force k s none there = added d.add_track there
  where
    added :
        (r : Result ℕ)
        → stream_at k (add_stream d h key original bitrate force r).streams ≡ some s
        → (stream_at k h.streams ≡ some s) ⊎ (key ≡ k)
    added (err e) there = inl there
    added (ok sender) there = elim (Bool-cases (key_eq key k)) [
      | inl same ↦ inr (key_eq→eq key k same)
      | inr other ↦
          let e = stream_at-put_key key k sender h.streams in inl (sym (rw other at e) ∙ there)
    ]

stop_stream-stream_at :
    (h : Host) (key k : StreamKey) (s : ℕ) (found : Option ℕ)
    → stream_at k (stop_stream h key found).streams ≡ some s
    → stream_at k h.streams ≡ some s
stop_stream-stream_at h key k s none there = there
stop_stream-stream_at h key k s (some sender) there =
    let e = sym (stream_at-drop_key key k h.streams) ∙ there in
    elim (Bool-cases (key_eq key k)) [ inl same ↦ cc (rw same at e) | inr other ↦ rw other at e ]

-- The message is a request to start a stream of the resource of a key.
abbrev pub Starts : P2pMessage → StreamKey → Type 0
Starts msg k =
    (original : Bool) × (bitrate : Option ℕ) × (force : Bool) × (msg
      ≡ remote_desktop_request k.resource true original bitrate force)

-- What makes a stream possible
abbrev pub Allowed : Desk → Host → P2pMessage → StreamKey → Type 0
Allowed d h msg k =
    ((t : ℕ) × (stream_at k h.streams ≡ some t))
    ⊎ (Starts msg k × (k.connection ≡ d.connection_id) × (serves_desktop h.node k.resource ≡ true))

request-Allowed :
    (d : Desk) (h : Host) (id : String) (start original : Bool) (bitrate : Option ℕ) (force : Bool)
    (k : StreamKey) (s : ℕ)
    → stream_at k (on_desktop_request d h id start original bitrate force).streams ≡ some s
    → Allowed d h (remote_desktop_request id start original bitrate force) k
unfolding on_desktop_request
request-Allowed d h id start original bitrate force k s there =
    elim (Bool-cases (serves_desktop h.node id)) [
      | inr denied ↦ inl (s, rw denied at there)
      | inl serves ↦ go serves start (rw serves at there)
    ]
  where
    key : StreamKey
    key = record { connection = d.connection_id; resource = id }

    h1 : Bool → Host
    h1 b = respond_with h (
        remote_desktop_response id true none (width_of (screen_of d b)) (height_of (screen_of d b)))

    go :
        serves_desktop h.node id ≡ true
        → (b : Bool)
        → stream_at k
            (if b
              then start_stream d
                  (h1 b)
                  key
                  original
                  (bitrate_or_default bitrate)
                  force
                  (stream_at key h.streams)
              else act
                  (stop_stream (h1 b) key (stream_at key h.streams))
                  (renegotiated id ∷ [])).streams
          ≡ some s
        → Allowed d h (remote_desktop_request id b original bitrate force) k
    go serves false there =
        inl (s, stop_stream-stream_at (h1 false) key k s (stream_at key h.streams) there)
    go serves true there =
        elim (start_stream-stream_at d (h1 true) key original (bitrate_or_default bitrate) force k s
          (stream_at key h.streams) there) [
            | inl old ↦ inl (s, old)
            | inr same ↦ inr (
              (
                original,
                bitrate,
                force,
                ap
                    (λ (j : StreamKey).
                      remote_desktop_request j.resource true original bitrate force)
                    same,
              ),
              ap (λ (j : StreamKey). j.connection) (sym same),
              ap (λ (j : StreamKey). serves_desktop h.node j.resource) (sym same) ∙ serves,
            )
          ]

-- A stream that is there after a message was there before, or the message is a request to start it, over
-- its own connection, of a resource that the node shares as an active remote desktop.
pub after_message-Allowed :
    (d : Desk) (h : Host) (msg : P2pMessage) (k : StreamKey) (s : ℕ)
    → stream_at k (after_message d h msg).streams ≡ some s
    → Allowed d h msg k
unfolding on_desktop_message
after_message-Allowed d h (remote_desktop_request id start original bitrate force) k s there =
    request-Allowed d h id start original bitrate force k s there
after_message-Allowed d h (remote_desktop_sdp_offer id sdp) k s there = inl (s, there)
after_message-Allowed d h (remote_desktop_sdp_answer id sdp) k s there = inl (s, there)
after_message-Allowed d h (remote_desktop_input id event) k s there =
    inl (s, applied d.has_provider there)
  where
    applied :
        (b : Bool)
        → stream_at k (if b then act h (input_applied event ∷ []) else h).streams ≡ some s
        → stream_at k h.streams ≡ some s
    applied true there = there
    applied false there = there
after_message-Allowed d h msg k s there = inl (s, there)
