-- ===== src/Client/Outbound/Stream.antt =====
-- What the peer receives of the messages that a client sends, before and after its channel opens.
use mathlib.Core.List.{append_assoc, append-nil}
use p2p_common.Common.{
  ℕ, suc, ◌≡◌, ◌≢◌, refl, sym, ap, ◌∙◌, true, Option, none, some, List, [], ◌∷◌, ◌++◌, map, All,
  concat, arith,
}
use p2p_common.Common.Result.{ok}
use p2p_common.Protocol.Message.{SecuredP2pEnvelope, message}
use p2p_common.Chunking.{frame_chunks, receive, new}
use p2p_common.Chunking.RoundTrip.{receive-stream}
use p2p_common.Client.Outbound.{Channel, Wire, Pipe, write_own, flush, run_pipe, on_open}
use p2p_common.Client.Outbound.Frames.{
  frames_of, frames_of-append, TakesAll, write-sent, run_pipe-sent, NotOpen,
  run_pipe-pending_messages,
}

abbrev holds : Channel → List SecuredP2pEnvelope → Pipe
holds ch pending = record { channel = some ch; pending_messages = pending }

abbrev grown : (SecuredP2pEnvelope → List ℕ) → Channel → List SecuredP2pEnvelope → Channel
grown f ch es = record ch { sent = ch.sent ++ frames_of f 10240 es }

grown-grown :
    (f : SecuredP2pEnvelope → List ℕ) (ch : Channel) (xs ys : List SecuredP2pEnvelope)
    → grown f (grown f ch xs) ys ≡ grown f ch (xs ++ ys)
grown-grown f ch xs ys =
    ap (λ s. record ch { sent = s })
      (append_assoc ch.sent (frames_of f 10240 xs) (frames_of f 10240 ys)
        ∙ ap (λ l. ch.sent ++ l) (sym (frames_of-append f 10240 xs ys)))

-- What is written from the callback's i-th step on: before each message that was put off, those that the task
-- sends then.
abbrev pub woven :
    (ℕ → List SecuredP2pEnvelope) → ℕ → List SecuredP2pEnvelope → List SecuredP2pEnvelope
woven during i [] = []
woven during i (e ∷ es) = during i ++ e ∷ woven during (suc i) es

module _ (w : Wire) (f : SecuredP2pEnvelope → List ℕ)
    (encodes : (e : SecuredP2pEnvelope) → w.encode e ≡ ok (f e))
    (size : w.peer_max_chunk_size ≡ 10240) where
  run_pipe-grown :
      (es : List SecuredP2pEnvelope) (ch : Channel) (pending : List SecuredP2pEnvelope)
      → TakesAll ch
      → ch.is_open ≡ true
      → run_pipe w (holds ch pending) (map message es) ≡ holds (grown f ch es) pending
  run_pipe-grown es ch pending takes up =
      run_pipe-sent w f encodes es ch pending takes up
      ∙ ap (λ k. holds (record ch { sent = ch.sent ++ frames_of f k es }) pending) size

  write_own-grown :
      (e : SecuredP2pEnvelope) (ch : Channel) (pending : List SecuredP2pEnvelope)
      → TakesAll ch
      → write_own w e (holds ch pending) ≡ holds (grown f ch (e ∷ [])) pending
  write_own-grown e ch pending takes =
      ap (λ c. holds c pending)
        (write-sent w f encodes 10240 ch e takes
          ∙ ap (λ s. record ch { sent = ch.sent ++ s })
              (sym (append-nil (frame_chunks (f e) 10240))))

  flush-grown :
      (during : ℕ → List SecuredP2pEnvelope) (i : ℕ) (es : List SecuredP2pEnvelope) (ch : Channel)
      (pending : List SecuredP2pEnvelope)
      → TakesAll ch
      → ch.is_open ≡ true
      → flush w (λ k. map message (during k)) i es (holds ch pending)
        ≡ holds (grown f ch (woven during i es)) pending
  flush-grown during i [] ch pending takes up =
      ap (λ s. holds (record ch { sent = s }) pending) (sym (append-nil ch.sent))
  flush-grown during i (e ∷ es) ch pending takes up =
      let busy = λ (k : ℕ). map message (during k) in
      let first = grown f ch (during i) in
      ap (λ p. flush w busy (suc i) es (write_own w e p))
        (run_pipe-grown (during i) ch pending takes up)
      ∙ ap (flush w busy (suc i) es) (write_own-grown e first pending takes)
      ∙ flush-grown during (suc i) es (grown f first (e ∷ [])) pending takes up
      ∙ ap (λ c. holds c pending)
          (grown-grown f first (e ∷ []) (woven during (suc i) es)
            ∙ grown-grown f ch (during i) (e ∷ woven during (suc i) es))

  on_open-grown :
      (hello : SecuredP2pEnvelope) (during : ℕ → List SecuredP2pEnvelope)
      (before : List SecuredP2pEnvelope) (channel : Option Channel) (ch : Channel)
      → TakesAll ch
      → on_open w hello ch
          (λ k. map message (during k))
          (record { channel = channel; pending_messages = before })
        ≡ holds
            (grown f
              (record ch { is_open = true })
              (during 0 ++ hello ∷ (during 1 ++ woven during 2 before)))
            []
  unfolding on_open
  on_open-grown hello during before channel ch takes =
      let busy = λ (k : ℕ). map message (during k) in
      let up : Channel = record ch { is_open = true } in
      let early = grown f up (during 0) in
      let greeted = grown f early (hello ∷ []) in
      let ready = grown f greeted (during 1) in
      let drain =
        λ (p : Pipe). flush w busy 2 p.pending_messages (record p { pending_messages = [] }) in
      ap (λ p. drain (run_pipe w (write_own w hello p) (busy 1)))
        (run_pipe-grown (during 0) up before takes refl)
      ∙ ap (λ p. drain (run_pipe w p (busy 1))) (write_own-grown hello early before takes)
      ∙ ap drain (run_pipe-grown (during 1) greeted before takes refl)
      ∙ flush-grown during 2 before ready [] takes refl
      ∙ ap (λ c. holds c [])
          (grown-grown f greeted (during 1) (woven during 2 before)
            ∙ grown-grown f early (hello ∷ []) (during 1 ++ woven during 2 before)
            ∙ grown-grown f up (during 0) (hello ∷ (during 1 ++ woven during 2 before)))

frames_of-map :
    (f : SecuredP2pEnvelope → List ℕ) (size : ℕ) (xs : List SecuredP2pEnvelope)
    → frames_of f size xs ≡ concat (map (λ b. frame_chunks b size) (map f xs))
frames_of-map f size [] = refl
frames_of-map f size (x ∷ xs) = ap (λ r. frame_chunks (f x) size ++ r) (frames_of-map f size xs)

All-map :
    (f : SecuredP2pEnvelope → List ℕ) (xs : List SecuredP2pEnvelope)
    → ((e : SecuredP2pEnvelope) → f e ≢ [])
    → All (λ b. b ≢ []) (map f xs)
All-map f [] full = tt
All-map f (x ∷ xs) full = (full x, All-map f xs full)

-- The frames of messages in a channel that held none are received as these messages.
receive-frames_of :
    (f : SecuredP2pEnvelope → List ℕ) (xs : List SecuredP2pEnvelope)
    → ((e : SecuredP2pEnvelope) → f e ≢ [])
    → (receive new (frames_of f 10240 xs) 10240).1 ≡ map f xs
receive-frames_of f xs full =
    ap (λ s. (receive new s 10240).1) (frames_of-map f 10240 xs)
    ∙ ap (λ r. r.1)
        (receive-stream 10240 (omega arith) (omega arith) (map f xs) (All-map f xs full))

-- What a receiver makes of what the channel of a pipe holds
abbrev pub received : Pipe → Option (List (List ℕ))
received p = elim (p.channel) [ none ↦ none | some ch ↦ some (receive new ch.sent 10240).1 ]

-- The way out, the opening of the channel and the peer's assembler refine a queue: where the channel stays
-- open and the library takes every write, every message is encoded as at least one byte, and both sides
-- announce the default chunk size, the peer receives what was sent between the opening and the handshake,
-- the handshake, what was sent until the messages put off were taken, these messages in order, each after
-- what was sent until it was written, and every one that was sent after: each once and whole, and none is left. The task puts a message
-- off in the round that finds no open channel; Races shows what happens else.
pub received-refines_queue :
    (w : Wire) (f : SecuredP2pEnvelope → List ℕ) (hello : SecuredP2pEnvelope)
    (before after : List SecuredP2pEnvelope) (during : ℕ → List SecuredP2pEnvelope)
    (closed : Option Channel) (ch : Channel)
    → ((e : SecuredP2pEnvelope) → (w.encode e ≡ ok (f e)) × (f e ≢ []))
    → w.peer_max_chunk_size ≡ 10240
    → NotOpen closed
    → TakesAll ch
    → ch.sent ≡ []
    → let early =
        run_pipe w (record { channel = closed; pending_messages = [] }) (map message before) in
      let opened = on_open w hello ch (λ i. map message (during i)) early in
      let done = run_pipe w opened (map message after) in
      (received done
        ≡ some (map f ((during 0 ++ hello ∷ (during 1 ++ woven during 2 before)) ++ after)))
      × (done.pending_messages ≡ [])
received-refines_queue w f hello before after during closed ch encodes size shut takes blank =
    let sends = λ (e : SecuredP2pEnvelope). (encodes e).0 in
    let up : Channel = record ch { is_open = true } in
    let busy = λ (i : ℕ). map message (during i) in
    let first = during 0 ++ hello ∷ (during 1 ++ woven during 2 before) in
    let done =
      ap (λ q. run_pipe w (on_open w hello ch busy q) (map message after))
        (run_pipe-pending_messages w before closed [] shut)
      ∙ ap (λ q. run_pipe w q (map message after))
          (on_open-grown w f sends size hello during before closed ch takes)
      ∙ run_pipe-grown w f sends size after (grown f up first) [] takes refl
      ∙ ap (λ c. holds c []) (grown-grown f up first after) in
    (
      ap received done
          ∙ ap (λ s. some (receive new (s ++ frames_of f 10240 (first ++ after)) 10240).1) blank
          ∙ ap some (receive-frames_of f (first ++ after) (λ e. (encodes e).1)),
      ap (λ q. q.pending_messages) done,
    )
