-- ===== src/Client/Outbound/Frames.antt =====
-- What the rounds of the sending task put into the channel, and what they put off.
use mathlib.Core.List.{append_assoc, append-nil}
use p2p_common.Common.{
  ℕ, ◌≡◌, refl, sym, ap, ◌∙◌, true, false, Option, none, some, List, [], ◌∷◌, ◌++◌, map, concat,
  length,
}
use p2p_common.Common.Result.{ok}
use p2p_common.Protocol.Message.{SecuredP2pEnvelope, message}
use p2p_common.Chunking.{frame_chunks}
use p2p_common.Client.Outbound.{
  Channel, Wire, Pipe, send_frames, send_chunked_binary, write, put_off, pass_to, run_pipe,
  pipe_step,
}

concat-append {ℓ} :
    {A : Type ℓ} (xs ys : List (List A)) → concat (xs ++ ys) ≡ concat xs ++ concat ys
concat-append [] ys = refl
concat-append (x ∷ xs) ys = simp (concat-append xs ys, append_assoc)

-- The frames of messages, each cut with the same chunk size
abbrev pub frames_of : (SecuredP2pEnvelope → List ℕ) → ℕ → List SecuredP2pEnvelope → List (List ℕ)
frames_of f size envelopes = concat (map (λ e. frame_chunks (f e) size) envelopes)

pub frames_of-append :
    (f : SecuredP2pEnvelope → List ℕ) (size : ℕ) (xs ys : List SecuredP2pEnvelope)
    → frames_of f size (xs ++ ys) ≡ frames_of f size xs ++ frames_of f size ys
frames_of-append f size [] ys = refl
frames_of-append f size (x ∷ xs) ys = simp (frames_of-append f size xs ys, append_assoc)

-- The library takes every write.
abbrev pub TakesAll : Channel → Type 0
TakesAll ch = (i : ℕ) → ch.accepts i ≡ true

send_frames-sent :
    (frames : List (List ℕ)) (ch : Channel)
    → TakesAll ch
    → send_frames ch frames ≡ record ch { sent = ch.sent ++ frames }
unfolding send_frames
send_frames-sent [] ch takes = ap (λ s. record ch { sent = s }) (sym (append-nil ch.sent))
send_frames-sent (frame ∷ frames) ch takes = rw (takes (length ch.sent)) (
    send_frames-sent frames (record ch { sent = ch.sent ++ frame ∷ [] }) takes
    ∙ ap (λ s. record ch { sent = s }) (append_assoc ch.sent (frame ∷ []) frames))

module _ (w : Wire) (f : SecuredP2pEnvelope → List ℕ)
    (encodes : (e : SecuredP2pEnvelope) → w.encode e ≡ ok (f e)) where
  pub write-sent :
      (size : ℕ) (ch : Channel) (e : SecuredP2pEnvelope)
      → TakesAll ch
      → write w size ch e ≡ record ch { sent = ch.sent ++ frame_chunks (f e) size }
  unfolding send_chunked_binary
  write-sent size ch e takes =
      rw (encodes e, write) (send_frames-sent (frame_chunks (f e) size) ch takes)

  pass_to-open :
      (p : Pipe) (e : SecuredP2pEnvelope) (ch : Channel)
      → TakesAll ch
      → ch.is_open ≡ true
      → pass_to w p e (some ch) ≡ record p {
        channel = some (record ch { sent = ch.sent ++ frame_chunks (f e) w.peer_max_chunk_size });
      }
  pass_to-open p e ch takes up =
      let went : pass_to w p e (some ch)
          ≡ record p { channel = some (write w w.peer_max_chunk_size ch e) } =
        simp up in
      went ∙ ap (λ c. record p { channel = some c }) (write-sent w.peer_max_chunk_size ch e takes)

  pub run_pipe-sent :
      (es : List SecuredP2pEnvelope) (ch : Channel) (pending : List SecuredP2pEnvelope)
      → TakesAll ch
      → ch.is_open ≡ true
      → run_pipe w (record { channel = some ch; pending_messages = pending }) (map message es)
        ≡ record {
          channel = some (record ch { sent = ch.sent ++ frames_of f w.peer_max_chunk_size es });
          pending_messages = pending;
        }
  unfolding run_pipe pipe_step
  run_pipe-sent [] ch pending takes up =
      ap (λ s. record { channel = some (record ch { sent = s }); pending_messages = pending })
        (sym (append-nil ch.sent))
  run_pipe-sent (e ∷ es) ch pending takes up =
      let p : Pipe = record { channel = some ch; pending_messages = pending } in
      let ch' = record ch { sent = ch.sent ++ frame_chunks (f e) w.peer_max_chunk_size } in
      ap (λ q. run_pipe w q (map message es)) (pass_to-open p e ch takes up)
      ∙ run_pipe-sent es ch' pending takes up
      ∙ ap (λ s. record { channel = some (record ch { sent = s }); pending_messages = pending })
          (append_assoc ch.sent (frame_chunks (f e) w.peer_max_chunk_size)
            (frames_of f w.peer_max_chunk_size es))

-- No channel is open yet.
abbrev pub NotOpen : Option Channel → Type 0
NotOpen none = Unit
NotOpen (some ch) = ch.is_open ≡ false

pass_to-shut :
    (w : Wire) (p : Pipe) (e : SecuredP2pEnvelope) (ch : Channel)
    → ch.is_open ≡ false
    → pass_to w p e (some ch) ≡ put_off p e
pass_to-shut w p e ch shut = simp shut

pub run_pipe-pending_messages :
    (w : Wire) (es : List SecuredP2pEnvelope) (channel : Option Channel)
    (pending : List SecuredP2pEnvelope)
    → NotOpen channel
    → run_pipe w (record { channel = channel; pending_messages = pending }) (map message es)
      ≡ record { channel = channel; pending_messages = pending ++ es }
unfolding run_pipe pipe_step
run_pipe-pending_messages w [] channel pending shut =
    ap (λ s. record { channel = channel; pending_messages = s }) (sym (append-nil pending))
run_pipe-pending_messages w (e ∷ es) none pending shut =
    run_pipe-pending_messages w es none (pending ++ e ∷ []) shut
    ∙ ap (λ s. record { channel = none; pending_messages = s }) (append_assoc pending (e ∷ []) es)
run_pipe-pending_messages w (e ∷ es) (some ch) pending shut =
    let p : Pipe = record { channel = some ch; pending_messages = pending } in
    ap (λ q. run_pipe w q (map message es)) (pass_to-shut w p e ch shut)
    ∙ run_pipe-pending_messages w es (some ch) (pending ++ e ∷ []) shut
    ∙ ap (λ s. record { channel = some ch; pending_messages = s })
        (append_assoc pending (e ∷ []) es)
