-- ===== src/Chunking/RoundTrip.antt =====
-- The frames of a message, fed to an assembler.
use mathlib.Core.List.{append_assoc, append-nil}
use native.Mathlib.Decide.{dec_lt}
use p2p_common.Common.{
  ℕ, zero, suc, ◌+◌, ◌-◌, ◌*◌, ◌%◌, ◌/◌, ◌≤◌, ◌<◌, ◌≡◌, ◌≢◌, refl, ◌∙◌, List, [], ◌∷◌, ◌++◌, arith,
  ltb, min, max, if◌then◌else◌, length, take, drop, concat, map, All, length-take, length-drop,
  take-add, take-all, lt→ltb, ltb-false,
}
use p2p_common.Chunking.{
  frames_from, frame_chunks, terminator, be16, push, receive, deliver, new, ChunkAssembler,
  complete, incomplete, ChunkOutcome,
}

-- A length below 65536 comes back from its two bytes.
be16_round_trip : (n : ℕ) → n < 65536 → (n % 65536) / 256 * 256 + n % 256 ≡ n
be16_round_trip n h = omega arith

-- A well-formed frame with a payload is appended, and ends the message if it is short.
pub push-frame :
    (buf chunk : List ℕ) (n m : ℕ)
    → 0 < n
    → n < 65536
    → length chunk ≡ n
    → 0 < m
    → push (record { buf = buf }) (be16 n ++ chunk) m ≡ (
        if ltb n m
        then (new, complete (buf ++ chunk))
        else (record { buf = buf ++ chunk }, incomplete))
unfolding push
push-frame buf chunk n m some fits e pos =
    rw (be16_round_trip n fits) (ground (arith, take-all n chunk))

receive-step :
    (a b : ChunkAssembler) (o : ChunkOutcome) (f : List ℕ) (fs : List (List ℕ)) (m : ℕ)
    → push a f m ≡ (b, o)
    → receive a (f ∷ fs) m ≡ ((receive b fs m).0, deliver o (receive b fs m).1)
unfolding receive
receive-step a b o f fs m e = rw e

module _ (bytes : List ℕ) (m : ℕ) where
  pub frames_from-end :
      (fuel offset : ℕ) → length bytes ≤ offset → frames_from fuel bytes m offset ≡ []
  unfolding frames_from
  frames_from-end zero offset h = refl
  frames_from-end (suc fuel) offset h = rw (ltb-false offset (length bytes) h)

  pub frames_from-full :
      (fuel offset : ℕ)
      → 0 < m
      → offset + m ≤ length bytes
      → frames_from (suc fuel) bytes m offset
        ≡ (be16 m ++ take m (drop offset bytes)) ∷ frames_from fuel bytes m (offset + m)
  unfolding frames_from
  frames_from-full fuel offset pos h =
      let size : min m (length bytes - offset) ≡ m = omega arith in
      rw (size, lt→ltb offset (length bytes) (omega arith))

  pub frames_from-short :
      (fuel offset : ℕ)
      → offset < length bytes
      → length bytes < offset + m
      → frames_from (suc fuel) bytes m offset
        ≡ (be16 (length bytes - offset) ++ take (length bytes - offset) (drop offset bytes)) ∷ []
  unfolding frames_from
  frames_from-short fuel offset h short =
      let size : min m (length bytes - offset) ≡ length bytes - offset = omega arith in
      rw (
        size,
        lt→ltb offset (length bytes) h,
        frames_from-end fuel (offset + (length bytes - offset)) (omega arith),
      )

pub terminator-whole : (n k m : ℕ) → 0 < m → n ≡ k * m → terminator n m ≡ (0 ∷ 0 ∷ []) ∷ []
terminator-whole n k m pos h = let e : n % m ≡ 0 = grind arith in rw e

terminator-part : (n k m r : ℕ) → n ≡ k * m + r → 0 < r → r < m → terminator n m ≡ []
terminator-part n k m r h some short = let e : n % m ≡ r = grind arith in ground arith

module _ (m : ℕ) (pos : 0 < m) (fits : m < 65536) where
  receive_full :
      (buf chunk : List ℕ) (fs : List (List ℕ))
      → length chunk ≡ m
      → receive (record { buf = buf }) ((be16 m ++ chunk) ∷ fs) m
        ≡ receive (record { buf = buf ++ chunk }) fs m
  receive_full buf chunk fs e =
      receive-step _ _ incomplete _ fs m
        (push-frame buf chunk m m pos fits e pos ∙ rw (ltb-false m m (omega arith)))

  receive_short :
      (buf chunk : List ℕ) (n : ℕ) (fs : List (List ℕ))
      → 0 < n
      → n < m
      → length chunk ≡ n
      → receive (record { buf = buf }) ((be16 n ++ chunk) ∷ fs) m
        ≡ ((receive new fs m).0, (buf ++ chunk) ∷ (receive new fs m).1)
  receive_short buf chunk n fs some short e =
      receive-step _ _ (complete (buf ++ chunk)) _ fs m
        (push-frame buf chunk n m some (omega arith) e pos ∙ rw (lt→ltb n m short))

  receive_terminator :
      (buf : List ℕ) (fs : List (List ℕ))
      → buf ≢ []
      → receive (record { buf = buf }) ((0 ∷ 0 ∷ []) ∷ fs) m
        ≡ ((receive new fs m).0, buf ∷ (receive new fs m).1)
  unfolding receive push
  receive_terminator [] fs h = absurd (h refl)
  receive_terminator (b ∷ bs) fs h = refl

  -- The loop from a whole number of chunks on, whatever was in the buffer before the message.
  receive_from :
      (fuel : ℕ) (before bytes : List ℕ) (k offset : ℕ) (fs : List (List ℕ))
      → offset ≡ k * m
      → offset ≤ length bytes
      → length bytes - offset ≤ fuel
      → before ++ bytes ≢ []
      → receive
          (record { buf = before ++ take offset bytes })
          (frames_from fuel bytes m offset ++ (terminator (length bytes) m ++ fs))
          m
        ≡ ((receive new fs m).0, (before ++ bytes) ∷ (receive new fs m).1)
  receive_from zero before bytes k offset fs whole within enough some =
      rw
        (
          frames_from-end bytes m zero offset (omega arith),
          terminator-whole (length bytes) k m pos (omega arith),
          take-all offset bytes (omega arith),
        )
        (receive_terminator (before ++ bytes) fs some)
  receive_from (suc fuel) before bytes k offset fs whole within enough some =
      elim (dec_lt (length bytes) (offset + m)) [
        | no long ↦
            rw
              (
                frames_from-full bytes m fuel offset pos (omega arith),
                receive_full (before ++ take offset bytes) (take m (drop offset bytes)) _
                    (omega (arith, length-take m (drop offset bytes), length-drop offset bytes)),
                append_assoc before (take offset bytes) (take m (drop offset bytes)),
                take-add offset m bytes,
              )
              (receive_from fuel before bytes (k + 1) (offset + m) fs (grind arith) (omega arith)
                (omega arith) some)
        | yes short ↦ elim (dec_lt offset (length bytes)) [
          | no end ↦
              rw
                (
                  frames_from-end bytes m (suc fuel) offset (omega arith),
                  terminator-whole (length bytes) k m pos (omega arith),
                  take-all offset bytes (omega arith),
                )
                (receive_terminator (before ++ bytes) fs some)
          | yes left ↦ rw (
            frames_from-short bytes m fuel offset left short,
            terminator-part (length bytes) k m (length bytes - offset) (omega arith) (omega arith)
                (omega arith),
            receive_short (before ++ take offset bytes)
                (take (length bytes - offset) (drop offset bytes)) (length bytes - offset) fs
                (omega arith) (omega arith)
                (omega (
                  arith,
                  length-take (length bytes - offset) (drop offset bytes),
                  length-drop offset bytes,
                )),
            append_assoc before (take offset bytes) _,
            take-add offset (length bytes - offset) bytes,
            take-all (offset + (length bytes - offset)) bytes (omega arith),
          )
        ]
      ]

module _ (m : ℕ) (pos : 0 < m) (fits : m < 65536) where
  -- Frames fed to an assembler that already holds `before`: one message comes out, with what was
  -- held in front, and the frames behind are received as by an empty assembler.
  pub receive-frame_chunks :
      (before bytes : List ℕ) (fs : List (List ℕ))
      → before ++ bytes ≢ []
      → receive (record { buf = before }) (frame_chunks bytes m ++ fs) m
        ≡ ((receive new fs m).0, (before ++ bytes) ∷ (receive new fs m).1)
  unfolding frame_chunks
  receive-frame_chunks before bytes fs some =
      let largest : max m 1 ≡ m = omega arith in
      let loop =
        receive_from m pos fits (length bytes) before bytes 0 0 fs (omega arith) (omega arith)
          (omega arith) some in
      let started = rw append-nil at loop in
      rw
        (
          largest,
          append_assoc (frames_from (length bytes) bytes m 0) (terminator (length bytes) m) fs,
        )
        started

  -- An assembler that holds nothing receives a stream of messages, each not empty and cut by
  -- `frame_chunks` with the same chunk size from 1 to 65535, as these messages in order, and holds
  -- nothing at the end.
  pub receive-stream :
      (messages : List (List ℕ))
      → All (λ b. b ≢ []) messages
      → receive new (concat (map (λ b. frame_chunks b m) messages)) m ≡ (new, messages)
  receive-stream [] h = unfold receive in refl
  receive-stream (b ∷ messages) h = rw (
    receive-frame_chunks [] b (concat (map (λ b. frame_chunks b m) messages)) h.0,
    receive-stream messages h.1,
  )
