-- ===== src/Chunking/Edges.antt =====
-- Chunk sizes outside 1 to 65535, which a peer may ask for in its handshake.
use p2p_common.Common.{
  ℕ, zero, suc, ◌+◌, ◌-◌, ◌/◌, ◌%◌, ◌≤◌, ◌<◌, ◌≡◌, refl, ap, sym, ◌∙◌, List, [], ◌∷◌, ◌++◌, arith,
  ◌==◌, min, max, length, drop, map, take-all, drop-all, drop-drop, length-drop, lt→ltb, inl, inr,
  Bool-cases,
}
use p2p_common.Chunking.{frames_from, frame_chunks, terminator, be16, push, receive, new}
use p2p_common.Chunking.RoundTrip.{frames_from-end, frames_from-full, terminator-whole}

abbrev pub one_byte : ℕ → List ℕ
one_byte b = b ∷ []

zero_step :
    (b : ℕ) (fs : List (List ℕ))
    → receive new ((be16 1 ++ one_byte b) ∷ fs) 0
      ≡ ((receive new fs 0).0, one_byte b ∷ (receive new fs 0).1)
unfolding receive push
zero_step b fs = refl

zero_end : receive new ((0 ∷ 0 ∷ []) ∷ []) 0 ≡ (new, [])
unfolding receive push
zero_end = refl

zero_from :
    (fuel : ℕ) (bytes rest : List ℕ) (offset : ℕ)
    → drop offset bytes ≡ rest
    → length bytes - offset ≤ fuel
    → receive new (frames_from fuel bytes 1 offset ++ (0 ∷ 0 ∷ []) ∷ []) 0
      ≡ (new, map one_byte rest)
zero_from zero bytes rest offset e enough =
    let r : rest ≡ [] = sym e ∙ drop-all offset bytes (omega arith) in
    rw (r, frames_from-end bytes 1 zero offset (omega arith)) zero_end
zero_from (suc fuel) bytes [] offset e enough =
    rw
      (frames_from-end bytes 1 (suc fuel) offset
        (omega (arith, length-drop offset bytes, ap length e)))
      zero_end
zero_from (suc fuel) bytes (x ∷ rest) offset e enough =
    let n : suc (length rest) ≡ length bytes - offset =
      omega (arith, length-drop offset bytes, ap length e) in
    rw (
      frames_from-full bytes 1 fuel offset (omega arith) (omega arith),
      e,
      zero_step x _,
      zero_from fuel bytes rest (offset + 1) (sym (drop-drop offset 1 bytes) ∙ ap (drop 1) e)
          (omega arith),
    )

-- A chunk size of 0 on both sides does not keep messages whole: the sender cuts chunks of one byte,
-- the receiver takes 10240 for the size of a full chunk, and every byte comes out as a message.
pub receive-zero_size :
    (bytes : List ℕ) → receive new (frame_chunks bytes 0) 0 ≡ (new, map one_byte bytes)
unfolding frame_chunks
receive-zero_size bytes =
    rw (terminator-whole (length bytes) (length bytes) 1 (omega arith) (omega arith))
      (zero_from (length bytes) bytes bytes 0 refl (omega arith))

lost_end : (n m : ℕ) → receive new (terminator n m) m ≡ (new, [])
unfolding receive push
lost_end n m = elim (Bool-cases (n % m == 0)) [ inl whole ↦ rw whole | inr part ↦ rw part ]

lost_step :
    (bytes : List ℕ) (n m : ℕ) (fs : List (List ℕ))
    → n % 65536 ≡ 0
    → receive new ((be16 n ++ bytes) ∷ fs) m ≡ receive new fs m
unfolding receive push
lost_step bytes n m fs e =
    let hi : (n % 65536) / 256 ≡ 0 = omega arith in
    let lo : n % 256 ≡ 0 = omega arith in rw (hi, lo)

-- A message that fits in one chunk is one frame.
frames_from-one :
    (b : ℕ) (bs : List ℕ) (m : ℕ)
    → length (b ∷ bs) ≤ m
    → frames_from (length (b ∷ bs)) (b ∷ bs) m 0 ≡ (be16 (length (b ∷ bs)) ++ b ∷ bs) ∷ []
unfolding frames_from
frames_from-one b bs m fits =
    let size : min m (suc (length bs) - 0) ≡ suc (length bs) = omega arith in
    let end : suc (length bs) ≤ 0 + suc (length bs) = omega arith in
    rw (
      size,
      lt→ltb 0 (suc (length bs)) (omega arith),
      frames_from-end (b ∷ bs) m (length bs) (0 + suc (length bs)) end,
      take-all (length bs) bs (omega arith),
    )

-- With a chunk size of 65536 or more, a message of 65536 bytes, or of a multiple of that up to the
-- chunk size, is lost: its one frame declares a length of 0, which the receiver ignores.
pub receive-wrapped_length :
    (bytes : List ℕ) (m : ℕ)
    → length bytes % 65536 ≡ 0
    → 0 < length bytes
    → length bytes ≤ m
    → receive new (frame_chunks bytes m) m ≡ (new, [])
unfolding frame_chunks
receive-wrapped_length [] m wraps some fits = elim some [ ]
receive-wrapped_length (b ∷ bs) m wraps some fits =
    let largest : max m 1 ≡ m = omega arith in
    rw (largest, frames_from-one b bs m fits)
      (lost_step (b ∷ bs) (length (b ∷ bs)) m (terminator (length (b ∷ bs)) m) wraps
        ∙ lost_end (length (b ∷ bs)) m)
