-- ===== src/Chunking/Outcomes.antt =====
-- What the frames of a message are, and how an assembler answers a frame on each branch.
use mathlib.Core.List.{append_assoc, append-nil, map-append}
use native.Mathlib.Decide.{dec_lt}
use p2p_common.Common.{
  ℕ, zero, suc, ◌+◌, ◌-◌, ◌*◌, ◌%◌, ◌≤◌, ◌<◌, ◌≡◌, refl, sym, List, [], ◌∷◌, ◌++◌, arith, ltb, ◌==◌,
  min, max, length, take, drop, concat, map, All, All-append, length-take, length-append, drop-all,
  drop-drop, take-append-drop, lt→ltb, ltb-false, ◌⊎◌, inl, inr, Bool-cases,
}
use p2p_common.Chunking.{
  frames_from, frame_chunks, terminator, push, new, ChunkAssembler, complete, incomplete, ignored,
  too_small, length_mismatch, end_message, append_chunk, ChunkOutcome, effective_max,
}

abbrev pub payload : List ℕ → List ℕ
payload = drop 2

payload-frames_from :
    (fuel : ℕ) (bytes : List ℕ) (m offset : ℕ)
    → 0 < m
    → length bytes - offset ≤ fuel
    → concat (map payload (frames_from fuel bytes m offset)) ≡ drop offset bytes
unfolding frames_from
payload-frames_from zero bytes m offset pos enough = sym (drop-all offset bytes (omega arith))
payload-frames_from (suc fuel) bytes m offset pos enough = elim (dec_lt offset (length bytes)) [
  | yes left ↦
      rw
        (
          lt→ltb offset (length bytes) left,
          payload-frames_from fuel bytes m (offset + min m (length bytes - offset)) pos
              (omega arith),
        )
        (rw (← drop-drop offset (min m (length bytes - offset)) bytes)
          (take-append-drop (min m (length bytes - offset)) (drop offset bytes)))
  | no end ↦
      rw (ltb-false offset (length bytes) (omega arith)) (sym (drop-all offset bytes (omega arith)))
]

-- Every frame carries its two length bytes and at most a chunk.
abbrev pub Framed : ℕ → List ℕ → Type 0
Framed m f = (2 ≤ length f) × (length f ≤ m + 2)

frames_from-Framed :
    (fuel : ℕ) (bytes : List ℕ) (m offset : ℕ) → All (Framed m) (frames_from fuel bytes m offset)
unfolding frames_from
frames_from-Framed zero bytes m offset = tt
frames_from-Framed (suc fuel) bytes m offset = elim (dec_lt offset (length bytes)) [
  | yes left ↦ rw (lt→ltb offset (length bytes) left) (
    (omega arith, omega (arith, length-take (min m (length bytes - offset)) (drop offset bytes))),
    frames_from-Framed fuel bytes m (offset + min m (length bytes - offset)),
  )
  | no end ↦ rw (ltb-false offset (length bytes) (omega arith)) tt
]

terminator-Framed : (n m : ℕ) → All (Framed m) (terminator n m)
terminator-Framed n m = elim (Bool-cases (n % m == 0)) [
  | inl whole ↦ rw whole ((omega arith, omega arith), tt)
  | inr part ↦ rw part tt
]

concat-append : (xs ys : List (List ℕ)) → concat (xs ++ ys) ≡ concat xs ++ concat ys
concat-append [] ys = refl
concat-append (x ∷ xs) ys = rw (concat-append xs ys) (sym (append_assoc x (concat xs) (concat ys)))

payload-terminator : (n m : ℕ) → concat (map payload (terminator n m)) ≡ []
payload-terminator n m = elim (Bool-cases (n % m == 0)) [
  | inl whole ↦ rw whole
  | inr part ↦ rw part
]

-- For every message and every chunk size, also one of 0 or above 65535, the payloads of the frames
-- make up the message, and each frame has its two length bytes and at most one chunk (of 1 byte
-- where the size is 0).
pub frame_chunks_lem :
    (bytes : List ℕ) (m : ℕ)
    → (concat (map payload (frame_chunks bytes m)) ≡ bytes)
      × All (Framed (max m 1)) (frame_chunks bytes m)
unfolding frame_chunks
frame_chunks_lem bytes m =
    let frames = frames_from (length bytes) bytes (max m 1) 0 in
    let last = terminator (length bytes) (max m 1) in
    (
      rw
          (
            map-append payload frames last,
            concat-append (map payload frames) (map payload last),
            payload-terminator (length bytes) (max m 1),
            append-nil (concat (map payload frames)),
          )
          (payload-frames_from (length bytes) bytes (max m 1) 0 (omega arith) (omega arith)),
      All-append (Framed (max m 1)) frames last
          (frames_from-Framed (length bytes) bytes (max m 1) 0)
          (terminator-Framed (length bytes) (max m 1)),
    )

-- The length that a frame declares, and that many bytes of what follows
abbrev pub declared : List ℕ → ℕ
declared (hi ∷ lo ∷ body) = hi * 256 + lo
declared _ = 0

abbrev pub declared_part : List ℕ → List ℕ
declared_part f = take (declared f) (payload f)

-- A chunk is full at the chunk size, or at 10240 bytes where that is 0.
abbrev pub IsFull : ℕ → ℕ → Type 0
IsFull m n = (m ≡ 0 → 10240 ≤ n) × (0 < m → m ≤ n)

abbrev pub IsShort : ℕ → ℕ → Type 0
IsShort m n = (m ≡ 0 → n < 10240) × (0 < m → n < m)

-- What the answer to a frame says: where the bytes of the frame went.
abbrev pub Explains : ℕ → ChunkAssembler → List ℕ → ChunkAssembler → ChunkOutcome → Type 0
Explains m a f b incomplete =
    (b.buf ≡ a.buf ++ declared_part f)
    × (0 < declared f)
    × (declared f + 2 ≤ length f)
    × IsFull m (declared f)
Explains m a f b (complete message) =
    (message ≡ a.buf ++ declared_part f)
    × (0 < length message)
    × (declared f + 2 ≤ length f)
    × ((0 < declared f → IsShort m (declared f)) × (b ≡ new))
Explains m a f b ignored = (b ≡ a) × ((f ≡ []) ⊎ ((declared f ≡ 0) × (a.buf ≡ [])))
Explains m a f b (too_small n) = (b ≡ a) × (n ≡ length f) × (n ≡ 1)
Explains m a f b (length_mismatch wanted available) =
    (b ≡ new) × (available + 2 ≡ length f) × (wanted ≡ declared f) × (available < wanted)

end_message-Explains :
    (buf body : List ℕ) (m x y : ℕ)
    → x * 256 + y ≡ 0
    → Explains m (record { buf = buf }) (x ∷ y ∷ body) (end_message buf).0 (end_message buf).1
end_message-Explains [] body m x y none_declared = (refl, inr (none_declared, refl))
end_message-Explains (b ∷ bs) body m x y none_declared = (
  rw (none_declared, append-nil) refl,
  omega arith,
  omega (arith, none_declared),
  ((λ some. absurd (omega (arith, none_declared, some))), refl),
)

append_chunk-Explains :
    (buf body : List ℕ) (m x y : ℕ)
    → 0 < x * 256 + y
    → x * 256 + y ≤ length body
    → Explains m
        (record { buf = buf })
        (x ∷ y ∷ body)
        (append_chunk buf (x * 256 + y) body m).0
        (append_chunk buf (x * 256 + y) body m).1
append_chunk-Explains buf body m x y some fits =
    elim (Bool-cases (ltb (x * 256 + y) (effective_max m))) [
      | inl short ↦ rw short (
        refl,
        omega (arith, length-append buf (take (x * 256 + y) body), length-take (x * 256 + y) body),
        omega arith,
        ((λ positive. (ground (arith, short), ground (arith, short))), refl),
      )
      | inr full ↦ rw full (refl, some, omega arith, (ground (arith, full), ground (arith, full)))
    ]

-- The answer explains the bytes on every branch. A frame that is too small or ignored changes nothing;
-- a frame shorter than the length that it declares empties the buffer and says by how much; any other
-- adds exactly the bytes that it declares to the buffer. The message is then complete if it declares none
-- or less than the chunk size (10240 for a size of 0), and it is not if it declares as much; a completed
-- message is never empty, and leaves the buffer empty.
pub push-Explains :
    (a : ChunkAssembler) (f : List ℕ) (m : ℕ) → Explains m a f (push a f m).0 (push a f m).1
unfolding push
push-Explains a [] m = (refl, inl refl)
push-Explains a (x ∷ []) m = (refl, refl, refl)
push-Explains a (x ∷ y ∷ body) m = elim (Bool-cases (x * 256 + y == 0)) [
  | inl last ↦ rw last (end_message-Explains a.buf body m x y (ground (arith, last)))
  | inr more ↦ elim (Bool-cases (ltb (2 + length body) (2 + (x * 256 + y)))) [
    | inl wrong ↦ rw (more, wrong) (refl, omega arith, refl, ground (arith, wrong))
    | inr right ↦
        rw (more, right)
          (append_chunk-Explains a.buf body m x y (ground (arith, more)) (ground (arith, right)))
  ]
]
