-- ===== src/Chunking/Examples.antt =====
-- Tests of the chunking module, and its theorems at concrete inputs.
use p2p_common.Common.{
  ℕ, ◌≡◌, refl, List, [], ◌∷◌, map, concat, length, replicate, length-replicate, arith,
}
use p2p_common.Chunking.{frame_chunks, push, receive, new, ignored, too_small, length_mismatch}
use p2p_common.Chunking.RoundTrip.{receive-stream}
use p2p_common.Chunking.Outcomes.{push-Explains, Explains}
use p2p_common.Chunking.Edges.{receive-wrapped_length}

abbrev three : List ℕ
three = 7 ∷ 8 ∷ 9 ∷ []

-- The tests of chunking.rs.
exact_multiple : frame_chunks (7 ∷ 8 ∷ []) 2 ≡ (0 ∷ 2 ∷ 7 ∷ 8 ∷ []) ∷ (0 ∷ 0 ∷ []) ∷ []
unfolding frame_chunks
exact_multiple = refl

empty_message :
    (frame_chunks [] 10240 ≡ (0 ∷ 0 ∷ []) ∷ []) × ((push new (0 ∷ 0 ∷ []) 10240).1 ≡ ignored)
unfolding frame_chunks push
empty_message = (refl, refl)

small_frame : (push new (127 ∷ []) 10240).1 ≡ too_small 1
unfolding push
small_frame = refl

mismatch : push new (1 ∷ 244 ∷ 1 ∷ 2 ∷ 3 ∷ []) 10240 ≡ (new, length_mismatch 500 3)
unfolding push
mismatch = refl

receive-stream_example :
    receive new (concat (map (λ b. frame_chunks b 2) (three ∷ (5 ∷ 6 ∷ []) ∷ []))) 2
    ≡ (new, three ∷ (5 ∷ 6 ∷ []) ∷ [])
receive-stream_example =
    receive-stream 2 (omega arith) (omega arith) (three ∷ (5 ∷ 6 ∷ []) ∷ [])
      ((λ e. cc), ((λ e. cc), tt))

push-Explains_example :
    Explains 4 new (0 ∷ 2 ∷ 7 ∷ []) (push new (0 ∷ 2 ∷ 7 ∷ []) 4).0 (push new (0 ∷ 2 ∷ 7 ∷ []) 4).1
push-Explains_example = push-Explains new (0 ∷ 2 ∷ 7 ∷ []) 4

-- 65536 bytes, cut with a chunk size of 65536.
abbrev zeros : List ℕ
zeros = replicate 65536 0

length-zeros : length zeros ≡ 65536
length-zeros = length-replicate 65536 0

receive-wrapped_length_example : receive new (frame_chunks zeros 65536) 65536 ≡ (new, [])
receive-wrapped_length_example =
    receive-wrapped_length zeros 65536 (omega (arith, length-zeros)) (omega (arith, length-zeros))
      (omega (arith, length-zeros))
