-- ===== src/Chunking.antt =====
-- client-core/src/rtc/chunking.rs: a message is cut into frames, each with a two-byte length, and
-- the other side puts it together again. A byte is a number below 256.
pub mod RoundTrip
pub mod Outcomes
pub mod Edges
mod Examples
use p2p_common.Common.{
  ℕ, zero, suc, ◌+◌, ◌-◌, ◌*◌, ◌/◌, ◌%◌, min, max, List, [], ◌∷◌, ◌++◌, Bool, false, ltb, ◌==◌,
  ◌&&◌, if◌then◌else◌, length, take, drop,
}

abbrev pub default_max_chunk_payload : ℕ
default_max_chunk_payload = 10240

-- `(n as u16).to_be_bytes()`: the length wraps at 65536.
abbrev pub be16 : ℕ → List ℕ
be16 n = (n % 65536) / 256 ∷ n % 256 ∷ []

-- One round of the `while` loop for each unit of fuel; the offset grows by at least 1 in a round.
pub frames_from : ℕ → List ℕ → ℕ → ℕ → List (List ℕ)
frames_from zero bytes max_size offset = []
frames_from (suc fuel) bytes max_size offset =
    let full_len = length bytes in
    let chunk_size = min max_size (full_len - offset) in
    let chunk = take chunk_size (drop offset bytes) in
    let rest = frames_from fuel bytes max_size (offset + chunk_size) in
    if ltb offset full_len then (be16 chunk_size ++ chunk) ∷ rest else []

-- The last frame of a message whose length is a multiple of the chunk size is empty.
abbrev pub terminator : ℕ → ℕ → List (List ℕ)
terminator full_len max_size = if full_len % max_size == 0 then (0 ∷ 0 ∷ []) ∷ [] else []

unfoldable pub frame_chunks : List ℕ → ℕ → List (List ℕ)
unfolding frames_from
frame_chunks bytes max_chunk_payload =
    let max_size = max max_chunk_payload 1 in
    frames_from (length bytes) bytes max_size 0 ++ terminator (length bytes) max_size

pub is_terminator : List ℕ → Bool
is_terminator (a ∷ b ∷ []) = a == 0 && b == 0
is_terminator _ = false

pub data ChunkOutcome : Type 0 where
  incomplete : ChunkOutcome
  complete : List ℕ → ChunkOutcome
  ignored : ChunkOutcome
  too_small : ℕ → ChunkOutcome
  length_mismatch : ℕ → ℕ → ChunkOutcome

pub record ChunkAssembler : Type 0 where
  pub buf : List ℕ

abbrev pub new : ChunkAssembler
new = record { buf = [] }

pub buffered_len : ChunkAssembler → ℕ
buffered_len a = length a.buf

-- `Complete(std::mem::take(&mut self.buf))`
abbrev pub take_buf : List ℕ → ChunkAssembler × ChunkOutcome
take_buf buf = (new, complete buf)

-- A length of 0 ends the message, if there is one.
abbrev pub end_message : List ℕ → ChunkAssembler × ChunkOutcome
end_message [] = (record { buf = [] }, ignored)
end_message (b ∷ bs) = take_buf (b ∷ bs)

abbrev pub effective_max : ℕ → ℕ
effective_max max_chunk_payload =
    if max_chunk_payload == 0 then default_max_chunk_payload else max_chunk_payload

abbrev pub append_chunk : List ℕ → ℕ → List ℕ → ℕ → ChunkAssembler × ChunkOutcome
append_chunk buf chunk_len body max_chunk_payload =
    let grown = buf ++ take chunk_len body in
    if ltb chunk_len (effective_max max_chunk_payload)
    then take_buf grown
    else (record { buf = grown }, incomplete)

unfoldable pub push : ChunkAssembler → List ℕ → ℕ → ChunkAssembler × ChunkOutcome
push a [] max_chunk_payload = (a, ignored)
push a (x ∷ []) max_chunk_payload = (a, too_small 1)
push a (hi ∷ lo ∷ body) max_chunk_payload =
    let chunk_len = hi * 256 + lo in
    if chunk_len == 0
    then end_message a.buf
    else if ltb (2 + length body) (2 + chunk_len)
    then (new, length_mismatch chunk_len (2 + length body - 2))
    else append_chunk a.buf chunk_len body max_chunk_payload

-- What a receiver keeps of a stream of frames: the assembler, and the messages in order.
abbrev pub deliver : ChunkOutcome → List (List ℕ) → List (List ℕ)
deliver (complete message) rest = message ∷ rest
deliver incomplete rest = rest
deliver ignored rest = rest
deliver (too_small _) rest = rest
deliver (length_mismatch _ _) rest = rest

unfoldable pub receive : ChunkAssembler → List (List ℕ) → ℕ → ChunkAssembler × List (List ℕ)
receive a [] max_chunk_payload = (a, [])
receive a (frame ∷ frames) max_chunk_payload =
    let (a', outcome) = push a frame max_chunk_payload in
    let (a'', messages) = receive a' frames max_chunk_payload in (a'', deliver outcome messages)
