-- ===== src/Mesh/Packets.antt =====
-- The framing of a tunnel's TCP stream: `read_packet`, `write_packet`. A stream is the list of the
-- bytes that are still to be read; a writer is the list of those written.
pub mod Laws
use Prim.Native.String.{◌++◌ as text_append}
use p2p_common.Common.{
  ℕ, zero, suc, ◌+◌, ◌*◌, ◌/◌, ◌%◌, ◌^◌, String, List, [], ◌∷◌, ◌++◌, ltb, leb, if◌then◌else◌,
  length, take, drop,
}
use p2p_common.Common.Result.{Result, ok, err}

-- `read_exact` into a buffer of `n` bytes
abbrev pub read_exact : ℕ → List ℕ → Result (List ℕ × List ℕ)
read_exact n stream =
    if leb n (length stream)
    then ok (take n stream, drop n stream)
    else err "failed to fill whole buffer"

abbrev pub max_packet : ℕ
max_packet = 10 * 1024 * 1024

-- The rest of `read_packet` once the length is there.
abbrev pub read_body : ℕ → List ℕ → Result (List ℕ × List ℕ)
read_body len rest = if ltb max_packet len then err "Packet too large" else read_exact len rest

unfoldable pub read_packet : List ℕ → Result (List ℕ × List ℕ)
read_packet (a ∷ b ∷ c ∷ d ∷ rest) = read_body (a * 16777216 + b * 65536 + c * 256 + d) rest
read_packet _ = err "failed to fill whole buffer"

-- `(n as u32).to_be_bytes()`
abbrev pub be32 : ℕ → List ℕ
be32 n = (n % 2 ^ 32) / 16777216 ∷ ((n / 65536) % 256) ∷ ((n / 256) % 256) ∷ (n % 256) ∷ []

unfoldable pub write_packet : List ℕ → List ℕ → List ℕ
write_packet writer bytes = writer ++ (be32 (length bytes) ++ bytes)
