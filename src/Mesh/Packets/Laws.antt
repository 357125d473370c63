-- ===== src/Mesh/Packets/Laws.antt =====
-- Packets that are written can be read again.
use p2p_common.Common.{
  true, le→leb, ℕ, ◌+◌, ◌*◌, ◌/◌, ◌%◌, ◌^◌, ◌≤◌, ◌<◌, ◌≡◌, refl, ap, List, [], ◌∷◌, ◌++◌, leb,
  length, take, drop, arith, length-append, lt→ltb, ltb-false,
}
use p2p_common.Common.Result.{ok, err}
use p2p_common.Mesh.Packets.{read_packet, write_packet, max_packet}

be32_round_trip :
    (n : ℕ)
    → n < 2 ^ 32
    → (n % 2 ^ 32) / 16777216 * 16777216
        + (n / 65536) % 256 * 65536
        + (n / 256) % 256 * 256
        + n % 256
      ≡ n
be32_round_trip n h = omega arith

take-append : (xs ys : List ℕ) → take (length xs) (xs ++ ys) ≡ xs
take-append [] ys = refl
take-append (x ∷ xs) ys = ap (λ l. x ∷ l) (take-append xs ys)

drop-append : (xs ys : List ℕ) → drop (length xs) (xs ++ ys) ≡ ys
drop-append [] ys = refl
drop-append (x ∷ xs) ys = drop-append xs ys

-- A packet of at most 10 MiB that was written is read back, and what was written behind it is left
-- in the stream.
pub read-write_packet :
    (bytes rest : List ℕ)
    → length bytes ≤ max_packet
    → read_packet (write_packet [] bytes ++ rest) ≡ ok (bytes, rest)
unfolding read_packet write_packet
read-write_packet bytes rest fits =
    let enough : leb (length bytes) (length (bytes ++ rest)) ≡ true =
      le→leb (length bytes) (length (bytes ++ rest)) (omega (arith, length-append bytes rest)) in
    rw (
      be32_round_trip (length bytes) (omega arith),
      ltb-false max_packet (length bytes) fits,
      enough,
      take-append bytes rest,
      drop-append bytes rest,
    )

-- A packet of more than 10 MiB is written all the same, up to 4 GiB, and the reader refuses it.
pub read-write_packet_too_large :
    (bytes rest : List ℕ)
    → max_packet < length bytes
    → length bytes < 2 ^ 32
    → read_packet (write_packet [] bytes ++ rest) ≡ err "Packet too large"
unfolding read_packet write_packet
read-write_packet_too_large bytes rest large fits =
    rw (be32_round_trip (length bytes) fits, lt→ltb max_packet (length bytes) large)
