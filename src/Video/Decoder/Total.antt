-- ===== src/Video/Decoder/Total.antt =====
-- The decoder never writes out of range.
use p2p_common.Common.{
  ℕ, zero, suc, ◌≡◌, false, [], ◌∷◌, ◌<◌, ◌+◌, ◌*◌, ◌/◌, refl, ◌∙◌, ◌||◌, some, List, length, All,
  get_elem?, ltb, leb, arith, Bool-cases, inl, inr, ap,
}
use p2p_common.Common.Int.{clamp_u8-lt}
use p2p_common.Video.{Colour, decoded}
use p2p_common.Video.Colours.{IsBytes}
use p2p_common.Video.Loops.{wrap, for_range-Keeps, set_elem?-All}
use p2p_common.Video.Encoder.Planes.{IsByte}
use p2p_common.Video.Decoder.{
  Frame, then_set, set_bgra, read_planes, write_pixel, decode_pixel, decode_row, yuv420p_to_bgra,
}

decoded-IsBytes : (y u v : ℕ) → IsBytes (decoded y u v)
unfolding decoded
decoded-IsBytes y u v = (clamp_u8-lt _, clamp_u8-lt _, clamp_u8-lt _)

-- A buffer of bytes, as long as it was
abbrev pub Same : ℕ → List ℕ → Type 0
Same n out = (length out ≡ n) × All IsByte out

set_bgra-Same :
    (n o : ℕ) (out : List ℕ) (c : Colour)
    → o + 3 < n
    → IsBytes c
    → Same n out
    → (after : List ℕ) × (set_bgra out o c ≡ some after) × Same n after
set_bgra-Same n o out c room (red, green, blue) (long, all) =
    let (b, set_b, same_b, all_b) =
      set_elem?-All IsByte out o c.blue (omega (arith, long)) all blue in
    let (g, set_g, same_g, all_g) =
      set_elem?-All IsByte b (o + 1) c.green (omega (arith, same_b, long)) all_b green in
    let (r, set_r, same_r, all_r) =
      set_elem?-All IsByte g (o + 2) c.red (omega (arith, same_g, same_b, long)) all_g red in
    let (a, set_a, same_a, all_a) =
      set_elem?-All IsByte r (o + 3) 255 (omega (arith, same_r, same_g, same_b, long)) all_r
        (omega arith) in
    (
      a,
      ap (λ s. then_set (then_set (then_set s (o + 1) c.green) (o + 2) c.red) (o + 3) 255) set_b
          ∙ ap (λ s. then_set (then_set s (o + 2) c.red) (o + 3) 255) set_g
          ∙ ap (λ s. then_set s (o + 3) 255) set_r
          ∙ set_a,
      (same_a ∙ same_r ∙ same_g ∙ same_b ∙ long, all_a),
    )

module _ {A : Type 0} where
  get_elem?-there : (xs : List A) (i : ℕ) → i < length xs → (x : A) × (get_elem? xs i ≡ some x)
  get_elem?-there [] i small = absurd (omega arith)
  get_elem?-there (x ∷ xs) zero small = (x, refl)
  get_elem?-there (x ∷ xs) (suc i) small = get_elem?-there xs i (omega (arith, small))

read_planes-there :
    (f : Frame) (i j k : ℕ)
    → i < length f.y
    → j < length f.u
    → k < length f.v
    → (y u v : ℕ) × (read_planes f i j k ≡ some (decoded y u v))
read_planes-there f i j k in_y in_u in_v =
    let (y, read_y) = get_elem?-there f.y i in_y in
    let (u, read_u) = get_elem?-there f.u j in_u in
    let (v, read_v) = get_elem?-there f.v k in_v in
    (y, u, v, rw (read_planes, read_y, read_u, read_v) refl)

write_pixel-Same :
    (n o : ℕ) (out : List ℕ) (y u v : ℕ)
    → Same n out
    → (after : List ℕ) × (write_pixel out o (some (decoded y u v)) ≡ some after) × Same n after
write_pixel-Same n o out y u v same = elim (Bool-cases (ltb (o + 3) (length out))) [
  | inr full ↦ (out, rw (write_pixel, full) refl, same)
  | inl room ↦
      (let (after, wrote, kept) =
          set_bgra-Same n o out (decoded y u v) (ground (arith, room, same.0))
            (decoded-IsBytes y u v) same in
        (after, rw (write_pixel, room) wrote, kept))
]

decode_pixel-Same :
    (n : ℕ) (f : Frame) (h w : ℕ) (out : List ℕ)
    → Same n out
    → (after : List ℕ) × (decode_pixel f h w out ≡ some after) × Same n after
unfolding decode_pixel
decode_pixel-Same n f h w out same =
    let i = wrap (wrap (h * f.y_stride) + w) in
    let j = wrap (wrap (h / 2 * f.u_stride) + w / 2) in
    let k = wrap (wrap (h / 2 * f.v_stride) + w / 2) in
    let o = wrap (wrap (wrap (h * f.width) + w) * 4) in
    elim (Bool-cases (leb (length f.y) i || (leb (length f.u) j || leb (length f.v) k))) [
      | inl skip ↦ (out, rw skip refl, same)
      | inr held ↦
          (let (in_y, in_u, in_v) = outside f i j k held in
            let (y, u, v, read) = read_planes-there f i j k in_y in_u in_v in
            let (after, wrote, kept) = write_pixel-Same n o out y u v same in
            (after, rw (held, read) wrote, kept))
    ]
  where
    outside :
        (f : Frame) (i j k : ℕ)
        → (leb (length f.y) i || (leb (length f.u) j || leb (length f.v) k)) ≡ false
        → (i < length f.y) × (j < length f.u) × (k < length f.v)
    outside f i j k held = (ground (arith, held), ground (arith, held), ground (arith, held))

-- Whatever the planes, the sizes and the strides are, a release build of the decoder, where `usize`
-- wraps, does not panic, and leaves a buffer of bytes as long as it was.
pub yuv420p_to_bgra-Same :
    (f : Frame) (out : List ℕ)
    → All IsByte out
    → (after : List ℕ) × (yuv420p_to_bgra f out ≡ some after)
      × (length after ≡ length out)
      × All IsByte after
unfolding yuv420p_to_bgra
yuv420p_to_bgra-Same f out bytes =
    let n = length out in
    let (after, went, same) =
      for_range-Keeps (λ h s. Same n s) (decode_row f) f.height 0 f.height out (omega arith)
        (λ h s from below kept.
          for_range-Keeps (λ w r. Same n r) (decode_pixel f h) f.width 0 f.width s (omega arith)
            (λ w r above less still. decode_pixel-Same n f h w r still) kept)
        (refl, bytes) in
    (after, went, same.0, same.1)
