-- ===== src/Video/Examples.antt =====
-- The tests of video_utils.rs on small pictures, and the theorems on the conversion at concrete inputs.
use p2p_common.Common.{
  ℕ, ◌≡◌, refl, some, List, [], ◌∷◌, ◌++◌, length, replicate, All, arith, concat,
}
use p2p_common.Common.Int.{clamp_u8, shr8, ◌+ℤ◌, ◌*ℤ◌, ◌-ℤ◌}
use p2p_common.Video.{Colour, luma, chroma_u, chroma_v, decoded}
use p2p_common.Video.Loops.{for_range, set_elem?}
use p2p_common.Video.Colours.{Near, decoded-Near}
use p2p_common.Video.Encoder.{Size, bgra_to_yuv420p}
use p2p_common.Video.Encoder.Planes.{IsByte, HasChroma}
use p2p_common.Video.Encoder.Reference.{luma_plane, bgra_to_yuv420p-luma}
use p2p_common.Video.Decoder.{Frame, yuv420p_to_bgra}
use p2p_common.Video.Decoder.Total.{yuv420p_to_bgra-Same}

abbrev red : Colour
red = record { red = 255; green = 0; blue = 0 }

decoded-Near_example :
    let back = decoded (luma red) (chroma_u red) (chroma_v red) in
    Near back.red 255 × Near back.green 0 × Near back.blue 0
decoded-Near_example = decoded-Near red (omega arith, omega arith, omega arith)

-- Four pixels, scaled to the size that they have
abbrev four : List ℕ
four = concat (replicate 4 (128 ∷ 128 ∷ 128 ∷ 255 ∷ []))

abbrev square : Size
square = record { src_w = 2; src_h = 2; dst_w = 2; dst_h = 2 }

bgra_to_yuv420p-luma_example :
    (us vs : List ℕ) × (bgra_to_yuv420p four square ≡ some (luma_plane four square ++ us ++ vs))
    × HasChroma square us vs
bgra_to_yuv420p-luma_example =
    bgra_to_yuv420p-luma four square (λ dy dx low narrow. (omega arith, omega arith, omega arith))

grey : bgra_to_yuv420p four square ≡ some (replicate 6 128)
unfolding bgra_to_yuv420p for_range set_elem? luma chroma_u chroma_v replicate clamp_u8 shr8 ◌+ℤ◌
    ◌*ℤ◌ ◌-ℤ◌
grey = refl

abbrev frame : Frame
frame = record {
  y = 128 ∷ 128 ∷ 128 ∷ 128 ∷ [];
  u = 128 ∷ [];
  v = 128 ∷ [];
  width = 2;
  height = 2;
  y_stride = 2;
  u_stride = 1;
  v_stride = 1;
}

abbrev room : List ℕ
room = 0 ∷ 0 ∷ 0 ∷ 0 ∷ 7 ∷ []

yuv420p_to_bgra-Same_example :
    (after : List ℕ) × (yuv420p_to_bgra frame room ≡ some after)
    × (length after ≡ length room)
    × All IsByte after
yuv420p_to_bgra-Same_example =
    yuv420p_to_bgra-Same frame room
      (omega arith, (omega arith, (omega arith, (omega arith, (omega arith, tt)))))
