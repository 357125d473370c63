-- ===== src/Video/Decoder.antt =====
-- `yuv420p_to_bgra` of client-core/src/rtc/video_utils.rs without `simd-yuv`: the pixels are written into a
-- buffer of the caller. A pixel that a plane does not hold, or that the buffer has no room for, is skipped.
pub mod Total
use p2p_common.Common.{
  ℕ, ◌+◌, ◌*◌, ◌/◌, Bool, true, false, ◌||◌, Option, none, some, List, length, get_elem?, ltb, leb,
  if◌then◌else◌,
}
use p2p_common.Video.{Colour, decoded}
use p2p_common.Video.Loops.{for_range, set_elem?, wrap}

pub record Frame : Type 0 where
  pub y : List ℕ
  pub u : List ℕ
  pub v : List ℕ
  pub width : ℕ
  pub height : ℕ
  pub y_stride : ℕ
  pub u_stride : ℕ
  pub v_stride : ℕ

abbrev pub then_set : Option (List ℕ) → ℕ → ℕ → Option (List ℕ)
then_set none i b = none
then_set (some out) i b = set_elem? out i b

abbrev pub set_bgra : List ℕ → ℕ → Colour → Option (List ℕ)
set_bgra out o c =
    then_set (then_set (then_set (set_elem? out o c.blue) (o + 1) c.green) (o + 2) c.red) (o + 3)
      255

-- The reads of the three planes; `none` is a panic.
abbrev pub read_planes : Frame → ℕ → ℕ → ℕ → Option Colour
read_planes f y_idx u_idx v_idx = elim (get_elem? f.y y_idx) [
  | none ↦ none
  | some y ↦ elim (get_elem? f.u u_idx) [
    | none ↦ none
    | some u ↦ elim (get_elem? f.v v_idx) [ none ↦ none | some v ↦ some (decoded y u v) ]
  ]
]

abbrev pub write_pixel : List ℕ → ℕ → Option Colour → Option (List ℕ)
write_pixel out o none = none
write_pixel out o (some c) = if ltb (o + 3) (length out) then set_bgra out o c else some out

-- `o` is a multiple of 4 below 2 ^ 64, so that `o + 3` does not wrap.
unfoldable pub decode_pixel : Frame → ℕ → ℕ → List ℕ → Option (List ℕ)
decode_pixel f h w out =
    let y_idx = wrap (wrap (h * f.y_stride) + w) in
    let u_idx = wrap (wrap (h / 2 * f.u_stride) + w / 2) in
    let v_idx = wrap (wrap (h / 2 * f.v_stride) + w / 2) in
    let o = wrap (wrap (wrap (h * f.width) + w) * 4) in
    if leb (length f.y) y_idx || (leb (length f.u) u_idx || leb (length f.v) v_idx)
    then some out
    else write_pixel out o (read_planes f y_idx u_idx v_idx)

abbrev pub decode_row : Frame → ℕ → List ℕ → Option (List ℕ)
decode_row f h = for_range (decode_pixel f h) 0 f.width

unfoldable pub yuv420p_to_bgra : Frame → List ℕ → Option (List ℕ)
yuv420p_to_bgra f = for_range (decode_row f) 0 f.height
