-- ===== src/Video/Encoder.antt =====
-- `bgra_to_yuv420p` of client-core/src/rtc/video_utils.rs without `simd-yuv`: it scales, and converts each
-- pixel; one of four gives the colour of its block.
pub mod Pixels
pub mod Planes
pub mod Reference
use p2p_common.Common.{
  ℕ, ◌+◌, ◌*◌, ◌/◌, ◌%◌, Bool, true, false, ◌&&◌, Option, none, some, List, [], ◌∷◌, ◌++◌, length,
  get_elem?, replicate, ltb, ◌==◌, if◌then◌else◌,
}
use p2p_common.Video.{Colour, luma, chroma_u, chroma_v}
use p2p_common.Video.Loops.{for_range, set_elem?, wrap}

-- The three slices of the output, a vector that fits in memory: its sizes and indices do not wrap.
pub record Yuv : Type 0 where
  pub y_plane : List ℕ
  pub u_plane : List ℕ
  pub v_plane : List ℕ

pub record Size : Type 0 where
  pub src_w : ℕ
  pub src_h : ℕ
  pub dst_w : ℕ
  pub dst_h : ℕ

-- The divisors are not 0 where a loop runs.
abbrev pub source_index : Size → ℕ → ℕ → ℕ
source_index z dy dx =
    let sy = wrap (dy * z.src_h) / z.dst_h in
    let sx = wrap (dx * z.src_w) / z.dst_w in wrap (wrap (wrap (sy * z.src_w) + sx) * 4)

abbrev pub colour_of : Option ℕ → Option ℕ → Option ℕ → Option Colour
colour_of (some b) (some g) (some r) = some (record { blue = b; green = g; red = r })
colour_of _ _ _ = none

-- The three reads of the buffer; `none` is a panic.
abbrev pub read_colour : List ℕ → ℕ → Option Colour
read_colour bgra i = colour_of (get_elem? bgra i) (get_elem? bgra (i + 1)) (get_elem? bgra (i + 2))

abbrev pub shown : Option Colour → Option (Option Colour)
shown none = none
shown (some c) = some (some c)

-- The pixel at an index: `none` is a panic, `some none` is a pixel that the guard skips. The index is a
-- multiple of 4 below 2 ^ 64, so that adding 3 does not wrap.
abbrev pub read_pixel : List ℕ → ℕ → Option (Option Colour)
read_pixel bgra i =
    let read = shown (read_colour bgra i) in if ltb (i + 3) (length bgra) then read else some none

abbrev pub source_at : List ℕ → Size → ℕ → ℕ → Option (Option Colour)
source_at bgra z dy dx = read_pixel bgra (source_index z dy dx)

abbrev pub set_y : Yuv → ℕ → ℕ → Option Yuv
set_y p i y = elim (set_elem? p.y_plane i y) [
  | none ↦ none
  | some ys ↦ some (record p { y_plane = ys })
]

abbrev pub set_uv : Yuv → ℕ → ℕ → ℕ → Option Yuv
set_uv p i u v = elim (set_elem? p.u_plane i u) [
  | none ↦ none
  | some us ↦ elim (set_elem? p.v_plane i v) [
    | none ↦ none
    | some vs ↦ some (record p { u_plane = us; v_plane = vs })
  ]
]

abbrev pub set_block : Size → ℕ → ℕ → Colour → Yuv → Option Yuv
set_block z dy dx c p =
    let i = dy / 2 * (z.dst_w / 2) + dx / 2 in
    if (dy % 2 == 0 && dx % 2 == 0) && (ltb i (length p.u_plane) && ltb i (length p.v_plane))
    then set_uv p i (chroma_u c) (chroma_v c)
    else some p

abbrev pub set_pixel : Size → ℕ → ℕ → Yuv → Option Colour → Option Yuv
set_pixel z dy dx p none = some p
set_pixel z dy dx p (some c) = elim (set_y p (dy * z.dst_w + dx) (luma c)) [
  | none ↦ none
  | some q ↦ set_block z dy dx c q
]

abbrev pub encode_pixel : Size → ℕ → ℕ → Yuv → Option (Option Colour) → Option Yuv
encode_pixel z dy dx p none = none
encode_pixel z dy dx p (some c) = set_pixel z dy dx p c

abbrev pub encode_row : List ℕ → Size → ℕ → Yuv → Option Yuv
encode_row bgra z dy = for_range (λ dx p. encode_pixel z dy dx p (source_at bgra z dy dx)) 0 z.dst_w

abbrev pub blank : Size → Yuv
blank z =
    let uv_size = z.dst_w / 2 * (z.dst_h / 2) in
    record {
      y_plane = replicate (z.dst_w * z.dst_h) 0;
      u_plane = replicate uv_size 0;
      v_plane = replicate uv_size 0;
    }

abbrev pub joined : Option Yuv → Option (List ℕ)
joined none = none
joined (some p) = some (p.y_plane ++ p.u_plane ++ p.v_plane)

unfoldable pub bgra_to_yuv420p : List ℕ → Size → Option (List ℕ)
bgra_to_yuv420p bgra z = joined (for_range (encode_row bgra z) 0 z.dst_h (blank z))
