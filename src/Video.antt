-- ===== src/Video.antt =====
-- The conversion of pixels in client-core/src/rtc/video_utils.rs, as built without `simd-yuv`: the
-- encoder's `bgra_to_yuv420p`, which scales as it goes, and the decoder's `yuv420p_to_bgra`. A byte is a
-- number; the sums of the source are of `i32`, and stay far below its bounds.
pub mod Colours
pub mod Loops
pub mod Encoder
pub mod Decoder
mod Examples
use p2p_common.Common.{ℕ}
use p2p_common.Common.Int.{pos, ◌+ℤ◌, ◌-ℤ◌, ◌*ℤ◌, shr8, clamp_u8}

pub record Colour : Type 0 where
  pub red : ℕ
  pub green : ℕ
  pub blue : ℕ

unfoldable pub luma : Colour → ℕ
luma c = clamp_u8 (shr8 (pos c.red *ℤ pos 77 +ℤ pos c.green *ℤ pos 150 +ℤ pos c.blue *ℤ pos 29))

unfoldable pub chroma_u : Colour → ℕ
chroma_u c = clamp_u8 (
    shr8 ((pos 0 -ℤ pos c.red) *ℤ pos 43 -ℤ pos c.green *ℤ pos 85 +ℤ pos c.blue *ℤ pos 128)
    +ℤ pos 128)

unfoldable pub chroma_v : Colour → ℕ
chroma_v c =
    clamp_u8
      (shr8 (pos c.red *ℤ pos 128 -ℤ pos c.green *ℤ pos 107 -ℤ pos c.blue *ℤ pos 21) +ℤ pos 128)

unfoldable pub decoded : ℕ → ℕ → ℕ → Colour
decoded y u v =
    let c = pos y -ℤ pos 16 in
    let d = pos u -ℤ pos 128 in
    let e = pos v -ℤ pos 128 in
    record {
      red = clamp_u8 (shr8 (c *ℤ pos 298 +ℤ e *ℤ pos 409 +ℤ pos 128));
      green = clamp_u8 (shr8 (c *ℤ pos 298 -ℤ d *ℤ pos 100 -ℤ e *ℤ pos 208 +ℤ pos 128));
      blue = clamp_u8 (shr8 (c *ℤ pos 298 +ℤ d *ℤ pos 516 +ℤ pos 128));
    }
