-- ===== src/Video/Colours.antt =====
-- What the two conversions leave of a colour.
use p2p_common.Common.{ℕ, ◌≤◌, ◌<◌, ◌+◌, ◌*◌, arith}
use p2p_common.Common.Int.{
  ℤ, pos, pos_part, neg_part, ◌+ℤ◌, ◌-ℤ◌, ◌*ℤ◌, shr8, clamp_u8, int_laws, clamp_u8_parts, negsuc,
}
use p2p_common.Video.{Colour, luma, chroma_u, chroma_v, decoded}

abbrev pub IsBytes : Colour → Type 0
IsBytes c = (c.red < 256) × (c.green < 256) × (c.blue < 256)

module _ (c : Colour) (bytes : IsBytes c) where
  -- A weighted sum, less than one too low
  pub luma_bounds :
      (256 * luma c ≤ 77 * c.red + 150 * c.green + 29 * c.blue)
      × (77 * c.red + 150 * c.green + 29 * c.blue < 256 * luma c + 256)
  unfolding luma
  luma_bounds =
      let a = pos c.red *ℤ pos 77 +ℤ pos c.green *ℤ pos 150 +ℤ pos c.blue *ℤ pos 29 in
      let e = clamp_u8_parts (shr8 a) (omega int_laws) (omega int_laws) in
      (omega (int_laws, e), omega (int_laws, e))

  -- A difference of the blue and the rest, with 128 for none
  pub chroma_u_bounds :
      (256 * chroma_u c + 43 * c.red + 85 * c.green ≤ 128 * c.blue + 32768)
      × (128 * c.blue + 32768 < 256 * chroma_u c + 43 * c.red + 85 * c.green + 256)
  unfolding chroma_u
  chroma_u_bounds =
      let a =
        shr8 ((pos 0 -ℤ pos c.red) *ℤ pos 43 -ℤ pos c.green *ℤ pos 85 +ℤ pos c.blue *ℤ pos 128)
        +ℤ pos 128 in
      let e = clamp_u8_parts a (omega int_laws) (omega int_laws) in
      (omega (int_laws, e), omega (int_laws, e))

  pub chroma_v_bounds :
      (256 * chroma_v c + 107 * c.green + 21 * c.blue ≤ 128 * c.red + 32768)
      × (128 * c.red + 32768 < 256 * chroma_v c + 107 * c.green + 21 * c.blue + 256)
  unfolding chroma_v
  chroma_v_bounds =
      let a =
        shr8 (pos c.red *ℤ pos 128 -ℤ pos c.green *ℤ pos 107 -ℤ pos c.blue *ℤ pos 21) +ℤ pos 128 in
      let e = clamp_u8_parts a (omega int_laws) (omega int_laws) in
      (omega (int_laws, e), omega (int_laws, e))

-- A channel within a distance of what it was
abbrev pub Near : ℕ → ℕ → Type 0
Near a b = (a ≤ b + 21) × (b ≤ a + 21)

-- A clamped value is near a byte if the value is, where the clamp does not see to it.
clamp_u8-Near :
    (a : ℤ) (n : ℕ)
    → n < 256
    → (n < 234 → pos_part a ≤ n + 21 + neg_part a)
    → (21 < n → n + neg_part a ≤ pos_part a + 21)
    → Near (clamp_u8 a) n
unfolding clamp_u8
clamp_u8-Near (pos m) n small high low = (grind arith, grind arith)
clamp_u8-Near (negsuc m) n small high low = (grind arith, grind arith)

-- The sums of the decoder over 256, in the three planes
module _ (y u v : ℕ) where
  abbrev red_sum : ℤ
  red_sum = shr8 ((pos y -ℤ pos 16) *ℤ pos 298 +ℤ (pos v -ℤ pos 128) *ℤ pos 409 +ℤ pos 128)

  abbrev green_sum : ℤ
  green_sum = shr8 (
      (pos y -ℤ pos 16) *ℤ pos 298
      -ℤ (pos u -ℤ pos 128) *ℤ pos 100
      -ℤ (pos v -ℤ pos 128) *ℤ pos 208
      +ℤ pos 128)

  abbrev blue_sum : ℤ
  blue_sum = shr8 ((pos y -ℤ pos 16) *ℤ pos 298 +ℤ (pos u -ℤ pos 128) *ℤ pos 516 +ℤ pos 128)

  red_bounds :
      (256 * pos_part red_sum + 56992 ≤ 298 * y + 409 * v + 256 * neg_part red_sum)
      × (298 * y + 409 * v + 256 * neg_part red_sum < 256 * pos_part red_sum + 56992 + 256)
  red_bounds = (omega int_laws, omega int_laws)

  green_bounds :
      (256 * pos_part green_sum + 100 * u + 208 * v ≤ 298 * y + 34784 + 256 * neg_part green_sum)
      × (298 * y + 34784 + 256 * neg_part green_sum
          < 256 * pos_part green_sum + 100 * u + 208 * v + 256)
  green_bounds = (omega int_laws, omega int_laws)

  blue_bounds :
      (256 * pos_part blue_sum + 70688 ≤ 298 * y + 516 * u + 256 * neg_part blue_sum)
      × (298 * y + 516 * u + 256 * neg_part blue_sum < 256 * pos_part blue_sum + 70688 + 256)
  blue_bounds = (omega int_laws, omega int_laws)

-- Whatever the colour, each channel comes back within 21 of what it was.
pub decoded-Near :
    (c : Colour)
    → IsBytes c
    → let back = decoded (luma c) (chroma_u c) (chroma_v c) in
      Near back.red c.red × Near back.green c.green × Near back.blue c.blue
unfolding decoded
decoded-Near c bytes =
    let (is_red, is_green, is_blue) = bytes in
    let (y0, y1) = luma_bounds c bytes in
    let (u0, u1) = chroma_u_bounds c bytes in
    let (v0, v1) = chroma_v_bounds c bytes in
    let y = luma c in
    let u = chroma_u c in
    let v = chroma_v c in
    let (r0, r1) = red_bounds y u v in
    let (g0, g1) = green_bounds y u v in
    let (b0, b1) = blue_bounds y u v in
    (
      clamp_u8-Near (red_sum y u v) c.red is_red (λ small. omega arith) (λ large. omega arith),
      clamp_u8-Near (green_sum y u v) c.green is_green (λ small. omega arith)
          (λ large. omega arith),
      clamp_u8-Near (blue_sum y u v) c.blue is_blue (λ small. omega arith) (λ large. omega arith),
    )
