-- ===== src/Video/Encoder/Reference.antt =====
-- The whole of the encoder against a definition of its output.
use mathlib.Core.List.{append_assoc, append-nil}
use p2p_common.Common.{
  ℕ, zero, suc, ◌≡◌, ◌<◌, ◌+◌, ◌*◌, refl, sym, ap, ◌∙◌, some, List, [], ◌++◌, length, length-append,
  length-replicate, replicate, get_elem?, All, arith,
}
use p2p_common.Video.Loops.{for_range-Keeps}
use p2p_common.Video.Encoder.{
  Yuv, Size, source_at, encode_pixel, encode_row, blank, joined, bgra_to_yuv420p,
}
use p2p_common.Video.Encoder.Pixels.{pixels, nearest, Fits, source_at-nearest}
use p2p_common.Video.Encoder.Planes.{
  IsByte, uv_size, HasChroma, luma_or_black, set_pixel-y_plane, row, rows, length-row, length-rows,
  in_plane,
}

All-replicate : (n : ℕ) → All IsByte (replicate n 0)
unfolding replicate
All-replicate zero = tt
All-replicate (suc n) = (omega arith, All-replicate n)

module _ (bgra : List ℕ) (z : Size) where
  abbrev pub luma_at : ℕ → ℕ → ℕ
  luma_at dy dx = luma_or_black (get_elem? (pixels bgra) (nearest z dy dx))

  abbrev pub luma_plane : List ℕ
  luma_plane = rows luma_at z.dst_w z.dst_h

  -- The luma plane is filled up to the pixel (dx, dy).
  abbrev Filled : ℕ → ℕ → Yuv → Type 0
  Filled dy dx p =
      (m : ℕ) × (dy * z.dst_w + dx + m ≡ z.dst_w * z.dst_h)
      × (p.y_plane ≡ (rows luma_at z.dst_w dy ++ row (luma_at dy) dx) ++ replicate m 0)
      × HasChroma z p.u_plane p.v_plane

  pixel-Filled :
      (dy dx : ℕ) (p : Yuv)
      → Fits z
      → dy < z.dst_h
      → dx < z.dst_w
      → Filled dy dx p
      → (q : Yuv) × (encode_pixel z dy dx p (source_at bgra z dy dx) ≡ some q)
        × Filled dy (suc dx) q
  unfolding row replicate
  pixel-Filled dy dx p fits low narrow (zero, full, at, h) =
      absurd (omega (arith, in_plane dy dx z.dst_w z.dst_h low narrow))
  pixel-Filled dy dx p fits low narrow (suc m, full, at, h) =
      let xs = rows luma_at z.dst_w dy ++ row (luma_at dy) dx in
      let long : length xs ≡ dy * z.dst_w + dx =
        length-append (rows luma_at z.dst_w dy) (row (luma_at dy) dx)
        ∙ omega (arith, length-rows luma_at z.dst_w dy, length-row (luma_at dy) dx) in
      let (q, went, same, kept) =
        set_pixel-y_plane z dy dx xs (replicate m 0) p (get_elem? (pixels bgra) (nearest z dy dx))
          at long h in
      let read = source_at-nearest bgra z dy dx fits low narrow in
      (
        q,
        ap (encode_pixel z dy dx p) read ∙ went,
        (m, omega (arith, full), same ∙ simp append_assoc, kept),
      )

  Filled-next : (dy : ℕ) (p : Yuv) → Filled dy z.dst_w p → Filled (suc dy) 0 p
  unfolding row rows
  Filled-next dy p (m, full, at, h) =
      (m, grind (arith, full), at ∙ ap (λ l. l ++ replicate m 0) (sym (append-nil _)), h)

  row-Filled :
      (dy : ℕ) (p : Yuv)
      → Fits z
      → dy < z.dst_h
      → Filled dy 0 p
      → (q : Yuv) × (encode_row bgra z dy p ≡ some q) × Filled (suc dy) 0 q
  row-Filled dy p fits low start =
      let (q, went, done) =
        for_range-Keeps (Filled dy) (λ dx p. encode_pixel z dy dx p (source_at bgra z dy dx))
          z.dst_w 0 z.dst_w p (omega arith)
          (λ dx t from below inv. pixel-Filled dy dx t fits low below inv) start in
      (q, went, Filled-next dy q done)

  blank-Filled : Filled 0 0 (blank z)
  unfolding row rows
  blank-Filled = (
    z.dst_w * z.dst_h,
    omega arith,
    refl,
    (
      (length-replicate (uv_size z) 0, All-replicate (uv_size z)),
      (length-replicate (uv_size z) 0, All-replicate (uv_size z)),
    ),
  )

  Filled-whole : (p : Yuv) → Filled z.dst_h 0 p → p.y_plane ≡ luma_plane
  unfolding row replicate
  Filled-whole p (m, full, at, h) =
      let none_left : m ≡ 0 = grind (arith, full) in
      at
      ∙ ap (λ k. (luma_plane ++ []) ++ replicate k 0) none_left
      ∙ append-nil _
      ∙ append-nil luma_plane

  Filled-HasChroma : (p : Yuv) → Filled z.dst_h 0 p → HasChroma z p.u_plane p.v_plane
  Filled-HasChroma p (m, full, at, h) = h

  -- Whatever the buffer, where no index of a pixel overflows, and the output fits in memory, a release build
  -- of the encoder does not panic: its output is the luma of the pixel that each is scaled from, row by row,
  -- black where the buffer has no such pixel, and two planes of bytes with a colour for each block.
  pub bgra_to_yuv420p-luma :
      Fits z
      → (us vs : List ℕ) × (bgra_to_yuv420p bgra z ≡ some (luma_plane ++ us ++ vs))
        × HasChroma z us vs
  unfolding bgra_to_yuv420p
  bgra_to_yuv420p-luma fits =
      let (p, went, done) =
        for_range-Keeps (λ dy t. Filled dy 0 t) (encode_row bgra z) z.dst_h 0 z.dst_h (blank z)
          (omega arith) (λ dy t from low inv. row-Filled dy t fits low inv) blank-Filled in
      (
        p.u_plane,
        p.v_plane,
        ap joined went ∙ ap (λ ys. some (ys ++ p.u_plane ++ p.v_plane)) (Filled-whole p done),
        Filled-HasChroma p done,
      )
