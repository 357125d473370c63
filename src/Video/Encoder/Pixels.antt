-- ===== src/Video/Encoder/Pixels.antt =====
-- The pixels of a buffer, and the one that each pixel of the output is scaled from.
use p2p_common.Common.{
  ℕ, zero, suc, ◌≡◌, ◌<◌, ◌+◌, ◌*◌, ◌/◌, ◌^◌, refl, ap, ◌∙◌, true, false, none, some, List, [], ◌∷◌,
  length, get_elem?, ltb, arith, if◌then◌else◌,
}
use p2p_common.Video.{Colour}
use p2p_common.Video.Loops.{wrap}
use p2p_common.Video.Encoder.{
  Size, source_index, colour_of, read_colour, read_pixel, source_at, shown,
}

-- A pixel is four bytes; fewer at the end are none.
abbrev pub pixels : List ℕ → List Colour
pixels [] = []
pixels (b ∷ []) = []
pixels (b ∷ g ∷ []) = []
pixels (b ∷ g ∷ r ∷ []) = []
pixels (b ∷ g ∷ r ∷ a ∷ rest) = record { blue = b; green = g; red = r } ∷ pixels rest

-- The number of the source's pixel for the row `dy` and the column `dx`
abbrev pub nearest : Size → ℕ → ℕ → ℕ
nearest z dy dx = dy * z.src_h / z.dst_h * z.src_w + dx * z.src_w / z.dst_w

-- No index of a pixel overflows `usize`.
abbrev pub Fits : Size → Type 0
Fits z =
    (dy dx : ℕ)
    → dy < z.dst_h
    → dx < z.dst_w
    → (dy * z.src_h < 2 ^ 64) × (dx * z.src_w < 2 ^ 64) × (nearest z dy dx * 4 < 2 ^ 64)

not_wrapped : (i : ℕ) → i < 2 ^ 64 → wrap i ≡ i
not_wrapped i small = omega arith

source_index-nearest :
    (z : Size) (dy dx : ℕ)
    → dy * z.src_h < 2 ^ 64
    → dx * z.src_w < 2 ^ 64
    → nearest z dy dx * 4 < 2 ^ 64
    → source_index z dy dx ≡ nearest z dy dx * 4
source_index-nearest z dy dx small_y small_x small =
    let e = not_wrapped (dy * z.src_h) small_y in
    let f = not_wrapped (dx * z.src_w) small_x in
    let row = not_wrapped (dy * z.src_h / z.dst_h * z.src_w) (omega (arith, small)) in
    let pixel = not_wrapped (nearest z dy dx) (omega (arith, small)) in
    let whole = not_wrapped (nearest z dy dx * 4) small in
    rw (source_index, e, f, row, pixel, whole) refl

past :
    (b g r a : ℕ) (rest : List ℕ) (i : ℕ)
    → get_elem? (b ∷ g ∷ r ∷ a ∷ rest) (i + 4) ≡ get_elem? rest i
past b g r a rest i = ap (λ k. get_elem? (b ∷ g ∷ r ∷ a ∷ rest) k) four
  where
    four : i + 4 ≡ suc (suc (suc (suc i)))
    four = omega arith

read_colour-past :
    (b g r a : ℕ) (rest : List ℕ) (i : ℕ)
    → read_colour (b ∷ g ∷ r ∷ a ∷ rest) (i + 4) ≡ read_colour rest i
read_colour-past b g r a rest i =
    let big = b ∷ g ∷ r ∷ a ∷ rest in
    let second : i + 4 + 1 ≡ i + 1 + 4 = omega arith in
    let third : i + 4 + 2 ≡ i + 2 + 4 = omega arith in
    ap (λ x. colour_of x (get_elem? big (i + 4 + 1)) (get_elem? big (i + 4 + 2)))
      (past b g r a rest i)
    ∙ ap (λ x. colour_of (get_elem? rest i) x (get_elem? big (i + 4 + 2)))
        (ap (get_elem? big) second ∙ past b g r a rest (i + 1))
    ∙ ap (colour_of (get_elem? rest i) (get_elem? rest (i + 1)))
        (ap (get_elem? big) third ∙ past b g r a rest (i + 2))

read_pixel-past :
    (b g r a : ℕ) (rest : List ℕ) (i : ℕ)
    → read_pixel (b ∷ g ∷ r ∷ a ∷ rest) (i + 4) ≡ read_pixel rest i
read_pixel-past b g r a rest i =
    let room : ltb (i + 4 + 3) (length (b ∷ g ∷ r ∷ a ∷ rest)) ≡ ltb (i + 3) (length rest) =
      ground arith in
    rw (read_pixel, room)
      (ap (λ c. if ltb (i + 3) (length rest) then shown c else some none)
        (read_colour-past b g r a rest i))

skipped :
    (bgra : List ℕ) (i : ℕ) → ltb (i + 3) (length bgra) ≡ false → read_pixel bgra i ≡ some none
skipped bgra i short = rw (read_pixel, short) refl

read_pixel-pixels :
    (bgra : List ℕ) (k : ℕ) → read_pixel bgra (k * 4) ≡ some (get_elem? (pixels bgra) k)
read_pixel-pixels [] k = skipped [] (k * 4) (ground arith)
read_pixel-pixels (b ∷ []) k = skipped (b ∷ []) (k * 4) (ground arith)
read_pixel-pixels (b ∷ g ∷ []) k = skipped (b ∷ g ∷ []) (k * 4) (ground arith)
read_pixel-pixels (b ∷ g ∷ r ∷ []) k = skipped (b ∷ g ∷ r ∷ []) (k * 4) (ground arith)
read_pixel-pixels (b ∷ g ∷ r ∷ a ∷ rest) zero =
    let room : ltb (0 * 4 + 3) (length (b ∷ g ∷ r ∷ a ∷ rest)) ≡ true = ground arith in
    rw (read_pixel, room) refl
read_pixel-pixels (b ∷ g ∷ r ∷ a ∷ rest) (suc k) =
    let next : suc k * 4 ≡ k * 4 + 4 = omega arith in
    ap (read_pixel (b ∷ g ∷ r ∷ a ∷ rest)) next
    ∙ read_pixel-past b g r a rest (k * 4)
    ∙ read_pixel-pixels rest k

pub source_at-nearest :
    (bgra : List ℕ) (z : Size) (dy dx : ℕ)
    → Fits z
    → dy < z.dst_h
    → dx < z.dst_w
    → source_at bgra z dy dx ≡ some (get_elem? (pixels bgra) (nearest z dy dx))
source_at-nearest bgra z dy dx fits low narrow =
    let (small_y, small_x, small) = fits dy dx low narrow in
    ap (read_pixel bgra) (source_index-nearest z dy dx small_y small_x small)
    ∙ read_pixel-pixels bgra (nearest z dy dx)
