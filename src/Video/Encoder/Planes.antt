-- ===== src/Video/Encoder/Planes.antt =====
-- The encoder against a definition of its planes.
use p2p_common.Common.{
  ℕ, zero, suc, ◌≡◌, ◌<◌, ◌+◌, ◌*◌, ◌/◌, ◌%◌, refl, sym, ap, ◌∙◌, ◌&&◌, Option, none, some, List,
  [], ◌∷◌, ◌++◌, length, length-append, All, ltb, ◌==◌, arith, Bool-cases, inl, inr,
}
use p2p_common.Common.Int.{clamp_u8-lt}
use p2p_common.Video.{Colour, luma, chroma_u, chroma_v}
use p2p_common.Video.Loops.{set_elem?, set_elem?-All, set_elem?-append}
use p2p_common.Video.Encoder.{Yuv, Size, set_y, set_uv, set_block, set_pixel}

abbrev pub IsByte : ℕ → Type 0
IsByte b = b < 256

luma-IsByte : (c : Colour) → IsByte (luma c)
unfolding luma
luma-IsByte c = clamp_u8-lt _

chroma_u-IsByte : (c : Colour) → IsByte (chroma_u c)
unfolding chroma_u
chroma_u-IsByte c = clamp_u8-lt _

chroma_v-IsByte : (c : Colour) → IsByte (chroma_v c)
unfolding chroma_v
chroma_v-IsByte c = clamp_u8-lt _

-- The two planes of colour have the length that the format asks for, and hold bytes.
abbrev pub uv_size : Size → ℕ
uv_size z = z.dst_w / 2 * (z.dst_h / 2)

abbrev pub HasChroma : Size → List ℕ → List ℕ → Type 0
HasChroma z us vs =
    ((length us ≡ uv_size z) × All IsByte us) × ((length vs ≡ uv_size z) × All IsByte vs)

set_uv-HasChroma :
    (z : Size) (p : Yuv) (i : ℕ) (c : Colour)
    → i < length p.u_plane
    → i < length p.v_plane
    → HasChroma z p.u_plane p.v_plane
    → (q : Yuv) × (set_uv p i (chroma_u c) (chroma_v c) ≡ some q)
      × (q.y_plane ≡ p.y_plane)
      × HasChroma z q.u_plane q.v_plane
set_uv-HasChroma z p i c in_u in_v ((long_u, all_u), (long_v, all_v)) =
    let (us, set_u, same_u, bytes_u) =
      set_elem?-All IsByte p.u_plane i (chroma_u c) in_u all_u (chroma_u-IsByte c) in
    let (vs, set_v, same_v, bytes_v) =
      set_elem?-All IsByte p.v_plane i (chroma_v c) in_v all_v (chroma_v-IsByte c) in
    (
      record p { u_plane = us; v_plane = vs },
      writes us vs set_u set_v,
      refl,
      ((same_u ∙ long_u, bytes_u), (same_v ∙ long_v, bytes_v)),
    )
  where
    writes :
        (us vs : List ℕ)
        → set_elem? p.u_plane i (chroma_u c) ≡ some us
        → set_elem? p.v_plane i (chroma_v c) ≡ some vs
        → set_uv p i (chroma_u c) (chroma_v c) ≡ some (record p { u_plane = us; v_plane = vs })
    writes us vs set_u set_v = rw (set_uv, set_u, set_v) refl

set_block-HasChroma :
    (z : Size) (dy dx : ℕ) (c : Colour) (p : Yuv)
    → HasChroma z p.u_plane p.v_plane
    → (q : Yuv) × (set_block z dy dx c p ≡ some q)
      × (q.y_plane ≡ p.y_plane)
      × HasChroma z q.u_plane q.v_plane
set_block-HasChroma z dy dx c p h =
    let i = dy / 2 * (z.dst_w / 2) + dx / 2 in
    elim (Bool-cases
      ((dy % 2 == 0 && dx % 2 == 0) && (ltb i (length p.u_plane) && ltb i (length p.v_plane)))) [
        | inr skip ↦ (p, rw (set_block, skip) refl, refl, h)
        | inl write ↦
            (let (q, wrote, same, kept) =
                set_uv-HasChroma z p i c (ground (arith, write)) (ground (arith, write)) h in
              (q, rw (set_block, write) wrote, same, kept))
      ]

-- The luma of a pixel, black where the source has none
abbrev pub luma_or_black : Option Colour → ℕ
luma_or_black none = 0
luma_or_black (some c) = luma c

-- A pixel is the next of the luma plane, and nothing else of that plane changes.
pub set_pixel-y_plane :
    (z : Size) (dy dx : ℕ) (xs zs : List ℕ) (p : Yuv) (o : Option Colour)
    → p.y_plane ≡ xs ++ 0 ∷ zs
    → length xs ≡ dy * z.dst_w + dx
    → HasChroma z p.u_plane p.v_plane
    → (q : Yuv) × (set_pixel z dy dx p o ≡ some q)
      × (q.y_plane ≡ xs ++ luma_or_black o ∷ zs)
      × HasChroma z q.u_plane q.v_plane
set_pixel-y_plane z dy dx xs zs p none at place h = (p, refl, at, h)
set_pixel-y_plane z dy dx xs zs p (some c) at place h =
    let ys = xs ++ luma c ∷ zs in
    let (q, wrote, same, kept) = set_block-HasChroma z dy dx c (record p { y_plane = ys }) h in
    (q, goes q wrote, same, kept)
  where
    wrote_y : set_elem? p.y_plane (dy * z.dst_w + dx) (luma c) ≡ some (xs ++ luma c ∷ zs)
    wrote_y =
        ap (λ l. set_elem? l (dy * z.dst_w + dx) (luma c)) at
        ∙ ap (λ i. set_elem? (xs ++ 0 ∷ zs) i (luma c)) (sym place)
        ∙ set_elem?-append xs zs 0 (luma c)

    goes :
        (q : Yuv)
        → set_block z dy dx c (record p { y_plane = xs ++ luma c ∷ zs }) ≡ some q
        → set_pixel z dy dx p (some c) ≡ some q
    goes q wrote = rw (set_pixel, set_y, wrote_y) wrote

-- The values of a function below a bound, and row by row
unfoldable pub row : (ℕ → ℕ) → ℕ → List ℕ
row f zero = []
row f (suc n) = row f n ++ f n ∷ []

unfoldable pub rows : (ℕ → ℕ → ℕ) → ℕ → ℕ → List ℕ
unfolding row
rows f w zero = []
rows f w (suc n) = rows f w n ++ row (f n) w

pub length-row : (f : ℕ → ℕ) (n : ℕ) → length (row f n) ≡ n
unfolding row
length-row f zero = refl
length-row f (suc n) = omega (arith, length-append (row f n) (f n ∷ []), length-row f n)

pub length-rows : (f : ℕ → ℕ → ℕ) (w n : ℕ) → length (rows f w n) ≡ n * w
unfolding rows
length-rows f w zero = omega arith
length-rows f w (suc n) =
    grind (arith, length-append (rows f w n) (row (f n) w), length-rows f w n, length-row (f n) w)

pub in_plane : (dy dx w h : ℕ) → dy < h → dx < w → dy * w + dx < w * h
in_plane dy dx w zero low narrow = absurd (omega arith)
in_plane zero dx w (suc h) low narrow = grind arith
in_plane (suc dy) dx w (suc h) low narrow =
    let e = in_plane dy dx w h (omega arith) narrow in grind (arith, e)
