-- ===== src/Common/Trim/Laws.antt =====
-- Trimming twice is trimming once.
use Prim.Native.Char.{Char, code}
use Prim.Native.String.{String}
use p2p_common.Common.Tests.{Bool-cases}
use mathlib.Core.Path.{◌≡◌, refl, ap, ◌∙◌}
use mathlib.Core.Bool.{false, ◌&&◌}
use mathlib.Core.Logic.{◌⊎◌, inl, inr}
use p2p_common.Common.Trim.{is_whitespace, is_empty, trim_start, trim_end, trim}

trim_end-trim_end : (s : String) → trim_end (trim_end s) ≡ trim_end s
unfolding trim_end
trim_end-trim_end String.[] = refl
trim_end-trim_end (String.◌∷◌ c s) =
    elim (Bool-cases (is_whitespace (code c) && is_empty (trim_end s))) [
      | inl blank ↦ rw blank refl
      | inr kept ↦ rw (kept, trim_end-trim_end s, kept) refl
    ]

-- What a text starts with, once its start is trimmed
StartsTrimmed : String → Type 0
StartsTrimmed s =
    (s ≡ String.[])
    ⊎ ((c : Char) × (t : String) × (is_whitespace (code c) ≡ false) × (s ≡ String.◌∷◌ c t))

trim_start-StartsTrimmed : (s : String) → StartsTrimmed (trim_start s)
unfolding trim_start StartsTrimmed
trim_start-StartsTrimmed String.[] = inl refl
trim_start-StartsTrimmed (String.◌∷◌ c s) = elim (Bool-cases (is_whitespace (code c))) [
  | inl blank ↦ rw blank (trim_start-StartsTrimmed s)
  | inr kept ↦ rw kept (inr (c, s, kept, refl))
]

trim_start-trim_end : (s : String) → StartsTrimmed s → trim_start (trim_end s) ≡ trim_end s
unfolding trim_start trim_end StartsTrimmed
trim_start-trim_end s (inl none_left) = rw none_left refl
trim_start-trim_end s (inr (c, t, kept, same)) = rw (same, kept, kept) refl

pub trim_idem : (s : String) → trim (trim s) ≡ trim s
unfolding trim
trim_idem s =
    ap trim_end (trim_start-trim_end (trim_start s) (trim_start-StartsTrimmed s))
    ∙ trim_end-trim_end (trim_start s)
