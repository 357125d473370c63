-- ===== src/Common/TextOrder.antt =====
-- The order of texts, which is that of their bytes.
use Prim.Native.Nat.{ℕ, compare, Ordering}
use Prim.Native.String.{String, compare as compare_text, then as next_order}
use Prim.Native.String.compare as compare_text
use Prim.Native.Char.{code}
use mathlib.Core.Path.{◌≡◌, refl, sym, ap, ◌∙◌}
use mathlib.Core.Logic.{◌≢◌, ◌⊎◌, inl, inr}
use mathlib.Core.Bool.{true, false}
use native.Mathlib.Omega.{arith}
use text.Mathlib.Text.{is_lt, is_eq}
use p2p_common.Common.Tests.{str_lt, str_eq_ne}

abbrev flip : Ordering → Ordering
flip Ordering.lt = Ordering.gt
flip Ordering.eq = Ordering.eq
flip Ordering.gt = Ordering.lt

compare-flip : (a b : ℕ) → compare b a ≡ flip (compare a b)
compare-flip a b = ground arith

next_order-flip : (a b : Ordering) → next_order (flip a) (flip b) ≡ flip (next_order a b)
next_order-flip Ordering.lt b = refl
next_order-flip Ordering.eq b = refl
next_order-flip Ordering.gt b = refl

compare_text-flip : (s t : String) → compare_text t s ≡ flip (compare_text s t)
compare_text-flip String.[] String.[] = compare_text.nil-nil ∙ ap flip (sym compare_text.nil-nil)
compare_text-flip String.[] (String.◌∷◌ d t) =
    compare_text.cons-nil d t ∙ ap flip (sym (compare_text.nil-cons d t))
compare_text-flip (String.◌∷◌ c s) String.[] =
    compare_text.nil-cons c s ∙ ap flip (sym (compare_text.cons-nil c s))
compare_text-flip (String.◌∷◌ c s) (String.◌∷◌ d t) =
    compare_text.cons-cons d c t s
    ∙ ap (λ o. next_order o (compare_text t s)) (compare-flip (code c) (code d))
    ∙ ap (λ o. next_order (flip (compare (code c) (code d))) o) (compare_text-flip s t)
    ∙ next_order-flip (compare (code c) (code d)) (compare_text s t)
    ∙ ap flip (sym (compare_text.cons-cons c d s t))

-- Of two different texts exactly one is the smaller.
pub one_smaller :
    (s t : String)
    → s ≢ t
    → ((str_lt s t ≡ true) × (str_lt t s ≡ false)) ⊎ ((str_lt s t ≡ false) × (str_lt t s ≡ true))
one_smaller s t other =
    go (compare_text s t) (compare_text t s) (compare_text-flip s t) (str_eq_ne s t other)
  where
    go :
        (a b : Ordering)
        → b ≡ flip a
        → is_eq a ≡ false
        → ((is_lt a ≡ true) × (is_lt b ≡ false)) ⊎ ((is_lt a ≡ false) × (is_lt b ≡ true))
    go Ordering.lt b turned differ = inl (refl, ap is_lt turned)
    go Ordering.gt b turned differ = inr (refl, ap is_lt turned)
    go Ordering.eq b turned differ = absurd (cc differ)
