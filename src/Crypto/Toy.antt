-- ===== src/Crypto/Toy.antt =====
-- A small model of the libraries under nodeinnet-api/src/crypto.rs, for the tests: texts in unary, and
-- a signature that holds the message itself as a number.
use Prim.Native.Char.{code}
use p2p_common.Common.{
  ℕ, zero, suc, ◌+◌, ◌*◌, ◌≡◌, refl, sym, ap, ◌∙◌, String, Bool, true, false, List, [], ◌∷◌, ◌==◌,
  if◌then◌else◌, replicate, length-replicate, arith,
}
use native.Mathlib.Nat.{add-zero}
use p2p_common.Common.Result.{ok, ensure}
use p2p_common.Crypto.{Primitives, IsSound, bytes_eq}
use p2p_common.Crypto.Mac.{bytes_eq_iff}

strokes : ℕ → String → String
strokes zero s = String.◌∷◌ "0" s
strokes (suc n) s = String.◌∷◌ "1" (strokes n s)

unfoldable pub unary : List ℕ → String
unfolding strokes
unary [] = String.[]
unary (n ∷ bytes) = strokes n (unary bytes)

unfoldable pub from_unary : ℕ → String → List ℕ
from_unary n String.[] = []
from_unary n (String.◌∷◌ c s) =
    let here = from_unary 0 s in
    let there = from_unary (suc n) s in if code c == 48 then n ∷ here else there

from_unary-strokes : (n k : ℕ) (s : String) → from_unary n (strokes k s) ≡ (n + k) ∷ from_unary 0 s
unfolding strokes from_unary
from_unary-strokes n zero s = rw (add-zero n) refl
from_unary-strokes n (suc k) s =
    let e : suc n + k ≡ n + suc k = omega arith in
    from_unary-strokes (suc n) k s ∙ ap (λ i. i ∷ from_unary 0 s) e

from_unary-unary : (bytes : List ℕ) → from_unary 0 (unary bytes) ≡ bytes
unfolding unary from_unary
from_unary-unary [] = refl
from_unary-unary (n ∷ bytes) =
    let e : 0 + n ≡ n = omega arith in
    from_unary-strokes 0 n (unary bytes) ∙ rw (e, from_unary-unary bytes) refl

twos : ℕ → ℕ → ℕ
twos zero a = 2 * a + 1
twos (suc n) a = 2 * twos n a

twos-injective : (n m a b : ℕ) → twos n a ≡ twos m b → (n ≡ m) × (a ≡ b)
unfolding twos
twos-injective zero zero a b e = (refl, omega arith)
twos-injective zero (suc m) a b e = absurd (omega arith)
twos-injective (suc n) zero a b e = absurd (omega arith)
twos-injective (suc n) (suc m) a b e =
    let (same, rest) = twos-injective n m a b (omega arith) in (ap suc same, rest)

unfoldable pub number : List ℕ → ℕ
unfolding twos
number [] = 0
number (n ∷ bytes) = twos n (number bytes)

twos-pos : (n a : ℕ) → (twos n a ≡ 0) → ⊥
unfolding twos
twos-pos zero a e = omega arith
twos-pos (suc n) a e = twos-pos n a (omega arith)

number-injective : (xs ys : List ℕ) → number xs ≡ number ys → xs ≡ ys
unfolding number
number-injective [] [] e = refl
number-injective [] (y ∷ ys) e = absurd (twos-pos y (number ys) (sym e))
number-injective (x ∷ xs) [] e = absurd (twos-pos x (number xs) e)
number-injective (x ∷ xs) (y ∷ ys) e =
    let (same, rest) = twos-injective x y (number xs) (number ys) e in
    rw (same, number-injective xs ys rest) refl

abbrev pub signature_of : List ℕ → List ℕ
signature_of message = number message ∷ replicate 63 0

abbrev pub toy : Primitives
toy = record {
  b64_encode = unary;
  b64_decode = λ s. ok (from_unary 0 s);
  hex_encode = unary;
  hex_decode = λ s. ok (from_unary 0 s);
  verify_key = λ key. replicate 32 7;
  sign = λ key message. signature_of message;
  check_key = λ key. ok tt;
  verify =
      λ key message signature. ensure (bytes_eq signature (signature_of message)) "bad signature";
  hmac_sha256 = λ key message. number key ∷ message;
}

ensured : (b : Bool) (e : String) → ensure b e ≡ ok tt → b ≡ true
ensured true e h = refl
ensured false e h = cc h

pub toy-IsSound : IsSound toy
toy-IsSound = record {
  b64_round_trip = λ bytes. ap (λ (l : List ℕ). ok l) (from_unary-unary bytes);
  hex_round_trip = λ bytes. ap (λ (l : List ℕ). ok l) (from_unary-unary bytes);
  length-sign = λ key message. ap suc (length-replicate 63 0);
  length-verify_key = λ key. length-replicate 32 7;
  check-verify_key = λ key. refl;
  verify-sign =
      λ key message. rw ((bytes_eq_iff (signature_of message) (signature_of message)).1 refl) refl;
}
