-- ===== src/Crypto/Mac.antt =====
-- MACs over resource messages.
use p2p_common.Common.{ℕ, ◌≡◌, refl, sym, ap, ◌∙◌, ◌↔◌, String, true, List, [], ◌∷◌, arith}
use p2p_common.Common.Result.{Result, ok, err}
use p2p_common.Crypto.{
  Primitives, IsSound, bytes_eq, compute_hmac_sha256, verify_hmac_sha256, key_bytes, verify_slice,
}

pub bytes_eq_iff : (xs ys : List ℕ) → (bytes_eq xs ys ≡ true) ↔ (xs ≡ ys)
bytes_eq_iff [] [] = ((λ e. refl), (λ e. refl))
bytes_eq_iff [] (y ∷ ys) = ((λ e. cc), (λ e. cc))
bytes_eq_iff (x ∷ xs) [] = ((λ e. cc), (λ e. cc))
bytes_eq_iff (x ∷ xs) (y ∷ ys) =
    let rest = bytes_eq_iff xs ys in ((λ e. ground (arith, rest.0)), (λ e. ground (arith, rest.1)))

-- A message carries a valid MAC exactly when the text decodes to the MAC that the receiver computes
-- with the same key.
pub verify_hmac_iff :
    (p : Primitives) (payload : List ℕ) (key mac : String)
    → (verify_hmac_sha256 p payload key mac ≡ true)
      ↔ (p.hex_decode mac ≡ ok (p.hmac_sha256 (key_bytes p (p.hex_decode key)) payload))
unfolding verify_hmac_sha256
verify_hmac_iff p payload key mac =
    let computed = p.hmac_sha256 (key_bytes p (p.hex_decode key)) payload in
    split computed (p.hex_decode mac)
  where
    split :
        (computed : List ℕ) (r : Result (List ℕ))
        → (verify_slice p computed r ≡ true) ↔ (r ≡ ok computed)
    split computed (ok expected) = (
      (λ e. ap (λ (l : List ℕ). ok l) (sym ((bytes_eq_iff computed expected).0 e))),
      (λ e. (bytes_eq_iff computed expected).1 (cc)),
    )
    split computed (err e) = ((λ h. cc), (λ h. cc))

-- The receiver accepts the sender's MAC under the same key text, whatever that text is: where it is
-- no hexadecimal both sides use the empty key.
pub verify-compute_hmac :
    (p : Primitives) (sound : IsSound p) (payload : List ℕ) (key : String)
    → verify_hmac_sha256 p payload key (compute_hmac_sha256 p payload key) ≡ true
unfolding compute_hmac_sha256
verify-compute_hmac p sound payload key =
    (verify_hmac_iff p payload key _).1 (sound.hex_round_trip _)

-- A key text that is no hexadecimal is not refused: its MACs are those of the empty key.
pub bad_key_is_empty_key :
    (p : Primitives) (payload : List ℕ) (key other why : String)
    → p.hex_decode key ≡ err why
    → p.hex_decode other ≡ ok []
    → compute_hmac_sha256 p payload key ≡ compute_hmac_sha256 p payload other
unfolding compute_hmac_sha256
bad_key_is_empty_key p payload key other why bad empty =
    let mac = λ (r : Result (List ℕ)). p.hex_encode (p.hmac_sha256 (key_bytes p r) payload) in
    ap mac bad ∙ sym (ap mac empty)
