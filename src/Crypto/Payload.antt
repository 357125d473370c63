-- ===== src/Crypto/Payload.antt =====
-- The text that a handshake signs: two ids and a time, with colons between them.
use p2p_common.Common.{ℕ, ◌≡◌, ◌≢◌, refl, sym, ap, ◌∙◌, String, List, [], ◌∷◌, ◌++◌, All}
use p2p_common.Common.Bytes.{as_bytes, value, value-decimal}
use p2p_common.Crypto.{handshake_payload}

abbrev pub HasNoColon : List ℕ → Type 0
HasNoColon = All (λ c. c ≢ b':')

split_unique :
    (xs ys r s : List ℕ)
    → HasNoColon xs
    → HasNoColon ys
    → xs ++ (b':' ∷ r) ≡ ys ++ (b':' ∷ s)
    → (xs ≡ ys) × (r ≡ s)
split_unique [] [] r s h k e = (refl, cc)
split_unique [] (y ∷ ys) r s h k e = absurd (k.0 (cc))
split_unique (x ∷ xs) [] r s h k e = absurd (h.0 (cc))
split_unique (x ∷ xs) (y ∷ ys) r s h k e =
    let rest = split_unique xs ys r s h.1 k.1 (cc) in ((cc), rest.1)

-- Where no id holds a colon, two handshakes with the same signed text have the same ids, as bytes,
-- and the same time.
pub handshake_payload-injective :
    (a b c d : String) (t u : ℕ)
    → HasNoColon (as_bytes a)
    → HasNoColon (as_bytes b)
    → HasNoColon (as_bytes c)
    → HasNoColon (as_bytes d)
    → handshake_payload a b t ≡ handshake_payload c d u
    → (as_bytes a ≡ as_bytes c) × (as_bytes b ≡ as_bytes d) × (t ≡ u)
unfolding handshake_payload
handshake_payload-injective a b c d t u na nb nc nd e =
    let first = split_unique (as_bytes a) (as_bytes c) _ _ na nc e in
    let second = split_unique (as_bytes b) (as_bytes d) _ _ nb nd first.1 in
    (first.0, second.0, sym (value-decimal t) ∙ (ap (value 0) second.1 ∙ value-decimal u))
