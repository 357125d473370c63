-- ===== src/Crypto/Examples.antt =====
-- The theorems on crypto.rs at concrete inputs.
use p2p_common.Common.{
  ◌⊎◌, ℕ, ◌≡◌, ◌∙◌, List, [], replicate, length, length-replicate, str_eq, if◌then◌else◌, arith,
}
use p2p_common.Common.Bytes.{as_bytes}
use p2p_common.Common.Result.{ok, err, ◌>>=◌}
use p2p_common.Crypto.{Primitives, handshake_payload, sign_p2p_handshake, verify_p2p_handshake}
use p2p_common.Crypto.Toy.{toy, toy-IsSound, unary, signature_of}
use p2p_common.Crypto.Payload.{HasNoColon}
use p2p_common.Crypto.Handshake.{
  SignsTwo, signed, checked, verify-sign_p2p_handshake, handshake-IsBound,
}

abbrev seed : List ℕ
seed = replicate 32 1

seed_sized : length seed ≡ 32
seed_sized = length-replicate 32 1

verify-sign_p2p_handshake_example :
    (sign_p2p_handshake toy (unary seed) "alice" "bob" 1700 >>= λ s.
    verify_p2p_handshake toy s (unary (replicate 32 7)) "alice" "bob" 1700)
    ≡ ok tt
verify-sign_p2p_handshake_example =
    verify-sign_p2p_handshake toy toy-IsSound seed seed_sized "alice" "bob" 1700

no_colon : HasNoColon (as_bytes "a") × HasNoColon (as_bytes "b")
unfolding as_bytes
no_colon = (((λ e. omega arith), tt), ((λ e. omega arith), tt))

abbrev time : ℕ
time = 5

abbrev mark : List ℕ
mark = signature_of (handshake_payload "a" "b" time)

accepted : verify_p2p_handshake toy (unary mark) (unary (replicate 32 7)) "a" "b" 5 ≡ ok tt
accepted =
    checked toy toy-IsSound seed seed_sized mark "a" "b" 5
      (toy-IsSound.length-sign seed (handshake_payload "a" "b" time))
    ∙ toy-IsSound.verify-sign seed (handshake_payload "a" "b" time)

handshake-IsBound_example :
    ((as_bytes "a" ≡ as_bytes "a") × (as_bytes "b" ≡ as_bytes "b") × (time ≡ time))
    ⊎ SignsTwo toy toy-IsSound seed seed_sized (handshake_payload "a" "b" time)
handshake-IsBound_example =
    handshake-IsBound toy toy-IsSound seed seed_sized "a" "b" "a" "b" 5 5 (unary mark) (no_colon.0)
      (no_colon.1) (no_colon.0) (no_colon.1) (signed toy toy-IsSound seed seed_sized "a" "b" time)
      accepted

-- A decoder that knows the empty text alone
abbrev strict : Primitives
strict = record toy { hex_decode = λ s. if str_eq s "" then ok [] else err "Odd number of digits" }
