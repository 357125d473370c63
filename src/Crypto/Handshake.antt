-- ===== src/Crypto/Handshake.antt =====
-- Signing and checking a handshake.
use p2p_common.Common.{
  ℕ, ◌≡◌, sym, ◌∙◌, ◌≢◌, ◌⊎◌, String, List, ◌==◌, length, if◌then◌else◌, inl, inr, Bool-cases,
}
use p2p_common.Common.Result.{ok, err, ◌>>=◌}
use p2p_common.Common.Bytes.{as_bytes}
use p2p_common.Crypto.{
  Primitives, IsSound, handshake_payload, sign_p2p_handshake, verify_p2p_handshake, bytes_eq,
}
use p2p_common.Crypto.Mac.{bytes_eq_iff}
use p2p_common.Crypto.Payload.{HasNoColon, handshake_payload-injective}

module _ (p : Primitives) (sound : IsSound p) (key : List ℕ) (sized : length key ≡ 32) where
  pub signed :
      (me peer : String) (t : ℕ)
      → sign_p2p_handshake p (p.b64_encode key) me peer t
        ≡ ok (p.b64_encode (p.sign key (handshake_payload me peer t)))
  unfolding sign_p2p_handshake
  signed me peer t = rw (sound.b64_round_trip key, sized)

  pub checked :
      (signature : List ℕ) (peer me : String) (t : ℕ)
      → length signature ≡ 64
      → verify_p2p_handshake p (p.b64_encode signature) (p.b64_encode (p.verify_key key)) peer me t
        ≡ p.verify (p.verify_key key) (handshake_payload peer me t) signature
  unfolding verify_p2p_handshake
  checked signature peer me t e = rw (
    sound.b64_round_trip (p.verify_key key),
    sound.length-verify_key key,
    sound.check-verify_key key,
    sound.b64_round_trip signature,
    e,
  )

  -- What a node signs with a key of 32 bytes for a peer, that peer's check with the public key of
  -- the same pair accepts.
  pub verify-sign_p2p_handshake :
      (me peer : String) (t : ℕ)
      → (sign_p2p_handshake p (p.b64_encode key) me peer t >>= λ s.
          verify_p2p_handshake p s (p.b64_encode (p.verify_key key)) me peer t)
        ≡ ok tt
  verify-sign_p2p_handshake me peer t =
      rw
        (
          signed me peer t,
          checked (p.sign key (handshake_payload me peer t)) me peer t (sound.length-sign key _),
        )
        (sound.verify-sign key (handshake_payload me peer t))

  -- A break of the signature scheme: one signature that the library made is good for another message too.
  abbrev pub SignsTwo : List ℕ → Type 0
  SignsTwo message =
      (other : List ℕ) × (other ≢ message)
      × (p.verify (p.verify_key key) other (p.sign key message) ≡ ok tt)

  -- A signed handshake is good for its own two ids and its own time alone, in that order, where no id
  -- holds a colon: whoever gets it accepted for another node, in another direction or at another time
  -- has another message for which the library accepts that same signature.
  pub handshake-IsBound :
      (a b c d : String) (t u : ℕ) (signature : String)
      → HasNoColon (as_bytes a)
      → HasNoColon (as_bytes b)
      → HasNoColon (as_bytes c)
      → HasNoColon (as_bytes d)
      → sign_p2p_handshake p (p.b64_encode key) a b t ≡ ok signature
      → verify_p2p_handshake p signature (p.b64_encode (p.verify_key key)) c d u ≡ ok tt
      → ((as_bytes c ≡ as_bytes a) × (as_bytes d ≡ as_bytes b) × (u ≡ t))
        ⊎ SignsTwo (handshake_payload a b t)
  handshake-IsBound a b c d t u signature na nb nc nd made accepted =
      let mine = p.sign key (handshake_payload a b t) in
      let e : signature ≡ p.b64_encode mine = cc (signed a b t) in
      let v : p.verify (p.verify_key key) (handshake_payload c d u) mine ≡ ok tt =
        sym (checked mine c d u (sound.length-sign key _)) ∙ (rw e at accepted) in
      elim (Bool-cases (bytes_eq (handshake_payload c d u) (handshake_payload a b t))) [
        | inl same ↦
            inl (handshake_payload-injective c d a b u t nc nd na nb ((bytes_eq_iff _ _).0 same))
        | inr differ ↦
            inr
              (handshake_payload c d u, (λ same. cc (sym ((bytes_eq_iff _ _).1 same) ∙ differ)), v)
      ]

-- A key or a signature of the wrong size is refused with its own message, before the signature is
-- looked at.
pub verify_p2p_handshake-sizes :
    (p : Primitives) (s k peer me : String) (t : ℕ) (kb sb : List ℕ)
    → p.b64_decode k ≡ ok kb
    → p.b64_decode s ≡ ok sb
    → p.check_key kb ≡ ok tt
    → verify_p2p_handshake p s k peer me t ≡ (
        if length kb == 32
        then (if length sb == 64
            then p.verify kb (handshake_payload peer me t) sb
            else err "Invalid signature length")
        else err "Invalid public key length")
unfolding verify_p2p_handshake
verify_p2p_handshake-sizes p s k peer me t kb sb ek es ec =
    rw (ek) (elim (Bool-cases (length kb == 32)) [
      | inr bad ↦ rw bad
      | inl good ↦
          rw (good, ec, es)
            (elim (Bool-cases (length sb == 64)) [ inl fine ↦ rw fine | inr wrong ↦ rw wrong ])
    ])
