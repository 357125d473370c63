-- ===== src/Crypto.antt =====
-- nodeinnet-api/src/crypto.rs: signatures on the handshake and on messages, and MACs. The libraries
-- under it (base64, hex, ed25519-dalek, hmac) are the parameter `Primitives`.
pub mod Payload
pub mod Handshake
pub mod Mac
pub mod Toy
mod Examples
use p2p_common.Common.{
  ℕ, ◌≡◌, ◌≢◌, String, Bool, true, false, List, [], ◌∷◌, ◌++◌, ◌==◌, ◌&&◌, length,
}
use p2p_common.Common.Result.{Result, ok, err, ensure, ◌>>=◌, ◌>>◌}
use p2p_common.Common.Bytes.{as_bytes, decimal}

-- Keys, signatures and MACs are byte lists.
pub record Primitives : Type 0 where
  pub b64_encode : List ℕ → String
  pub b64_decode : String → Result (List ℕ)
  pub hex_encode : List ℕ → String
  pub hex_decode : String → Result (List ℕ)
  -- `SigningKey::from_bytes(key).verifying_key().to_bytes()`
  pub verify_key : List ℕ → List ℕ
  -- `SigningKey::from_bytes(key).sign(message).to_bytes()`
  pub sign : List ℕ → List ℕ → List ℕ
  -- `VerifyingKey::from_bytes(key)?.verify(message, signature)`, its two steps
  pub check_key : List ℕ → Result (Unit {0})
  pub verify : List ℕ → List ℕ → List ℕ → Result (Unit {0})
  pub hmac_sha256 : List ℕ → List ℕ → List ℕ

-- What the documentation of these libraries says of them.
pub record IsSound (p : Primitives) : Type 0 where
  pub b64_round_trip : (bytes : List ℕ) → p.b64_decode (p.b64_encode bytes) ≡ ok bytes
  pub hex_round_trip : (bytes : List ℕ) → p.hex_decode (p.hex_encode bytes) ≡ ok bytes
  pub length-sign : (key message : List ℕ) → length (p.sign key message) ≡ 64
  pub length-verify_key : (key : List ℕ) → length (p.verify_key key) ≡ 32
  pub check-verify_key : (key : List ℕ) → p.check_key (p.verify_key key) ≡ ok tt
  pub verify-sign :
      (key message : List ℕ) → p.verify (p.verify_key key) message (p.sign key message) ≡ ok tt

-- `format!("{}:{}:{}", ..)`, as bytes
unfoldable pub handshake_payload : String → String → ℕ → List ℕ
handshake_payload from to timestamp =
    as_bytes from ++ (b':' ∷ (as_bytes to ++ (b':' ∷ decimal timestamp)))

abbrev pub bytes_eq : List ℕ → List ℕ → Bool
bytes_eq [] [] = true
bytes_eq (x ∷ xs) (y ∷ ys) = x == y && bytes_eq xs ys
bytes_eq _ _ = false

module _ (p : Primitives) where
  unfoldable pub sign_message : String → List ℕ → Result String
  sign_message private_key_b64 message = do
    priv_bytes ← p.b64_decode private_key_b64
    ensure (length priv_bytes == 32) "Invalid private key length"
    ok (p.b64_encode (p.sign priv_bytes message))

  unfoldable pub verify_message : String → String → List ℕ → Result (Unit {0})
  verify_message signature_b64 public_key_b64 message = do
    pub_bytes ← p.b64_decode public_key_b64
    ensure (length pub_bytes == 32) "Invalid public key length"
    p.check_key pub_bytes
    sig_bytes ← p.b64_decode signature_b64
    ensure (length sig_bytes == 64) "Invalid signature length"
    p.verify pub_bytes message sig_bytes

  unfoldable pub sign_p2p_handshake : String → String → String → ℕ → Result String
  sign_p2p_handshake private_key_b64 my_id peer_id timestamp = do
    priv_bytes ← p.b64_decode private_key_b64
    ensure (length priv_bytes == 32) "Invalid private key length"
    ok (p.b64_encode (p.sign priv_bytes (handshake_payload my_id peer_id timestamp)))

  unfoldable pub verify_p2p_handshake : String → String → String → String → ℕ → Result (Unit {0})
  verify_p2p_handshake signature_b64 public_key_b64 peer_id my_id timestamp = do
    pub_bytes ← p.b64_decode public_key_b64
    ensure (length pub_bytes == 32) "Invalid public key length"
    p.check_key pub_bytes
    sig_bytes ← p.b64_decode signature_b64
    ensure (length sig_bytes == 64) "Invalid signature length"
    p.verify pub_bytes (handshake_payload peer_id my_id timestamp) sig_bytes

  -- `hex::decode(key_hex).unwrap_or_default()`
  abbrev pub key_bytes : Result (List ℕ) → List ℕ
  key_bytes (ok bytes) = bytes
  key_bytes (err e) = []

  unfoldable pub compute_hmac_sha256 : List ℕ → String → String
  compute_hmac_sha256 payload key_hex =
      p.hex_encode (p.hmac_sha256 (key_bytes (p.hex_decode key_hex)) payload)

  abbrev pub verify_slice : List ℕ → Result (List ℕ) → Bool
  verify_slice computed (ok expected) = bytes_eq computed expected
  verify_slice computed (err e) = false

  unfoldable pub verify_hmac_sha256 : List ℕ → String → String → Bool
  verify_hmac_sha256 payload key_hex expected_mac =
      verify_slice (p.hmac_sha256 (key_bytes (p.hex_decode key_hex)) payload)
        (p.hex_decode expected_mac)
