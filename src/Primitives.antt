-- ===== src/Primitives.antt =====
-- The cryptographic crates that the repository only calls, as operations with the behaviour that it
-- relies on: sha2, hmac, hkdf and chacha20poly1305.
pub mod Sample
use envshare.Prelude.{ℕ, ◌≡◌, Bytes, IsByte, All, length, Option, some}

-- SHA-256 has 32 bytes of output.
pub record IsSha256 (sha256 : Bytes → Bytes) : Type 0 where
  pub size : (message : Bytes) → length (sha256 message) ≡ 32
  pub bytes : (message : Bytes) → All IsByte (sha256 message)

-- `none` is the error of the call.
pub record Primitives : Type 0 where
  pub sha256 : Bytes → Bytes
  -- key, message
  pub hmac_sha256 : Bytes → Bytes → Option Bytes
  -- salt, input key material, info, length of the output
  pub hkdf_sha256 : Bytes → Bytes → Bytes → ℕ → Option Bytes
  -- key, nonce, associated data, message
  pub encrypt : Bytes → Bytes → Bytes → Bytes → Option Bytes
  pub decrypt : Bytes → Bytes → Bytes → Bytes → Option Bytes

-- The AEAD opens what it sealed under the same key, nonce and associated data.
pub record IsAead (P : Primitives) : Type 0 where
  pub decrypt-encrypt :
      (key nonce aad message ciphertext : Bytes)
      → P.encrypt key nonce aad message ≡ some ciphertext
      → P.decrypt key nonce aad ciphertext ≡ some message
