-- ===== src/Primitives/Sample.antt =====
-- A concrete instance of the cryptographic operations, for runs: its outputs depend on the lengths
-- of the inputs only, and its ciphertext is the message with a tag of 16 bytes.
use envshare.Prelude.{
  ◌+◌, ◌-◌, ◌%◌, ◌≡◌, ap, some, some-inj, ◌++◌, length, length-append, take, take_append_of_length,
  replicate, Bytes, arith,
}
use envshare.Primitives.{Primitives, IsAead}

abbrev tag : Bytes
tag = replicate 16 7

abbrev pub toy : Primitives
toy = record {
  sha256 = λ message. replicate 32 (length message % 256);
  hmac_sha256 = λ key message. some (replicate 32 ((length key + length message) % 256));
  hkdf_sha256 = λ salt key info size. some (replicate size (length info % 256));
  encrypt = λ key nonce aad message. some (message ++ tag);
  decrypt = λ key nonce aad ciphertext. some (take (length ciphertext - 16) ciphertext);
}

opened :
    (message ciphertext : Bytes)
    → message ++ tag ≡ ciphertext
    → take (length ciphertext - 16) ciphertext ≡ message
opened message ciphertext h = rw (← h) (
    take_append_of_length (length (message ++ tag) - 16) message tag
      (omega (arith, length-append message tag)))

pub toy-IsAead : IsAead toy
toy-IsAead = record {
  decrypt-encrypt =
      λ key nonce aad message ciphertext h. ap some (opened message ciphertext (some-inj h));
}
