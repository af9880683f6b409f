-- ===== src/Crypto/Kdf.antt =====
-- crates/crypto/src/kdf.rs: the keys of a network and of a claim.
use envshare.Prelude.{
  ℕ, ◌^◌, Bool, not, ◌&&◌, ◌++◌, leb, ltb, all, is_empty, length, Bytes, bytes_of, to_be_bytes, ok,
  ◌>>=◌, ◌>>◌, guard, ok_or,
}
use envshare.Primitives.{Primitives}
use envshare.Protocol.Limits.{max_network_id_bytes}
use envshare.Crypto.Types.{
  Crypto, DerivedRoot, SessionKeys, PeerContext, invalid_network_id, invalid_peer_identity,
  key_derivation,
}
use envshare.Crypto.Transcript.{new, append_bytes}

abbrev root_salt_domain : Bytes
root_salt_domain = bytes_of "envshare/root-salt/v1"

abbrev room_info_domain : Bytes
room_info_domain = bytes_of "envshare/room-id/v1"

abbrev auth_info_domain : Bytes
auth_info_domain = bytes_of "envshare/auth-key/v1"

abbrev session_base_info_domain : Bytes
session_base_info_domain = bytes_of "envshare/session-base-key/v1"

abbrev session_salt_domain : Bytes
session_salt_domain = bytes_of "envshare/session-salt/v1"

abbrev payload_key_domain : Bytes
payload_key_domain = bytes_of "envshare/payload-key/v1"

abbrev ack_key_domain : Bytes
ack_key_domain = bytes_of "envshare/ack-key/v1"

abbrev is_ascii_graphic : ℕ → Bool
is_ascii_graphic b = leb 33 b && leb b 126

unfoldable pub validate_network_id : Bytes → Crypto Bytes
validate_network_id network_id = do
  guard
      (not (is_empty network_id)
        && leb (length network_id) max_network_id_bytes
        && all is_ascii_graphic network_id)
      invalid_network_id
  ok network_id

unfoldable pub validate_context : PeerContext → Crypto (Unit {0})
validate_context context = do
  network_id ← validate_network_id context.network_id
  guard (not (is_empty context.sender_peer_id) && not (is_empty context.receiver_peer_id))
      invalid_peer_identity

unfoldable network_info : Bytes → Bytes → Crypto Bytes
network_info domain network_id = do
  guard (ltb (length network_id) (2 ^ 32)) invalid_network_id
  ok (domain ++ (to_be_bytes 4 (length network_id) ++ network_id))

unfoldable pub session_info : Bytes → PeerContext → Bytes → Crypto Bytes
session_info domain context claim_id = do
  transcript ← new domain
  transcript ← append_bytes transcript context.network_id
  transcript ← append_bytes transcript context.room_id
  transcript ← append_bytes transcript context.sender_peer_id
  transcript ← append_bytes transcript context.receiver_peer_id
  append_bytes transcript claim_id

module _ (P : Primitives) where
  expand : Bytes → Bytes → ℕ → Bytes → Crypto Bytes
  expand salt key size info = ok_or (P.hkdf_sha256 salt key info size) key_derivation

  unfoldable derive_root : Bytes → Bytes → Crypto DerivedRoot
  unfolding expand
  derive_root secret network_id = do
    network_id ← validate_network_id network_id
    let salt = P.sha256 root_salt_domain
    room_info ← network_info room_info_domain network_id
    room_id ← expand salt secret 16 room_info
    auth_info ← network_info auth_info_domain network_id
    authentication_key ← expand salt secret 32 auth_info
    base_info ← network_info session_base_info_domain network_id
    session_base_key ← expand salt secret 32 base_info
    ok (record {
      room_id = room_id;
      authentication_key = authentication_key;
      session_base_key = session_base_key;
    })

  -- The key, the context, the two nonces and the claim.
  unfoldable pub derive_session : Bytes → PeerContext → Bytes → Bytes → Bytes → Crypto SessionKeys
  unfolding expand
  derive_session session_base_key context receiver_nonce sender_nonce claim_id = do
    validate_context context
    let salt = P.sha256 (session_salt_domain ++ (receiver_nonce ++ sender_nonce))
    payload_info ← session_info payload_key_domain context claim_id
    acknowledgement_info ← session_info ack_key_domain context claim_id
    payload_key ← expand salt session_base_key 32 payload_info
    acknowledgement_key ← expand salt session_base_key 32 acknowledgement_info
    ok (record { payload_key = payload_key; acknowledgement_key = acknowledgement_key })
