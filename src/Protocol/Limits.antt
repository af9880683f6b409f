-- ===== src/Protocol/Limits.antt =====
-- crates/protocol/src/limits.rs and the version of lib.rs.
use envshare.Prelude.{ℕ, ◌+◌, ◌*◌}

abbrev pub protocol_version : ℕ
protocol_version = 1

abbrev pub max_payload_bytes : ℕ
max_payload_bytes = 1024 * 1024

abbrev pub max_open_body_bytes : ℕ
max_open_body_bytes = 1024

abbrev pub max_ack_body_bytes : ℕ
max_ack_body_bytes = 1024

abbrev pub max_completed_body_bytes : ℕ
max_completed_body_bytes = 1024

abbrev pub max_error_body_bytes : ℕ
max_error_body_bytes = 1024

abbrev max_offer_overhead_bytes : ℕ
max_offer_overhead_bytes = 16 * 1024

abbrev pub max_offer_body_bytes : ℕ
max_offer_body_bytes = max_payload_bytes + max_offer_overhead_bytes

abbrev pub max_envelope_bytes : ℕ
max_envelope_bytes = max_payload_bytes + 1024

abbrev pub max_ciphertext_bytes : ℕ
max_ciphertext_bytes = max_envelope_bytes + 16

abbrev pub max_transcript_bytes : ℕ
max_transcript_bytes = 8 * 1024

abbrev pub max_network_id_bytes : ℕ
max_network_id_bytes = 64

abbrev pub max_suggested_name_bytes : ℕ
max_suggested_name_bytes = 128
