-- ===== src/Protocol/Errors.antt =====
-- crates/protocol/src/error.rs
use envshare.Prelude.{ℕ, ◌^◌, ◌<◌, ◌==◌, if◌then◌else◌, Result, ok, err, ◌≡◌, refl, arith}

pub data ProtocolErrorCode : Type 0 where
  not_found_or_unauthorized unsupported_version invalid_code_message share_unavailable :
      ProtocolErrorCode
  share_expired share_already_claimed claim_mismatch payload_too_large : ProtocolErrorCode
  internal_failure temporarily_unavailable : ProtocolErrorCode

pub data WireError : Type 0 where
  incomplete_header empty_frame frame_too_large length_mismatch invalid_message : WireError

abbrev pub Wire {ℓ} : Type ℓ → Type ℓ
Wire A = Result WireError A

-- `code as u8`
pub code_as_u8 : ProtocolErrorCode → ℕ
code_as_u8 not_found_or_unauthorized = 0
code_as_u8 unsupported_version = 1
code_as_u8 invalid_code_message = 2
code_as_u8 share_unavailable = 3
code_as_u8 share_expired = 4
code_as_u8 share_already_claimed = 5
code_as_u8 claim_mismatch = 6
code_as_u8 payload_too_large = 7
code_as_u8 internal_failure = 8
code_as_u8 temporarily_unavailable = 9

-- `ProtocolErrorCode::try_from`
pub code_try_from : ℕ → Wire ProtocolErrorCode
code_try_from value =
    if value == 0
    then ok not_found_or_unauthorized
    else if value == 1
    then ok unsupported_version
    else if value == 2
    then ok invalid_code_message
    else if value == 3
    then ok share_unavailable
    else if value == 4
    then ok share_expired
    else if value == 5
    then ok share_already_claimed
    else if value == 6
    then ok claim_mismatch
    else if value == 7
    then ok payload_too_large
    else if value == 8
    then ok internal_failure
    else if value == 9
    then ok temporarily_unavailable
    else err invalid_message

pub code_try_from-code_as_u8 : (c : ProtocolErrorCode) → code_try_from (code_as_u8 c) ≡ ok c
unfolding code_try_from code_as_u8
code_try_from-code_as_u8 not_found_or_unauthorized = refl
code_try_from-code_as_u8 _ = refl

pub code_as_u8-lt : (c : ProtocolErrorCode) → code_as_u8 c < 2 ^ 8
unfolding code_as_u8
code_as_u8-lt not_found_or_unauthorized = omega arith
code_as_u8-lt _ = omega arith
