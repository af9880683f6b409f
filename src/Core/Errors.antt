-- ===== src/Core/Errors.antt =====
-- crates/core/src/error.rs
use envshare.Prelude.{Result}

pub data CoreError : Type 0 where
  invalid_code not_found_or_unauthorized share_unavailable network transfer : CoreError
  output child_process configuration internal : CoreError

abbrev pub Outcome {ℓ} : Type ℓ → Type ℓ
Outcome A = Result CoreError A
