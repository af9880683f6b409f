-- ===== src/Network/Errors.antt =====
-- crates/network/src/error.rs
use envshare.Prelude.{Result}

pub data NetworkError : Type 0 where
  task_stopped busy listen dial request response configuration : NetworkError

abbrev pub Network : Type 0 → Type 0
Network A = Result NetworkError A
