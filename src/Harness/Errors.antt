-- ===== src/Harness/Errors.antt =====
-- crates/stratamoto/src/error.rs: the harness's errors. The errors of the libraries are their texts.
use stratamoto.Base.{ℕ, List}

-- What of `std::io::ErrorKind` the harness tells apart.
pub data IoErrorKind : Type 0 where
  unexpected_eof connection_reset connection_aborted broken_pipe not_connected : IoErrorKind
  other_kind : ℕ → IoErrorKind

-- The texts of `Error::Framing`.
pub data FramingReason : Type 0 where
  payload_too_long not_one_frame : FramingReason

pub data Error : Type 0 where
  io : IoErrorKind → Error
  framing : FramingReason → Error
  framing2 codec parser binary : List ℕ → Error
  unexpected_message : ℕ → Error
  input noise target : List ℕ → Error
  timeout : Error
