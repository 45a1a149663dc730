-- ===== src/Error.antt =====
-- src/error.rs: the errors of the engine, and results that carry them.
use liven.Prelude.{ℕ, Option, none, some}
use liven.Bytes.{Bytes}

-- `LivenError`. An I/O error is the text of its kind; the `kind` of `PayloadTooShort` is a text.
pub data LivenError : Type 0 where
  storage : Bytes → LivenError
  pointer_out_of_bounds : ℕ → ℕ → LivenError
  payload_out_of_bounds : ℕ → ℕ → LivenError
  crc_mismatch : ℕ → ℕ → LivenError
  payload_too_short : Bytes → LivenError
  disk_full : LivenError
  stream_limit_exceeded : ℕ → LivenError
  index_ram_limit_exceeded : ℕ → ℕ → LivenError
  batch_index_ram_limit_exceeded : Bytes → ℕ → ℕ → LivenError
  stream_not_found : Bytes → LivenError
  key_already_exists : Bytes → Bytes → LivenError
  key_too_long : ℕ → Bytes → LivenError
  config : Bytes → LivenError
  parse : Bytes → LivenError
  invalid_pipeline : Bytes → LivenError
  query : Bytes → LivenError
  io : Bytes → LivenError
  subscription : Bytes → LivenError
  auth_failed : Bytes → LivenError
  insufficient_capabilities : LivenError
  serialization : Bytes → LivenError
  internal : Bytes → LivenError
  flusher_terminated : LivenError
  segment_lock_timeout : ℕ → Bytes → LivenError
  strict_crc_mismatch : ℕ → ℕ → LivenError
  recovery_required : ℕ → ℕ → ℕ → Bytes → LivenError

-- Rust's `Result<A, E>`
pub data Result {ℓ} (E : Type 0) (A : Type ℓ) : Type ℓ where
  ok : A → Result E A
  err : E → Result E A

infixl 5 ◌>>=◌
abbrev pub ◌>>=◌ {ℓ κ} :
    {E : Type 0} {A : Type ℓ} {B : Type κ} → Result E A → (A → Result E B) → Result E B
ok a >>= f = f a
err e >>= f = err e

-- `map_err`
abbrev pub map_err {ℓ} : {E F : Type 0} {A : Type ℓ} → (E → F) → Result E A → Result F A
map_err f (ok a) = ok a
map_err f (err e) = err (f e)

-- `AckError` (src/storage/ring_buffer.rs)
pub data AckError : Type 0 where
  index_ram : ℕ → ℕ → Option Bytes → AckError
  message : Bytes → AckError

-- `impl From<AckError> for LivenError`
unfoldable pub from_ack_error : AckError → LivenError
from_ack_error (index_ram max_bytes current_bytes none) =
    index_ram_limit_exceeded max_bytes current_bytes
from_ack_error (index_ram max_bytes current_bytes (some key)) =
    batch_index_ram_limit_exceeded key max_bytes current_bytes
from_ack_error (message m) = storage m
