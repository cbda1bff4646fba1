-- ===== src/Result.antt =====
-- src/laige-core/include/laige/result.h and errors.h: results, statuses and the stable error codes.
use laige_cpp.Prelude.{Bool, true, false, Option, some, none}

-- `enum class ErrorCode`.
pub data ErrorCode : Type 0 where
  unknown invalid_argument malformed_input budget_exhausted io_error : ErrorCode
  gl_unavailable gl_version_unsupported : ErrorCode

-- `Result<T, ErrorCode>`: a value or a code, never both and never neither.
pub data Result {ℓ} (A : Type ℓ) : Type ℓ where
  success : A → Result A
  failure : ErrorCode → Result A

-- `Status`: success, or a code.
pub data Status : Type 0 where
  done : Status
  failed : ErrorCode → Status

abbrev pub ok {ℓ} : {A : Type ℓ} → Result A → Bool
ok (success a) = true
ok (failure e) = false

abbrev pub value_if_ok {ℓ} : {A : Type ℓ} → Result A → Option A
value_if_ok (success a) = some a
value_if_ok (failure e) = none

abbrev pub status_ok : Status → Bool
status_ok done = true
status_ok (failed e) = false
