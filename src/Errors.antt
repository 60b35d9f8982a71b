-- ===== src/Errors.antt =====
-- zedio/common/error.hpp: the library's error codes, and `Result<T>`, which is `std::expected`.
use zedlibs.Prelude.{ℕ}

pub data ErrorCode : Type 0 where
  empty_sqe invalid_addresses closed_channel unexpected_eof write_zero : ErrorCode
  too_long_time passed_time invalid_socket_type reunite_failed : ErrorCode

-- The enumerators count up from 8000.
unfoldable pub value : ErrorCode → ℕ
value empty_sqe = 8000
value invalid_addresses = 8001
value closed_channel = 8002
value unexpected_eof = 8003
value write_zero = 8004
value too_long_time = 8005
value passed_time = 8006
value invalid_socket_type = 8007
value reunite_failed = 8008

pub data Result {ℓ} (A : Type ℓ) : Type ℓ where
  ok : A → Result A
  err : ErrorCode → Result A
