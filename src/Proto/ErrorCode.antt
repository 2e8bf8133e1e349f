-- ===== src/Proto/ErrorCode.antt =====
-- ldk-server-protos/src/error.rs: the error codes on the wire and the error response.
use ldk_server.Prelude.{ℕ, Option, none, some, ◌==◌, if◌then◌else◌}
use ldk_server.Text.{Text}

-- `ErrorCode`
pub data ErrorCode : Type 0 where
  unknown_error invalid_request_error auth_error lightning_error internal_server_error : ErrorCode

-- `code as i32`, by the discriminants of the enum
unfoldable pub to_i32 : ErrorCode → ℕ
to_i32 unknown_error = 0
to_i32 invalid_request_error = 1
to_i32 auth_error = 2
to_i32 lightning_error = 3
to_i32 internal_server_error = 4

-- `ErrorCode::from_i32`, which the `Enumeration` derive makes from the discriminants
unfoldable pub from_i32 : ℕ → Option ErrorCode
from_i32 n =
    if n == 0
    then some unknown_error
    else if n == 1
    then some invalid_request_error
    else if n == 2
    then some auth_error
    else if n == 3
    then some lightning_error
    else if n == 4
    then some internal_server_error
    else none

-- `ErrorResponse`
pub record ErrorResponse : Type 0 where
  pub message : Text
  pub error_code : ℕ
