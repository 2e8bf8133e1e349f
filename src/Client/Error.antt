-- ===== src/Client/Error.antt =====
-- ldk-server-client/src/error.rs
use ldk_server.Text.{Text}

pub data LdkServerErrorCode : Type 0 where
  invalid_request_error auth_error lightning_error internal_server_error internal_error :
      LdkServerErrorCode

pub record LdkServerError : Type 0 where
  pub error_code : LdkServerErrorCode
  pub message : Text

abbrev pub new : LdkServerErrorCode → Text → LdkServerError
new c m = record { error_code = c; message = m }
