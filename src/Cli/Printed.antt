-- ===== src/Cli/Printed.antt =====
-- What ldk-server-cli/src/main.rs prints of a response or an error.
use ldk_server.Prelude.{Result, ok, err, ◌++◌}
use ldk_server.Text.{Text, lit}
use ldk_server.Client.{LdkServerError, LdkServerErrorCode}

-- What the client prints; on `stderr` it exits with code 1.
pub data Printed : Type 0 where
  stdout stderr : Text → Printed

abbrev error_type : LdkServerErrorCode → Text
error_type LdkServerErrorCode.invalid_request_error = lit "Invalid Request"
error_type LdkServerErrorCode.auth_error = lit "Authentication Error"
error_type LdkServerErrorCode.lightning_error = lit "Lightning Error"
error_type LdkServerErrorCode.internal_server_error = lit "Internal Server Error"
error_type LdkServerErrorCode.internal_error = lit "Internal Error"

unfoldable pub handle_error : LdkServerError → Printed
handle_error e = stderr (lit "Error (" ++ (error_type e.error_code ++ (lit "): " ++ e.message)))

-- `handle_response_result`, with serde's printer and the `Debug` form of a response as arguments
unfoldable pub handle_response_result :
    {Js : Type 0} → (Js → Result Text Text) → (Js → Text) → Result Js LdkServerError → Printed
handle_response_result to_json debug (err e) = handle_error e
handle_response_result to_json debug (ok response) = elim (to_json response) [
  | ok json ↦ stdout json
  | err e ↦
      stderr (lit "Error serializing response (" ++ (debug response ++ (lit ") to JSON: " ++ e)))
]
