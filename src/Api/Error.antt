-- ===== src/Api/Error.antt =====
-- ldk-server/src/api/error.rs, and `to_error_response` of ldk-server/src/util/proto_adapter.rs.
use ldk_server.Prelude.{ℕ, ◌++◌}
use ldk_server.Text.{Text, lit}
use ldk_server.Proto.ErrorCode.{ErrorCode, ErrorResponse, to_i32}

pub data LdkServerErrorCode : Type 0 where
  invalid_request_error auth_error lightning_error internal_server_error : LdkServerErrorCode

-- `LdkServerError`; its constructor function `new` is the record itself.
pub record LdkServerError : Type 0 where
  pub error_code : LdkServerErrorCode
  pub message : Text

abbrev pub new : LdkServerErrorCode → Text → LdkServerError
new c m = record { error_code = c; message = m }

-- The variants of ldk-node's `NodeError` that the conversion lists.
pub data NodeError : Type 0 where
  invalid_address invalid_socket_address invalid_public_key invalid_secret_key : NodeError
  invalid_offer_id invalid_node_id invalid_payment_id invalid_payment_hash : NodeError
  invalid_payment_preimage invalid_payment_secret invalid_amount invalid_invoice : NodeError
  invalid_offer invalid_refund invalid_channel_id invalid_network invalid_uri : NodeError
  invalid_quantity invalid_node_alias invalid_date_time invalid_fee_rate : NodeError
  uri_parameter_parsing_failed invalid_blinded_paths async_payment_services_disabled : NodeError
  connection_failed invoice_creation_failed invoice_request_creation_failed : NodeError
  offer_creation_failed refund_creation_failed payment_sending_failed : NodeError
  invalid_custom_tlvs probe_sending_failed channel_creation_failed : NodeError
  channel_closing_failed channel_splicing_failed channel_config_update_failed : NodeError
  duplicate_payment insufficient_funds unsupported_currency hrn_parsing_failed : NodeError
  liquidity_fee_too_high : NodeError
  already_running not_running persistence_failed feerate_estimation_update_failed : NodeError
  feerate_estimation_update_timeout wallet_operation_failed wallet_operation_timeout : NodeError
  gossip_update_failed gossip_update_timeout liquidity_source_unavailable : NodeError
  liquidity_request_failed onchain_tx_creation_failed onchain_tx_signing_failed : NodeError
  tx_sync_failed invalid_script_pub_key tx_sync_timeout : NodeError

-- The code that `From<NodeError>` chooses.
unfoldable pub node_error_code : NodeError → LdkServerErrorCode
node_error_code invalid_address = invalid_request_error
node_error_code invalid_socket_address = invalid_request_error
node_error_code invalid_public_key = invalid_request_error
node_error_code invalid_secret_key = invalid_request_error
node_error_code invalid_offer_id = invalid_request_error
node_error_code invalid_node_id = invalid_request_error
node_error_code invalid_payment_id = invalid_request_error
node_error_code invalid_payment_hash = invalid_request_error
node_error_code invalid_payment_preimage = invalid_request_error
node_error_code invalid_payment_secret = invalid_request_error
node_error_code invalid_amount = invalid_request_error
node_error_code invalid_invoice = invalid_request_error
node_error_code invalid_offer = invalid_request_error
node_error_code invalid_refund = invalid_request_error
node_error_code invalid_channel_id = invalid_request_error
node_error_code invalid_network = invalid_request_error
node_error_code invalid_uri = invalid_request_error
node_error_code invalid_quantity = invalid_request_error
node_error_code invalid_node_alias = invalid_request_error
node_error_code invalid_date_time = invalid_request_error
node_error_code invalid_fee_rate = invalid_request_error
node_error_code uri_parameter_parsing_failed = invalid_request_error
node_error_code invalid_blinded_paths = invalid_request_error
node_error_code async_payment_services_disabled = invalid_request_error
node_error_code connection_failed = lightning_error
node_error_code invoice_creation_failed = lightning_error
node_error_code invoice_request_creation_failed = lightning_error
node_error_code offer_creation_failed = lightning_error
node_error_code refund_creation_failed = lightning_error
node_error_code payment_sending_failed = lightning_error
node_error_code invalid_custom_tlvs = lightning_error
node_error_code probe_sending_failed = lightning_error
node_error_code channel_creation_failed = lightning_error
node_error_code channel_closing_failed = lightning_error
node_error_code channel_splicing_failed = lightning_error
node_error_code channel_config_update_failed = lightning_error
node_error_code duplicate_payment = lightning_error
node_error_code insufficient_funds = lightning_error
node_error_code unsupported_currency = lightning_error
node_error_code hrn_parsing_failed = lightning_error
node_error_code liquidity_fee_too_high = lightning_error
node_error_code already_running = internal_server_error
node_error_code not_running = internal_server_error
node_error_code persistence_failed = internal_server_error
node_error_code feerate_estimation_update_failed = internal_server_error
node_error_code feerate_estimation_update_timeout = internal_server_error
node_error_code wallet_operation_failed = internal_server_error
node_error_code wallet_operation_timeout = internal_server_error
node_error_code gossip_update_failed = internal_server_error
node_error_code gossip_update_timeout = internal_server_error
node_error_code liquidity_source_unavailable = internal_server_error
node_error_code liquidity_request_failed = internal_server_error
node_error_code onchain_tx_creation_failed = internal_server_error
node_error_code onchain_tx_signing_failed = internal_server_error
node_error_code tx_sync_failed = internal_server_error
node_error_code invalid_script_pub_key = internal_server_error
node_error_code tx_sync_timeout = internal_server_error

-- `impl From<NodeError> for LdkServerError`, over ldk-node's `to_string`.
unfoldable pub from_node_error : (NodeError → Text) → NodeError → LdkServerError
unfolding node_error_code
from_node_error to_string error = new (node_error_code error) (to_string error)

-- The first match of `to_error_response`.
abbrev pub wire_code : LdkServerErrorCode → ErrorCode
wire_code invalid_request_error = ErrorCode.invalid_request_error
wire_code auth_error = ErrorCode.auth_error
wire_code lightning_error = ErrorCode.lightning_error
wire_code internal_server_error = ErrorCode.internal_server_error

-- The second match of `to_error_response`: BAD_REQUEST, UNAUTHORIZED, INTERNAL_SERVER_ERROR.
abbrev pub status_code : LdkServerErrorCode → ℕ
status_code invalid_request_error = 400
status_code auth_error = 401
status_code lightning_error = 500
status_code internal_server_error = 500

unfoldable pub to_error_response : LdkServerError → ErrorResponse × ℕ
unfolding to_i32
to_error_response e = (
  record { message = e.message; error_code = to_i32 (wire_code e.error_code) },
  status_code e.error_code,
)

-- `Display` of an error and of its code
abbrev code_name : LdkServerErrorCode → Text
code_name invalid_request_error = lit "InvalidRequestError"
code_name auth_error = lit "AuthError"
code_name lightning_error = lit "LightningError"
code_name internal_server_error = lit "InternalServerError"

unfoldable pub display : LdkServerError → Text
display e = lit "Error: [" ++ (code_name e.error_code ++ (lit "]: " ++ e.message))
