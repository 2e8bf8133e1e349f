-- ===== src/Client.antt =====
-- ldk-server-client: the errors of src/error.rs and the requests of src/client.rs.
mod Error
pub mod Laws
pub use Error.{LdkServerErrorCode, LdkServerError}
use ldk_server.Prelude.{
  ℕ, Bool, ◌&&◌, Option, none, some, List, ◌∷◌, ◌++◌, Result, ok, err, ◌>>=◌, map_err, leb,
  if◌then◌else◌,
}
use ldk_server.Text.{Text, lit}
use ldk_server.Proto.ErrorCode
use ldk_server.Proto.ErrorCode.{ErrorCode, ErrorResponse, from_i32}
use ldk_server.Proto.Endpoints.{Endpoint, endpoint_path}
use ldk_server.Proto.Operations
use ldk_server.Proto.Operations.{Operation}
use ldk_server.Auth.{compute_auth_header}
use Error.{new}

-- `LdkServerClient`, less its connection pool.
pub record LdkServerClient : Type 0 where
  pub base_url : Text
  pub api_key : Text

-- What reqwest hands back: the status, as a number and as it is shown, and the body or why it could
-- not be read.
pub record RawResponse : Type 0 where
  pub status : ℕ
  pub shown_status : Text
  pub bytes : Result (List ℕ) Text

-- A `POST` to the URL with this `X-Auth` header and body, which may fail; `S` is what the server
-- at the other end keeps.
abbrev pub Network : Type 0 → Type 0
Network S = Text → Text → List ℕ → S → Result RawResponse Text × S

-- The URL that each of the client's methods builds.
unfoldable pub request_url : LdkServerClient → Endpoint → Text
request_url client e = lit "https://" ++ (client.base_url ++ (b'/' ∷ endpoint_path e))

-- `StatusCode::is_success`
abbrev pub is_success : ℕ → Bool
is_success status = leb 200 status && leb status 299

-- The match on `ErrorCode::from_i32`.
unfoldable pub client_error_code : Option ErrorCode → LdkServerErrorCode
client_error_code (some ErrorCode.invalid_request_error) = LdkServerErrorCode.invalid_request_error
client_error_code (some ErrorCode.auth_error) = LdkServerErrorCode.auth_error
client_error_code (some ErrorCode.lightning_error) = LdkServerErrorCode.lightning_error
client_error_code (some ErrorCode.internal_server_error) = LdkServerErrorCode.internal_server_error
client_error_code (some ErrorCode.unknown_error) = LdkServerErrorCode.internal_error
client_error_code none = LdkServerErrorCode.internal_error

-- The end of `post_request`: what a response with this status and payload stands for. The two
-- `decode` functions are prost's.
unfoldable pub read_response :
    {R : Type 0}
    → (List ℕ → Result R Text)
    → (List ℕ → Result ErrorResponse Text)
    → RawResponse
    → Result R LdkServerError
unfolding from_i32 client_error_code
read_response decode decode_error response = do
  payload ←
      map_err
        (λ e. new LdkServerErrorCode.internal_error (lit "Failed to read response body: " ++ e))
        response.bytes
  if is_success response.status
      then map_err
          (λ e.
            new LdkServerErrorCode.internal_error (lit "Failed to decode success response: " ++ e))
          (decode payload)
      else do
        error ←
            map_err
              (λ e. new LdkServerErrorCode.internal_error (
                lit "Failed to decode error response (status "
                ++ (response.shown_status ++ (lit "): " ++ e))))
              (decode_error payload)
        err (new (client_error_code (from_i32 error.error_code)) error.message)

-- `post_request`, with the client's clock at `timestamp`.
unfoldable pub post_request :
    {S Q R : Type 0}
    → (Text → List ℕ → Text)
    → (Q → List ℕ)
    → (List ℕ → Result R Text)
    → (List ℕ → Result ErrorResponse Text)
    → Network S
    → LdkServerClient
    → ℕ
    → Q
    → Text
    → S
    → Result R LdkServerError × S
unfolding read_response
post_request hmac encode decode decode_error send client timestamp request url s =
    let request_body = encode request in
    let auth_header = compute_auth_header hmac client.api_key timestamp request_body in
    let (sent, s') = send url auth_header request_body s in
    (
      map_err (λ e. new LdkServerErrorCode.internal_error (lit "HTTP request failed: " ++ e)) sent
          >>= read_response decode decode_error,
      s',
    )

-- The constant in the URL of each of the client's methods.
abbrev pub posts_to : Operation → Endpoint
posts_to Operation.get_node_info = Endpoint.get_node_info
posts_to Operation.get_balances = Endpoint.get_balances
posts_to Operation.onchain_receive = Endpoint.onchain_receive
posts_to Operation.onchain_send = Endpoint.onchain_send
posts_to Operation.bolt11_receive = Endpoint.bolt11_receive
posts_to Operation.bolt11_send = Endpoint.bolt11_send
posts_to Operation.bolt12_receive = Endpoint.bolt12_receive
posts_to Operation.bolt12_send = Endpoint.bolt12_send
posts_to Operation.open_channel = Endpoint.open_channel
posts_to Operation.splice_in = Endpoint.splice_in
posts_to Operation.splice_out = Endpoint.splice_out
posts_to Operation.close_channel = Endpoint.close_channel
posts_to Operation.force_close_channel = Endpoint.force_close_channel
posts_to Operation.list_channels = Endpoint.list_channels
posts_to Operation.list_payments = Endpoint.list_payments
posts_to Operation.list_forwarded_payments = Endpoint.list_forwarded_payments
posts_to Operation.update_channel_config = Endpoint.update_channel_config
posts_to Operation.get_payment_details = Endpoint.get_payment_details
posts_to Operation.connect_peer = Endpoint.connect_peer
posts_to Operation.list_peers = Endpoint.list_peers

-- The client's methods `get_node_info` to `list_peers`.
unfoldable pub call_method :
    {S Q R : Type 0}
    → (Text → List ℕ → Text)
    → (Q → List ℕ)
    → (List ℕ → Result R Text)
    → (List ℕ → Result ErrorResponse Text)
    → Network S
    → LdkServerClient
    → ℕ
    → Operation
    → Q
    → S
    → Result R LdkServerError × S
unfolding post_request request_url
call_method hmac encode decode decode_error send client timestamp operation request =
    post_request hmac encode decode decode_error send client timestamp request
      (request_url client (posts_to operation))
