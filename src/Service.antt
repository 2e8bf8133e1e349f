-- ===== src/Service.antt =====
-- The request handling of ldk-server/src/service.rs: routing, the limit on the body, the
-- authentication, decoding, and the responses.
pub mod Transport
pub mod Laws
use ldk_server.Prelude.{
  ℕ, ◌*◌, Bool, true, false, Option, none, some, List, [], ◌∷◌, ◌++◌, Result, ok, err, find?,
}
use ldk_server.Text.{Text, lit, text_eq}
use ldk_server.Proto.Endpoints
use ldk_server.Proto.Endpoints.{Endpoint, endpoint_path}
use ldk_server.Proto.Operations
use ldk_server.Proto.Operations.{Operation}
use ldk_server.Api.Error.{LdkServerError, new, invalid_request_error, to_error_response}
use ldk_server.Auth.{AuthParams, extract_auth_params, validate_hmac_auth}
use ldk_server.Service.Transport.{
  Http, Route, Request, Response, options, other, Builder, response_builder, with_header,
  with_status, with_body,
}

-- `MAX_BODY_SIZE`
abbrev pub max_body_size : ℕ
max_body_size = 10 * 1024 * 1024

-- `cors_headers`
abbrev pub cors_headers : Builder → Builder
cors_headers builder =
    with_header (lit "Access-Control-Allow-Headers") (lit "Content-Type, X-Auth") (
      with_header (lit "Access-Control-Allow-Methods") (lit "GET, POST, OPTIONS")
        (with_header (lit "Access-Control-Allow-Origin") (lit "http://localhost:8080") builder))

-- `cors_preflight_response`: NO_CONTENT
unfoldable pub cors_preflight_response : Response
cors_preflight_response = with_body [] (with_status 204 (cors_headers response_builder))

-- The arms of the match on the path, in their order.
unfoldable pub arms : List Endpoint
arms =
    Endpoint.get_node_info ∷ Endpoint.get_balances ∷ Endpoint.onchain_receive
    ∷ Endpoint.onchain_send ∷ Endpoint.bolt11_receive ∷ Endpoint.bolt11_send
    ∷ Endpoint.bolt12_receive ∷ Endpoint.bolt12_send ∷ Endpoint.open_channel ∷ Endpoint.splice_in
    ∷ Endpoint.splice_out ∷ Endpoint.close_channel ∷ Endpoint.force_close_channel
    ∷ Endpoint.list_channels ∷ Endpoint.update_channel_config ∷ Endpoint.get_payment_details
    ∷ Endpoint.list_payments ∷ Endpoint.list_forwarded_payments ∷ Endpoint.connect_peer
    ∷ Endpoint.list_peers ∷ []

-- The handler that an arm passes to `handle_request`.
abbrev pub handler_of : Endpoint → Operation
handler_of Endpoint.get_node_info = Operation.get_node_info
handler_of Endpoint.get_balances = Operation.get_balances
handler_of Endpoint.onchain_receive = Operation.onchain_receive
handler_of Endpoint.onchain_send = Operation.onchain_send
handler_of Endpoint.bolt11_receive = Operation.bolt11_receive
handler_of Endpoint.bolt11_send = Operation.bolt11_send
handler_of Endpoint.bolt12_receive = Operation.bolt12_receive
handler_of Endpoint.bolt12_send = Operation.bolt12_send
handler_of Endpoint.open_channel = Operation.open_channel
handler_of Endpoint.splice_in = Operation.splice_in
handler_of Endpoint.splice_out = Operation.splice_out
handler_of Endpoint.close_channel = Operation.close_channel
handler_of Endpoint.force_close_channel = Operation.force_close_channel
handler_of Endpoint.list_channels = Operation.list_channels
handler_of Endpoint.update_channel_config = Operation.update_channel_config
handler_of Endpoint.get_payment_details = Operation.get_payment_details
handler_of Endpoint.list_payments = Operation.list_payments
handler_of Endpoint.list_forwarded_payments = Operation.list_forwarded_payments
handler_of Endpoint.connect_peer = Operation.connect_peer
handler_of Endpoint.list_peers = Operation.list_peers

unfoldable pub route_path : Text → Option Endpoint
unfolding arms
route_path path = find? (λ e. text_eq (endpoint_path e) path) arms

module _ (h : Http) where
  open h use {Body, collect, to_str, hmac, encode_error}

  -- The block that turns an error into a response.
  unfoldable pub fail : LdkServerError → Response
  unfolding to_error_response
  fail e =
      let (error_response, status_code) = to_error_response e in
      with_body (encode_error error_response)
        (with_status status_code (cors_headers response_builder))

  module _ {S : Type 0} where
    -- The match on `handler(context, request)`; a response has the builder's status, OK.
    unfoldable pub finish : {R : Type 0} → (R → List ℕ) → Result R LdkServerError × S → Response × S
    unfolding fail
    finish encode (ok response, s) =
        (with_body (encode response) (cors_headers response_builder), s)
    finish encode (err e, s) = (fail e, s)

    -- The match on `T::decode(bytes)`.
    unfoldable pub run_route : Route S → List ℕ → S → Response × S
    unfolding finish
    run_route r bytes s = elim (r.decode bytes) [
      | none ↦ (fail (new invalid_request_error (lit "Malformed request.")), s)
      | some request ↦ finish r.encode (r.handler request s)
    ]

    -- `handle_request`, at the time `now`.
    unfoldable pub handle_request : Route S → AuthParams → Text → Option ℕ → Body → S → Response × S
    unfolding run_route
    handle_request r auth_params api_key now body s = elim (collect max_body_size body) [
      | none ↦
          (fail (new invalid_request_error (lit "Request body too large or failed to read.")), s)
      | some bytes ↦
          elim (validate_hmac_auth hmac now auth_params.timestamp auth_params.hmac_hex bytes
            api_key) [ err e ↦ (fail e, s) | ok _ ↦ run_route r bytes s ]
    ]

    -- The match on `&req.uri().path()[1..]`; slicing an empty path panics, which is none here.
    unfoldable pub dispatch :
        (Operation → Route S)
        → Request Body
        → AuthParams
        → Text
        → Option ℕ
        → Text
        → S
        → Option (Response × S)
    unfolding handle_request route_path
    dispatch routes req auth_params api_key now [] s = none
    dispatch routes req auth_params api_key now (_ ∷ path) s = elim (route_path path) [
      | none ↦ some (
        with_body (lit "Unknown request: " ++ path)
            (with_status 400 (cors_headers response_builder)),
        s,
      )
      | some e ↦ some (handle_request (routes (handler_of e)) auth_params api_key now req.body s)
    ]

    -- `NodeService::call`. The state is what the handlers share: the node and the storage.
    unfoldable pub call :
        (Operation → Route S) → Request Body → Text → Option ℕ → S → Option (Response × S)
    unfolding dispatch cors_preflight_response
    call routes req api_key now s = elim req.method [
      | options ↦ some (cors_preflight_response, s)
      | other ↦ elim (extract_auth_params to_str req.x_auth) [
        | err e ↦ some (fail e, s)
        | ok auth_params ↦ dispatch routes req auth_params api_key now req.path s
      ]
    ]
