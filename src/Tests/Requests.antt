-- ===== src/Tests/Requests.antt =====
-- Requests to the small service.
use ldk_server.Prelude.{
  ℕ, ◌≡◌, refl, ◌∙◌, ◌⊎◌, ◌↔◌, arith, none, some, List, [], ◌∷◌, ◌++◌, ok, err, opt_bind,
}
use ldk_server.Text.{Text, lit, text_eq}
use ldk_server.Text.Decimal.{show_nat, parse_unsigned}
use ldk_server.Proto.Endpoints
use ldk_server.Proto.Endpoints.{Endpoint, endpoint_path}
use ldk_server.Proto.Operations.{Operation}
use ldk_server.Api.Error
use ldk_server.Api.Error.{new, auth_error, to_error_response}
use ldk_server.Auth.{
  AuthParams, extract_auth_params, validate_hmac_auth, compute_auth_header, to_be_bytes,
}
use ldk_server.Auth.Laws.{IsAuthentic, extract-compute, accepted-IsAuthentic, IsAuthentic-accepted}
use ldk_server.Service.Transport.{Request, Response, other}
use ldk_server.Service.{call, run_route, finish, fail, route_path}
use ldk_server.Service.Laws.{
  IsAuthorized, localhost_only, Refused, call_guarded, call-headers, route_path_iff,
}
use ldk_server.Client.{call_method, read_response, request_url}
use ldk_server.Client.Laws.{
  service, same_error, read_response-fail, call-posted, call_method-service,
}
use ldk_server.Tests.Wire.{
  toy_hmac, to_visible, toy_http, toy-AuthLaws, toy_laws, adding, number_or_error, local_client,
  local_path,
}

local_request_url :
    local_path (request_url local_client Endpoints.get_node_info)
    ≡ b'/' ∷ endpoint_path Endpoints.get_node_info
unfolding request_url lit
local_request_url = refl

call_method-service_example :
    call_method toy_hmac
      (λ n. n ∷ [])
      number_or_error
      toy_http.decode_error
      (service toy_http toy_laws adding local_path (lit "key") 100)
      local_client
      70
      Operation.get_node_info
      4
      3
    ≡ (ok 7, 7)
call_method-service_example =
    call_method-service toy_http toy_laws adding local_path local_client Operation.get_node_info 70
      100 4 3 (λ n. n ∷ []) number_or_error local_request_url (omega arith) (omega arith)
      (omega arith) (omega arith) refl (λ r. refl)

read_response-fail_example :
    read_response number_or_error toy_http.decode_error (record {
      status = (fail toy_http (new Error.lightning_error (lit "no"))).status;
      shown_status =
          toy_http.show_status (fail toy_http (new Error.lightning_error (lit "no"))).status;
      bytes = ok (fail toy_http (new Error.lightning_error (lit "no"))).body;
    })
    ≡ err (same_error (new Error.lightning_error (lit "no")))
read_response-fail_example =
    read_response-fail number_or_error toy_http toy_laws Error.lightning_error (lit "no")

-- A request with the client's header, and one without a header.
abbrev signed : Request (List ℕ)
signed = record {
  method = other;
  path = local_path (request_url local_client Endpoints.get_node_info);
  x_auth = some (compute_auth_header toy_hmac (lit "key") 70 (4 ∷ []));
  body = 4 ∷ [];
}

abbrev unsigned : Request (List ℕ)
unsigned = record { method = other; path = b'/' ∷ lit "GetNodeInfo"; x_auth = none; body = 4 ∷ [] }

abbrev answer_seven : Response
answer_seven = record { status = 200; headers = localhost_only; body = 7 ∷ [] }

call-signed : call toy_http adding signed (lit "key") (some 100) 3 ≡ some (answer_seven, 7)
call-signed =
    call-posted toy_http toy_laws adding local_path (lit "key")
      (request_url local_client Endpoints.get_node_info) Operation.get_node_info 70 100 (4 ∷ []) 3
      local_request_url (omega arith) (omega arith) (omega arith) (omega arith)
    ∙ (unfold run_route finish in refl)

call-unsigned :
    call toy_http adding unsigned (lit "key") (some 100) 3
    ≡ some (fail toy_http (new auth_error (lit "Missing X-Auth header")), 3)
unfolding call extract_auth_params
call-unsigned = refl

call_guarded_example :
    IsAuthorized toy_http (lit "key") (some 100) signed
    ⊎ Refused toy_http adding (lit "key") (some 100) 3 (answer_seven, 7)
call_guarded_example =
    call_guarded toy_http adding (lit "key") (some 100) signed 3 (answer_seven, 7) refl call-signed

call-headers_example :
    (fail toy_http (new auth_error (lit "Missing X-Auth header"))).headers ≡ localhost_only
call-headers_example =
    call-headers toy_http adding unsigned (lit "key") (some 100) 3
      (fail toy_http (new auth_error (lit "Missing X-Auth header")), 3) call-unsigned

route_path_iff_example :
    (route_path (lit "ListPeers") ≡ some Endpoints.list_peers)
    ↔ (lit "ListPeers" ≡ endpoint_path Endpoints.list_peers)
route_path_iff_example = route_path_iff (lit "ListPeers") Endpoints.list_peers

abbrev header : Text
header = compute_auth_header toy_hmac (lit "key") 70 (4 ∷ [])

abbrev digest : Text
digest = toy_hmac (lit "key") (to_be_bytes 70 ++ (4 ∷ []))

abbrev params : AuthParams
params = record { timestamp = 70; hmac_hex = digest }

extract-compute_example : extract_auth_params to_visible (some header) ≡ ok params
extract-compute_example = extract-compute toy-AuthLaws (lit "key") 70 (4 ∷ []) (omega arith)

extracted : extract_auth_params to_visible (some header) ≡ ok params
extracted = extract-compute toy-AuthLaws (lit "key") 70 (4 ∷ []) (omega arith)

validated : validate_hmac_auth toy_hmac (some 100) 70 digest (4 ∷ []) (lit "key") ≡ ok tt
unfolding validate_hmac_auth text_eq lit to_be_bytes
validated = refl

accepted-IsAuthentic_example :
    (n : ℕ) × (text : Text) × (some 100 ≡ some n)
    × (opt_bind (some header) to_visible ≡ some text)
    × IsAuthentic toy_hmac (lit "key") n (4 ∷ []) text
accepted-IsAuthentic_example =
    accepted-IsAuthentic to_visible (some header) params (some 100) (4 ∷ []) (lit "key") extracted
      validated

authentic : IsAuthentic toy_hmac (lit "key") 100 (4 ∷ []) header
unfolding compute_auth_header
authentic = record {
  timestamp_str = show_nat 70;
  timestamp = 70;
  parsed = unfold show_nat parse_unsigned in refl;
  written = refl;
  early = omega arith;
  late = omega arith;
}

visible : opt_bind (some header) to_visible ≡ some header
unfolding compute_auth_header show_nat lit to_be_bytes
visible = refl

IsAuthentic-accepted_example :
    (p : AuthParams) × (extract_auth_params to_visible (some header) ≡ ok p)
    × (validate_hmac_auth toy_hmac (some 100) p.timestamp p.hmac_hex (4 ∷ []) (lit "key") ≡ ok tt)
IsAuthentic-accepted_example =
    IsAuthentic-accepted toy-AuthLaws (some header) header 100 (4 ∷ []) (lit "key") visible
      authentic
