-- ===== src/Client/Laws.antt =====
-- The client and the service together.
use ldk_server.Prelude.{
  ℕ, ◌+◌, ◌^◌, ◌≤◌, ◌<◌, ◌≡◌, refl, ap, ◌∙◌, Option, none, some, List, ◌∷◌, Result, ok, err,
  map_err, length,
}
use ldk_server.Text.{Text, lit}
use ldk_server.Proto.Endpoints.{endpoint_path}
use ldk_server.Proto.Operations.{Operation}
use ldk_server.Api.Error
use ldk_server.Api.Error.{to_error_response, wire_code, status_code}
use ldk_server.Auth.{compute_auth_header}
use ldk_server.Auth.Laws.{extract-compute, validate-ok}
use ldk_server.Service.Transport.{Http, HttpLaws, Route, Request, Response, other}
use ldk_server.Service.{
  call, dispatch, handle_request, run_route, finish, fail, max_body_size, handler_of,
}
use ldk_server.Service.Laws.{route_path_iff}
use ldk_server.Client.{
  LdkServerErrorCode, LdkServerError, LdkServerClient, RawResponse, Network, request_url,
  read_response, post_request, call_method, posts_to,
}

-- The code that the client's user sees for each of the server's.
abbrev pub same_code : Error.LdkServerErrorCode → LdkServerErrorCode
same_code Error.invalid_request_error = LdkServerErrorCode.invalid_request_error
same_code Error.auth_error = LdkServerErrorCode.auth_error
same_code Error.lightning_error = LdkServerErrorCode.lightning_error
same_code Error.internal_server_error = LdkServerErrorCode.internal_server_error

abbrev pub same_error : Error.LdkServerError → LdkServerError
same_error e = record { error_code = same_code e.error_code; message = e.message }

module _ {R : Type 0} (decode : List ℕ → Result R Text) (h : Http) (laws : HttpLaws h) where
  -- Each error of the server comes back from the wire with its code and its message, if the decoder
  -- of ErrorResponse undoes its encoder.
  pub read_response-fail :
      (c : Error.LdkServerErrorCode) (m : Text)
      → read_response decode h.decode_error (record {
        status = (fail h (Error.new c m)).status;
        shown_status = h.show_status (fail h (Error.new c m)).status;
        bytes = ok (fail h (Error.new c m)).body;
      })
        ≡ err (same_error (Error.new c m))
  unfolding read_response to_error_response fail
  read_response-fail Error.invalid_request_error m = rw laws.decode_encode_error
  read_response-fail Error.auth_error m = rw laws.decode_encode_error
  read_response-fail Error.lightning_error m = rw laws.decode_encode_error
  read_response-fail Error.internal_server_error m = rw laws.decode_encode_error

  read_response-finish :
      {S : Type 0} (encode : R → List ℕ) (x : Result R Error.LdkServerError × S)
      → ((r : R) → decode (encode r) ≡ ok r)
      → read_response decode h.decode_error (record {
        status = (finish h encode x).0.status;
        shown_status = h.show_status (finish h encode x).0.status;
        bytes = ok (finish h encode x).0.body;
      })
        ≡ map_err same_error x.0
  unfolding read_response finish
  read_response-finish encode (ok r, s) inverse = rw (inverse r)
  read_response-finish encode (err e, s) inverse =
      unfold fail to_error_response in read_response-fail e.error_code e.message

module _ (h : Http) {S : Type 0} where
  run_route-decoded :
      (r : Route S) (bytes : List ℕ) (q : r.Req) (s : S)
      → r.decode bytes ≡ some q
      → run_route h r bytes s ≡ finish h r.encode (r.handler q s)
  unfolding run_route
  run_route-decoded r bytes q s e = rw (e, run_route)

  finish-state :
      {R : Type 0} (encode : R → List ℕ) (x : Result R Error.LdkServerError × S)
      → (finish h encode x).1 ≡ x.1
  unfolding finish
  finish-state encode (ok r, s) = refl
  finish-state encode (err e, s) = refl

-- The server's handler of a client's method is the one of the same name.
handler_of-posts_to : (op : Operation) → handler_of (posts_to op) ≡ op
handler_of-posts_to Operation.get_node_info = refl
handler_of-posts_to _ = refl

-- The network that carries each `POST` to the service: the URL's path, the header and the bytes
-- arrive as they were sent, and so does the answer. A handler that panics closes the connection.
abbrev carry : {S : Type 0} → (ℕ → Text) → Option (Response × S) → S → Result RawResponse Text × S
carry show none s = (err (lit "connection closed"), s)
carry show (some (r, s')) s =
    (ok (record { status = r.status; shown_status = show r.status; bytes = ok r.body }), s')

module _ (h : Http) (laws : HttpLaws h) {S : Type 0} (routes : Operation → Route S)
    (path_of : Text → Text) where
  abbrev pub posted : Text → Text → List ℕ → Request h.Body
  posted url header body = record {
    method = other;
    path = path_of url;
    x_auth = some header;
    body = h.of_bytes body;
  }

  abbrev pub service : Text → ℕ → Network S
  service key now url header body s =
      carry h.show_status (call h routes (posted url header body) key (some now) s) s

  module _ (key url : Text) (op : Operation) (t now : ℕ) (b : List ℕ) (s : S)
      (routed : path_of url ≡ b'/' ∷ endpoint_path (posts_to op)) (in_u64 : t < 2 ^ 64)
      (early : now ≤ t + 60) (late : t ≤ now + 60) (small : length b ≤ max_body_size) where
    -- The service runs the operation's route on the bytes that the client posted.
    pub call-posted :
        call h routes (posted url (compute_auth_header h.hmac key t b) b) key (some now) s
        ≡ some (run_route h (routes op) b s)
    unfolding call
    call-posted =
        (rw (extract-compute laws.auth key t b in_u64, call)
          (rw routed (
            rw ((route_path_iff (endpoint_path (posts_to op)) (posts_to op)).1 refl, dispatch)
              (rw (laws.collect_of_bytes max_body_size b small, handle_request)
                (rw (validate-ok h.hmac now t b key early late, handle_request))))))
        ∙ ap (λ o. some (run_route h (routes o) b s)) (handler_of-posts_to op)

  -- A client method called with the server's key, at a clock of less than 2^64 seconds within a
  -- minute of the server's, and with a body of at most 10 MB, gives the result of the handler of the
  -- same name, or its error with the same code and message, and its effect on the state, if hyper
  -- and the printed HMAC behave as documented (HttpLaws), the URL's path is that of the method's
  -- constant, the network delivers what is sent, and the message codecs are inverse to each other.
  pub call_method-service :
      (client : LdkServerClient) (op : Operation) (t now : ℕ) (q : (routes op).Req) (s : S)
      (encode : (routes op).Req → List ℕ) (decode : List ℕ → Result (routes op).Resp Text)
      → path_of (request_url client (posts_to op)) ≡ b'/' ∷ endpoint_path (posts_to op)
      → t < 2 ^ 64
      → now ≤ t + 60
      → t ≤ now + 60
      → length (encode q) ≤ max_body_size
      → (routes op).decode (encode q) ≡ some q
      → ((r : (routes op).Resp) → decode ((routes op).encode r) ≡ ok r)
      → call_method h.hmac encode decode h.decode_error (service client.api_key now) client t op q s
        ≡ (map_err same_error ((routes op).handler q s).0, ((routes op).handler q s).1)
  unfolding call_method post_request
  call_method-service client op t now q s encode decode routed in_u64 early late small there back =
      let run = run_route-decoded h (routes op) (encode q) q s there in
      let read =
        read_response-finish decode h laws (routes op).encode ((routes op).handler q s) back in
      rw
        (call-posted client.api_key (request_url client (posts_to op)) op t now (encode q) s routed
          in_u64 early late small)
        (rw run (λ i. (read i, finish-state h (routes op).encode ((routes op).handler q s) i)))
