-- ===== src/Service/Laws.antt =====
-- Routing, the guard that authentication is, and the responses.
use mathlib.Core.Path.{subst}
use ldk_server.Prelude.{
  ℕ, ◌≡◌, refl, sym, ap, ◌∙◌, ◌↔◌, ◌⊎◌, inl, inr, Bool, true, Option, some, List, [], ◌∷◌, Result,
  ok, err, find?, arith, Option-cases, Result-cases, opt_bind, some-injective,
}
use ldk_server.Text.{Text, lit, text_eq}
use ldk_server.Text.Equality.{text_eq_iff}
use ldk_server.Proto.Endpoints.{Endpoint, endpoint_path, get_node_info}
use ldk_server.Proto.Operations.{Operation}
use ldk_server.Auth.{AuthParams, extract_auth_params, validate_hmac_auth}
use ldk_server.Auth.Laws.{IsAuthentic, accepted-IsAuthentic, extract-eq_err, validate-eq_err}
use ldk_server.Api.Error.{LdkServerError, auth_error, status_code}
use ldk_server.Service.Transport.{Http, Route, Request, Response, Method, options, other}
use ldk_server.Service.{
  call, dispatch, handle_request, run_route, finish, fail, route_path, arms, handler_of,
  max_body_size,
}

route_path-endpoint_path : (e : Endpoint) → route_path (endpoint_path e) ≡ some e
unfolding route_path endpoint_path text_eq lit
route_path-endpoint_path get_node_info = refl
route_path-endpoint_path _ = refl

find?-sound : {A : Type 0} (p : A → Bool) (l : List A) (a : A) → find? p l ≡ some a → p a ≡ true
find?-sound p [] a h = cc
find?-sound p (x ∷ l) a h = ground (arith, find?-sound p l a)

-- A path is routed to an endpoint exactly if it is that endpoint's path constant.
pub route_path_iff :
    (path : Text) (e : Endpoint) → (route_path path ≡ some e) ↔ (path ≡ endpoint_path e)
unfolding route_path
route_path_iff path e = (
  λ h. sym (
      (text_eq_iff (endpoint_path e) path).0
        (find?-sound (λ e'. text_eq (endpoint_path e') path) arms e h)),
  λ p. ap route_path p ∙ route_path-endpoint_path e,
)

-- The request carries, for the body that is read, an authentic header.
pub record IsAuthorized (h : Http) (key : Text) (now : Option ℕ) (req : Request h.Body)
    : Type 0 where
  pub seconds : ℕ
  pub clock : now ≡ some seconds
  pub header : Text
  pub readable : opt_bind req.x_auth h.to_str ≡ some header
  pub bytes : List ℕ
  pub collected : h.collect max_body_size req.body ≡ some bytes
  pub authentic : IsAuthentic h.hmac key seconds bytes header

-- An authentication error is answered by UNAUTHORIZED.
status-fail : (h : Http) (e : LdkServerError) → e.error_code ≡ auth_error → (fail h e).status ≡ 401
unfolding fail
status-fail h e a = ap status_code a

module _ (h : Http) {S : Type 0} (routes : Operation → Route S) (key : Text) (now : Option ℕ) where
  -- Answered by BAD_REQUEST or UNAUTHORIZED, with the state as it was.
  abbrev pub Refused : S → Response × S → Type 0
  Refused s (r, s') = (s' ≡ s) × ((r.status ≡ 400) ⊎ (r.status ≡ 401))

  Refused-or_valid :
      (r : Route S) (p : AuthParams) (body : h.Body) (s : S)
      → Refused s (handle_request h r p key now body s)
        ⊎ ((bytes : List ℕ) × (h.collect max_body_size body ≡ some bytes)
            × (validate_hmac_auth h.hmac now p.timestamp p.hmac_hex bytes key ≡ ok tt))
  unfolding handle_request
  Refused-or_valid r p body s = elim (Option-cases (h.collect max_body_size body)) [
    | inl e ↦ inl (rw (e, handle_request) (refl, inl refl))
    | inr (bytes, e) ↦
        elim (Result-cases (validate_hmac_auth h.hmac now p.timestamp p.hmac_hex bytes key)) [
          | inl (u, v) ↦ inr (bytes, e, v)
          | inr (x, v) ↦
              let refusal = status-fail h x (validate-eq_err _ now _ _ bytes key x v) in
              inl (rw (e, handle_request) (rw (v, handle_request) (refl, inr refusal)))
        ]
  ]

  dispatch_guarded :
      (req : Request h.Body) (p : AuthParams) (path : Text) (s : S) (out : Response × S)
      → extract_auth_params h.to_str req.x_auth ≡ ok p
      → dispatch h routes req p key now path s ≡ some out
      → IsAuthorized h key now req ⊎ Refused s out
  unfolding dispatch
  dispatch_guarded req p [] s out x e = cc
  dispatch_guarded req p (_ ∷ path) s out x e = elim (Option-cases (route_path path)) [
    | inl unknown ↦
        inr (subst (Refused s) (some-injective (rw (unknown, dispatch) at e)) (refl, inl refl))
    | inr (endpoint, known) ↦
        let same : some (handle_request h (routes (handler_of endpoint)) p key now req.body s)
            ≡ some out =
          rw (known, dispatch) at e in
        elim (Refused-or_valid (routes (handler_of endpoint)) p req.body s) [
          | inl refused ↦ inr (subst (Refused s) (some-injective same) refused)
          | inr (bytes, collected, v) ↦
              let (n, text, clock, readable, authentic) =
                accepted-IsAuthentic h.to_str req.x_auth p now bytes key x v in
              inl (record {
                seconds = n;
                clock = clock;
                header = text;
                readable = readable;
                bytes = bytes;
                collected = collected;
                authentic = authentic;
              })
        ]
  ]

  -- Of the requests that are not a preflight and that are answered, each carries an authentic header
  -- for the body that is read, or is answered by 400 or 401 with the state as it was.
  pub call_guarded :
      (req : Request h.Body) (s : S) (out : Response × S)
      → req.method ≡ other
      → call h routes req key now s ≡ some out
      → IsAuthorized h key now req ⊎ Refused s out
  unfolding call
  call_guarded req s out m e =
      let posted = rw (m, call) at e in
      elim (Result-cases (extract_auth_params h.to_str req.x_auth)) [
        | inl (p, x) ↦ dispatch_guarded req p req.path s out x (rw (x, call) at posted)
        | inr (x, bad) ↦
            let refusal = status-fail h x (extract-eq_err h.to_str req.x_auth x bad) in
            inr (subst (Refused s) (some-injective (rw (bad, call) at posted)) (refl, inr refusal))
      ]

-- The headers that let pages of localhost, and no others, use the service.
abbrev pub localhost_only : List (Text × Text)
localhost_only =
    (lit "Access-Control-Allow-Origin", lit "http://localhost:8080")
    ∷ (lit "Access-Control-Allow-Methods", lit "GET, POST, OPTIONS")
    ∷ (lit "Access-Control-Allow-Headers", lit "Content-Type, X-Auth")
    ∷ []

finish-headers :
    (h : Http) {S R : Type 0} (encode : R → List ℕ) (x : Result R LdkServerError × S)
    → (finish h encode x).0.headers ≡ localhost_only
unfolding finish
finish-headers h encode (ok r, s) = refl
finish-headers h encode (err e, s) = refl

module _ (h : Http) {S : Type 0} where
  run_route-headers :
      (r : Route S) (bytes : List ℕ) (s : S) → (run_route h r bytes s).0.headers ≡ localhost_only
  unfolding run_route
  run_route-headers r bytes s = elim (Option-cases (r.decode bytes)) [
    | inl e ↦ rw (e, run_route)
    | inr (q, e) ↦ rw (e, run_route) (finish-headers h r.encode (r.handler q s))
  ]

  handle_request-headers :
      (r : Route S) (p : AuthParams) (key : Text) (now : Option ℕ) (body : h.Body) (s : S)
      → (handle_request h r p key now body s).0.headers ≡ localhost_only
  unfolding handle_request
  handle_request-headers r p key now body s = elim (Option-cases (h.collect max_body_size body)) [
    | inl e ↦ rw (e, handle_request)
    | inr (bytes, e) ↦
        elim (Result-cases (validate_hmac_auth h.hmac now p.timestamp p.hmac_hex bytes key)) [
          | inl (u, v) ↦
              rw (e, handle_request) (rw (v, handle_request) (run_route-headers r bytes s))
          | inr (x, v) ↦ rw (e, handle_request) (rw (v, handle_request))
        ]
  ]

  dispatch-headers :
      (routes : Operation → Route S) (req : Request h.Body) (p : AuthParams) (key : Text)
      (now : Option ℕ) (path : Text) (s : S) (out : Response × S)
      → dispatch h routes req p key now path s ≡ some out
      → out.0.headers ≡ localhost_only
  unfolding dispatch
  dispatch-headers routes req p key now [] s out e = cc
  dispatch-headers routes req p key now (_ ∷ path) s out e = elim (Option-cases (route_path path)) [
    | inl unknown ↦
        ap (λ (o : Response × S). o.0.headers) (sym (some-injective (rw (unknown, dispatch) at e)))
    | inr (endpoint, known) ↦
        let same : some (handle_request h (routes (handler_of endpoint)) p key now req.body s)
            ≡ some out =
          rw (known, dispatch) at e in
        ap (λ (o : Response × S). o.0.headers) (sym (some-injective same))
        ∙ handle_request-headers (routes (handler_of endpoint)) p key now req.body s
  ]

  -- Every response of the service, preflight and errors included, has exactly the three CORS headers
  -- that let pages of http://localhost:8080 use it, in this order: the allowed origin, the methods
  -- and the headers.
  pub call-headers :
      (routes : Operation → Route S) (req : Request h.Body) (key : Text) (now : Option ℕ) (s : S)
      (out : Response × S)
      → call h routes req key now s ≡ some out
      → out.0.headers ≡ localhost_only
  unfolding call
  call-headers routes req key now s out e = by_method req.method refl
    where
      by_method : (m : Method) → req.method ≡ m → out.0.headers ≡ localhost_only
      by_method options m =
          ap (λ (o : Response × S). o.0.headers) (sym (some-injective (rw (m, call) at e)))
      by_method other m =
          let posted = rw (m, call) at e in
          elim (Result-cases (extract_auth_params h.to_str req.x_auth)) [
            | inl (p, x) ↦
                dispatch-headers routes req p key now req.path s out (rw (x, call) at posted)
            | inr (x, bad) ↦
                ap (λ (o : Response × S). o.0.headers)
                  (sym (some-injective (rw (bad, call) at posted)))
          ]
