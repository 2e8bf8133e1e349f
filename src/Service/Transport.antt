-- ===== src/Service/Transport.antt =====
-- What the service and the client take from hyper, http-body-util, bitcoin_hashes and prost, which
-- are not part of the repository: a record of functions, and one of their documented behaviour.
use ldk_server.Prelude.{ℕ, ◌≤◌, ◌≡◌, Option, some, List, [], ◌∷◌, ◌++◌, Result, ok, length}
use ldk_server.Text.{Text}
use ldk_server.Proto.ErrorCode.{ErrorResponse}
use ldk_server.Api.Error.{LdkServerError}
use ldk_server.Auth.Laws.{AuthLaws}

-- The method, as far as the service looks at it.
pub data Method : Type 0 where
  options other : Method

pub record Request (Body : Type 0) : Type 0 where
  pub method : Method
  pub path : Text
  -- the value of the header `X-Auth`
  pub x_auth : Option (List ℕ)
  pub body : Body

pub record Response : Type 0 where
  pub status : ℕ
  pub headers : List (Text × Text)
  pub body : List ℕ

-- `Response::builder()`, which has the status OK, and its methods
pub record Builder : Type 0 where
  pub status : ℕ
  pub headers : List (Text × Text)

abbrev pub response_builder : Builder
response_builder = record { status = 200; headers = [] }

abbrev pub with_header : Text → Text → Builder → Builder
with_header name value builder = record builder { headers = builder.headers ++ (name, value) ∷ [] }

abbrev pub with_status : ℕ → Builder → Builder
with_status status builder = record builder { status = status }

abbrev pub with_body : List ℕ → Builder → Response
with_body body builder = record { status = builder.status; headers = builder.headers; body = body }

pub record Http : Type 1 where
  -- the body of a request on its way, and `Limited::new(body, limit).collect()`
  pub Body : Type 0
  pub collect : ℕ → Body → Option (List ℕ)
  -- a body that arrives as these bytes
  pub of_bytes : List ℕ → Body
  -- `HeaderValue::to_str`
  pub to_str : List ℕ → Option Text
  -- the HMAC-SHA256 of a message under a key, as `to_string` prints it
  pub hmac : Text → List ℕ → Text
  -- `Display` of `StatusCode`
  pub show_status : ℕ → Text
  -- `encode_to_vec` and `decode` of `ErrorResponse`
  pub encode_error : ErrorResponse → List ℕ
  pub decode_error : List ℕ → Result ErrorResponse Text

pub record HttpLaws (h : Http) : Type 0 where
  pub auth : AuthLaws h.hmac h.to_str
  pub collect_of_bytes :
      (limit : ℕ) (b : List ℕ) → length b ≤ limit → h.collect limit (h.of_bytes b) ≡ some b
  pub decode_encode_error : (e : ErrorResponse) → h.decode_error (h.encode_error e) ≡ ok e

-- A handler with the types of its request and response and prost's functions for them.
pub record Route (S : Type 0) : Type 1 where
  pub Req : Type 0
  pub Resp : Type 0
  pub decode : List ℕ → Option Req
  pub encode : Resp → List ℕ
  pub handler : Req → S → Result Resp LdkServerError × S
