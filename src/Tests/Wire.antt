-- ===== src/Tests/Wire.antt =====
-- A small HTTP side and a service of one kind of route, for the examples.
use ldk_server.Prelude.{
  ℕ, zero, suc, ◌+◌, ◌%◌, ◌≡◌, refl, Bool, true, Option, none, some, List, [], ◌∷◌, Result, ok, err,
  arith, length, all, leb, le→leb, if◌then◌else◌, drop,
}
use ldk_server.Text.{Text, lit, is_lower_hex}
use ldk_server.Proto.ErrorCode.{ErrorResponse}
use ldk_server.Proto.Operations.{Operation}
use ldk_server.Auth.Laws.{AuthLaws, is_visible}
use ldk_server.Service.Transport.{Http, HttpLaws, Route}
use ldk_server.Client.{LdkServerClient}

abbrev sum : List ℕ → ℕ
sum [] = 0
sum (a ∷ s) = a + sum s

abbrev repeat : ℕ → ℕ → Text
repeat zero c = []
repeat (suc n) c = c ∷ repeat n c

all-repeat : (p : ℕ → Bool) (n c : ℕ) → p c ≡ true → all p (repeat n c) ≡ true
all-repeat p zero c h = refl
all-repeat p (suc n) c h = ground (arith, all-repeat p n c h)

-- 64 times a digit that depends on the key and the message
abbrev pub toy_hmac : Text → List ℕ → Text
toy_hmac key message = repeat 64 (b'a' + (sum key + sum message) % 6)

abbrev pub to_visible : List ℕ → Option Text
to_visible s = if all is_visible s then some s else none

abbrev toy_decode_error : List ℕ → Result ErrorResponse Text
toy_decode_error [] = err (lit "empty")
toy_decode_error (c ∷ m) = ok (record { message = m; error_code = c })

abbrev pub toy_http : Http
toy_http = record {
  Body = List ℕ;
  collect = λ limit b. if leb (length b) limit then some b else none;
  of_bytes = λ b. b;
  to_str = to_visible;
  hmac = toy_hmac;
  show_status = λ n. lit "status";
  encode_error = λ e. e.error_code ∷ e.message;
  decode_error = toy_decode_error;
}

pub toy-AuthLaws : AuthLaws toy_hmac to_visible
toy-AuthLaws = record {
  hmac_length = λ k m. refl;
  hmac_lower_hex = λ k m. all-repeat is_lower_hex 64 (b'a' + (sum k + sum m) % 6) (ground arith);
  to_str_visible = λ s h. rw h;
}

pub toy_laws : HttpLaws toy_http
toy_laws = record {
  auth = toy-AuthLaws;
  collect_of_bytes = λ limit b h. rw (le→leb (length b) limit h);
  decode_encode_error = λ e. refl;
}

abbrev pub one_number : List ℕ → Option ℕ
one_number (n ∷ []) = some n
one_number _ = none

-- Every route adds the request's number to the state.
abbrev pub adding : Operation → Route ℕ
adding e = record {
  Req = ℕ;
  Resp = ℕ;
  decode = one_number;
  encode = λ n. n ∷ [];
  handler = λ q s. (ok (q + s), q + s);
}

abbrev pub number_or_error : List ℕ → Result ℕ Text
number_or_error (n ∷ []) = ok n
number_or_error _ = err (lit "no number")

abbrev pub local_client : LdkServerClient
local_client = record { base_url = lit "localhost"; api_key = lit "key" }

-- the path of a URL on `localhost`
abbrev pub local_path : Text → Text
local_path url = drop 17 url
