-- ===== src/Auth.antt =====
-- Request authentication: `extract_auth_params` and `validate_hmac_auth` of
-- ldk-server/src/service.rs, and `compute_auth_header` of ldk-server-client/src/client.rs.
pub mod Laws
use ldk_server.Prelude.{
  ℕ, ◌+◌, ◌-◌, ◌/◌, ◌%◌, ◌^◌, Bool, not, ◌||◌, Option, List, [], ◌∷◌, ◌++◌, Result, ok, err, ◌>>=◌,
  ok_or, opt_bind, if◌then◌else◌, ltb, ◌==◌, length, all,
}
use ldk_server.Text.{Text, lit, text_eq, is_hex_digit}
use ldk_server.Text.Decimal.{show_nat, parse_unsigned, u64_max}
use ldk_server.Text.Split.{strip_prefix, split_once}
use ldk_server.Api.Error.{LdkServerError, new, auth_error}

-- `AUTH_TIMESTAMP_TOLERANCE_SECS`
abbrev pub auth_timestamp_tolerance_secs : ℕ
auth_timestamp_tolerance_secs = 60

pub record AuthParams : Type 0 where
  pub timestamp : ℕ
  pub hmac_hex : Text

-- The test on `hmac_hex`: 64 bytes, all of them hexadecimal digits.
abbrev pub bad_hmac_hex : Text → Bool
bad_hmac_hex s = not (length s == 64) || not (all is_hex_digit s)

-- `extract_auth_params`. The header is that of the request, if it has one; `to_str` is
-- `HeaderValue::to_str`.
unfoldable pub extract_auth_params :
    (List ℕ → Option Text) → Option (List ℕ) → Result AuthParams LdkServerError
extract_auth_params to_str header = do
  auth_header ← ok_or (opt_bind header to_str) (new auth_error (lit "Missing X-Auth header"))
  auth_data ←
      ok_or (strip_prefix (lit "HMAC ") auth_header)
        (new auth_error (lit "Invalid X-Auth header format"))
  parts ← ok_or (split_once b':' auth_data) (new auth_error (lit "Invalid X-Auth header format"))
  timestamp ←
      ok_or (parse_unsigned u64_max parts.0)
        (new auth_error (lit "Invalid timestamp in X-Auth header"))
  if bad_hmac_hex parts.1
      then err (new auth_error (lit "Invalid HMAC in X-Auth header"))
      else ok (record { timestamp = timestamp; hmac_hex = parts.1 })

-- `u64::abs_diff`
abbrev pub abs_diff : ℕ → ℕ → ℕ
abs_diff a b = (a - b) + (b - a)

-- `u64::to_be_bytes`
unfoldable pub to_be_bytes : ℕ → List ℕ
to_be_bytes n =
    n / 2 ^ 56 % 256
    ∷ n / 2 ^ 48 % 256
    ∷ n / 2 ^ 40 % 256
    ∷ n / 2 ^ 32 % 256
    ∷ n / 2 ^ 24 % 256
    ∷ n / 2 ^ 16 % 256
    ∷ n / 2 ^ 8 % 256
    ∷ n % 256
    ∷ []

-- `validate_hmac_auth`. `hmac key message` is the HMAC-SHA256 as `to_string` prints it; `now` is
-- the system's time in seconds, and none before 1970.
unfoldable pub validate_hmac_auth :
    (Text → List ℕ → Text) → Option ℕ → ℕ → Text → List ℕ → Text → Result (Unit {0}) LdkServerError
validate_hmac_auth hmac now timestamp provided_hmac_hex body api_key = do
  now ← ok_or now (new auth_error (lit "System time error"))
  if ltb auth_timestamp_tolerance_secs (abs_diff now timestamp)
      then err (new auth_error (lit "Request timestamp expired"))
      else if not (text_eq (hmac api_key (to_be_bytes timestamp ++ body)) provided_hmac_hex)
      then err (new auth_error (lit "Invalid credentials"))
      else ok tt

-- The client's `compute_auth_header`, at the client's time in seconds.
unfoldable pub compute_auth_header : (Text → List ℕ → Text) → Text → ℕ → List ℕ → Text
compute_auth_header hmac api_key timestamp body =
    lit "HMAC " ++ (show_nat timestamp ++ (b':' ∷ hmac api_key (to_be_bytes timestamp ++ body)))
