-- ===== src/Api/PaymentArgs.antt =====
-- What the payment handlers read from a request: its parts of api.rs and types.rs, the route
-- parameters of bolt11_send.rs and bolt12_send.rs, and `proto_to_bolt11_description` of
-- ldk-server/src/util/proto_adapter.rs.
use ldk_server.Prelude.{
  ℕ, Bool, Option, none, some, [], ◌++◌, Result, ok, err, ◌>>=◌, ok_or, map_err, opt_bind, leb,
  if◌then◌else◌,
}
use ldk_server.Text.{Text, lit}
use ldk_server.Api.Error.{LdkServerError, new, invalid_request_error}
use ldk_server.Api.Node.{Ldk, RouteParametersConfig, Bolt11InvoiceDescription}

-- The requests of api.rs.
pub record OnchainSendRequest : Type 0 where
  pub address : Text
  pub amount_sats : Option ℕ
  pub send_all : Option Bool
  pub fee_rate_sat_per_vb : Option ℕ

pub record ProtoRouteParameters : Type 0 where
  pub max_total_routing_fee_msat : Option ℕ
  pub max_total_cltv_expiry_delta : ℕ
  pub max_path_count : ℕ
  pub max_channel_saturation_power_of_half : ℕ

-- `bolt11_invoice_description::Kind`
pub data DescriptionKind : Type 0 where
  direct hash : Text → DescriptionKind

pub record Bolt11ReceiveRequest : Type 0 where
  pub amount_msat : Option ℕ
  -- the description, and its kind
  pub description : Option (Option DescriptionKind)
  pub expiry_secs : ℕ

pub record Bolt11SendRequest : Type 0 where
  pub invoice : Text
  pub amount_msat : Option ℕ
  pub route_parameters : Option ProtoRouteParameters

pub record Bolt12ReceiveRequest : Type 0 where
  pub description : Text
  pub amount_msat : Option ℕ
  pub expiry_secs : Option ℕ
  pub quantity : Option ℕ

pub record Bolt12SendRequest : Type 0 where
  pub offer : Text
  pub amount_msat : Option ℕ
  pub quantity : Option ℕ
  pub payer_note : Option Text
  pub route_parameters : Option ProtoRouteParameters

-- `u8::try_from`, with the error of a field of the route parameters
abbrev pub as_u8 : Text → ℕ → Result ℕ LdkServerError
as_u8 name n =
    if leb n 255
    then ok n
    else err
        (new invalid_request_error (lit "Invalid " ++ (name ++ lit ", must be between 0 and 255")))

-- The match on `request.route_parameters`.
unfoldable pub route_parameters_from_proto :
    Option ProtoRouteParameters → Result (Option RouteParametersConfig) LdkServerError
route_parameters_from_proto none = ok none
route_parameters_from_proto (some params) = do
  max_path_count ← as_u8 (lit "max_path_count") params.max_path_count
  max_channel_saturation_power_of_half ←
      as_u8 (lit "max_channel_saturation_power_of_half") params.max_channel_saturation_power_of_half
  ok (
      some (record {
        max_total_routing_fee_msat = params.max_total_routing_fee_msat;
        max_total_cltv_expiry_delta = params.max_total_cltv_expiry_delta;
        max_path_count = max_path_count;
        max_channel_saturation_power_of_half = max_channel_saturation_power_of_half;
      }))

module _ (ldk : Ldk) where
  open ldk use {Description}

  -- `proto_to_bolt11_description`
  unfoldable pub proto_to_bolt11_description :
      Option (Option DescriptionKind) → Result (Bolt11InvoiceDescription Description) LdkServerError
  proto_to_bolt11_description description = elim (opt_bind description (λ kind. kind)) [
    | some (DescriptionKind.direct s) ↦ described s
    | some (DescriptionKind.hash h) ↦
        ok_or (ldk.hash_from_hex h) (
          new invalid_request_error
            (lit "Invalid invoice description_hash, must be 32-byte hex string"))
        >>= λ bytes. ok (Bolt11InvoiceDescription.hash bytes)
    | none ↦ described []
  ]
    where
      described : Text → Result (Bolt11InvoiceDescription Description) LdkServerError
      described s =
          map_err (λ e. new invalid_request_error (lit "Invalid invoice description: " ++ e))
            (ldk.description_new s)
          >>= λ d. ok (Bolt11InvoiceDescription.direct d)
