-- ===== src/Cli/Sent.antt =====
-- What the server makes of the requests of the command line client.
use ldk_server.Prelude.{
  ◌≡◌, refl, Bool, true, false, ◌&&◌, Option, none, some, some-injective, Result, ok, err, leb,
  unwrap_or, arith,
}
use mathlib.Core.Path.{subst}
use ldk_server.Api.Error.{LdkServerError, invalid_request_error}
use ldk_server.Api.Node.{RouteParametersConfig}
use ldk_server.Api.PaymentArgs.{ProtoRouteParameters, route_parameters_from_proto}
use ldk_server.Cli.Command.{RouteOptions, Commands, Call, route_parameters, command_call}

-- The limits that LDK gets: those of the options, and the client's defaults.
abbrev limits : RouteOptions → RouteParametersConfig
limits route = record {
  max_total_routing_fee_msat = route.max_total_routing_fee_msat;
  max_total_cltv_expiry_delta = unwrap_or route.max_total_cltv_expiry_delta 1008;
  max_path_count = unwrap_or route.max_path_count 10;
  max_channel_saturation_power_of_half = unwrap_or route.max_channel_saturation_power_of_half 2;
}

-- The two that the server keeps in a byte fit in one.
abbrev pub fits : RouteOptions → Bool
fits route =
    leb (unwrap_or route.max_path_count 10) 255
    && leb (unwrap_or route.max_channel_saturation_power_of_half 2) 255

-- The limits are accepted, or the request is refused as invalid.
abbrev pub Checked : RouteOptions → Result (Option RouteParametersConfig) LdkServerError → Type 0
Checked route (ok p) = (fits route ≡ true) × (p ≡ some (limits route))
Checked route (err e) = (fits route ≡ false) × (e.error_code ≡ invalid_request_error)

route_parameters-Checked :
    (route : RouteOptions)
    → Checked route (route_parameters_from_proto (some (route_parameters route)))
unfolding route_parameters_from_proto
route_parameters-Checked route = ground arith

-- The limits of a payment command, and the route parameters of a payment request.
abbrev pub route_of : Commands → Option RouteOptions
route_of (Commands.bolt11_send invoice amount_msat route) = some route
route_of (Commands.bolt12_send offer amount_msat quantity payer_note route) = some route
route_of _ = none

abbrev pub sent_route : Call → Option (Option ProtoRouteParameters)
sent_route (Call.bolt11_send request) = some request.route_parameters
sent_route (Call.bolt12_send request) = some request.route_parameters
sent_route _ = none

-- The limits of a payment command reach the server as its options with the client's defaults for
-- those that are missing, and the server takes them over unchanged exactly if the path count and the
-- saturation power are at most 255, and refuses the request as invalid otherwise.
pub command_call-Checked :
    (command : Commands) (route : RouteOptions)
    → route_of command ≡ some route
    → (call : Call) × (parameters : Option ProtoRouteParameters) × (command_call command ≡ ok call)
      × (sent_route call ≡ some parameters)
      × Checked route (route_parameters_from_proto parameters)
unfolding command_call
command_call-Checked (Commands.bolt11_send invoice amount_msat r) route h = (
  _,
  _,
  refl,
  refl,
  subst (λ q. Checked q (route_parameters_from_proto (some (route_parameters r))))
      (some-injective h) (route_parameters-Checked r),
)
command_call-Checked (Commands.bolt12_send offer amount_msat quantity payer_note r) route h = (
  _,
  _,
  refl,
  refl,
  subst (λ q. Checked q (route_parameters_from_proto (some (route_parameters r))))
      (some-injective h) (route_parameters-Checked r),
)
command_call-Checked command route h = cc h
