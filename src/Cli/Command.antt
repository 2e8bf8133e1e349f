-- ===== src/Cli/Command.antt =====
-- The commands of ldk-server-cli/src/main.rs and the requests that they make.
use ldk_server.Prelude.{
  ℕ, Bool, Option, none, some, Result, ok, err, ◌>>=◌, ◌&&◌, not, is_some, opt_map, transpose,
  unwrap_or, if◌then◌else◌,
}
use ldk_server.Text.{Text, lit}
use ldk_server.Client.{LdkServerError, LdkServerErrorCode}
use ldk_server.Api.ChannelConfig.{ProtoChannelConfig}
use ldk_server.Api.Channels.{
  CloseChannelRequest, ForceCloseChannelRequest, SpliceInRequest, SpliceOutRequest,
  OpenChannelRequest, UpdateChannelConfigRequest,
}
use ldk_server.Api.PaymentArgs.{
  OnchainSendRequest, ProtoRouteParameters, DescriptionKind, direct, hash, Bolt11ReceiveRequest,
  Bolt11SendRequest, Bolt12ReceiveRequest, Bolt12SendRequest,
}
use ldk_server.Cli.Paging.{PageToken, parse_page_token}

abbrev pub default_max_total_cltv_expiry_delta : ℕ
default_max_total_cltv_expiry_delta = 1008

abbrev pub default_max_path_count : ℕ
default_max_path_count = 10

abbrev pub default_max_channel_saturation_power_of_half : ℕ
default_max_channel_saturation_power_of_half = 2

abbrev pub default_expiry_secs : ℕ
default_expiry_secs = 86400

-- The limits that both payment commands take.
pub record RouteOptions : Type 0 where
  pub max_total_routing_fee_msat : Option ℕ
  pub max_total_cltv_expiry_delta : Option ℕ
  pub max_path_count : Option ℕ
  pub max_channel_saturation_power_of_half : Option ℕ

-- The options on a channel's fees.
pub record FeeOptions : Type 0 where
  pub forwarding_fee_proportional_millionths : Option ℕ
  pub forwarding_fee_base_msat : Option ℕ
  pub cltv_expiry_delta : Option ℕ

pub data Commands : Type 0 where
  get_node_info get_balances onchain_receive list_channels : Commands
  onchain_send :
      (address : Text) (amount_sats : Option ℕ) (send_all : Option Bool)
      (fee_rate_sat_per_vb : Option ℕ)
      → Commands
  bolt11_receive :
      (description description_hash : Option Text) (expiry_secs amount_msat : Option ℕ) → Commands
  bolt11_send : (invoice : Text) (amount_msat : Option ℕ) (route : RouteOptions) → Commands
  bolt12_receive : (description : Text) (amount_msat expiry_secs quantity : Option ℕ) → Commands
  bolt12_send :
      (offer : Text) (amount_msat quantity : Option ℕ) (payer_note : Option Text)
      (route : RouteOptions)
      → Commands
  close_channel : (user_channel_id counterparty_node_id : Text) → Commands
  force_close_channel :
      (user_channel_id counterparty_node_id : Text) (force_close_reason : Option Text) → Commands
  open_channel :
      (node_pubkey address : Text) (channel_amount_sats : ℕ) (push_to_counterparty_msat : Option ℕ)
      (announce_channel : Bool) (fees : FeeOptions)
      → Commands
  splice_in : (user_channel_id counterparty_node_id : Text) (splice_amount_sats : ℕ) → Commands
  splice_out :
      (user_channel_id counterparty_node_id : Text) (splice_amount_sats : ℕ) (address : Option Text)
      → Commands
  list_payments list_forwarded_payments :
      (number_of_payments : Option ℕ) (page_token : Option Text) → Commands
  get_payment_details : (payment_id : Text) → Commands
  update_channel_config :
      (user_channel_id counterparty_node_id : Text) (fees : FeeOptions) → Commands

-- A method of the client with its request; the lists with what `fetch_paginated` is given.
pub data Call : Type 0 where
  get_node_info get_balances onchain_receive list_channels : Call
  onchain_send : OnchainSendRequest → Call
  bolt11_receive : Bolt11ReceiveRequest → Call
  bolt11_send : Bolt11SendRequest → Call
  bolt12_receive : Bolt12ReceiveRequest → Call
  bolt12_send : Bolt12SendRequest → Call
  close_channel : CloseChannelRequest → Call
  force_close_channel : ForceCloseChannelRequest → Call
  open_channel : OpenChannelRequest → Call
  splice_in : SpliceInRequest → Call
  splice_out : SpliceOutRequest → Call
  list_payments list_forwarded_payments : Option ℕ → Option PageToken → Call
  get_payment_details : (payment_id : Text) → Call
  update_channel_config : UpdateChannelConfigRequest → Call

abbrev pub route_parameters : RouteOptions → ProtoRouteParameters
route_parameters route = record {
  max_total_routing_fee_msat = route.max_total_routing_fee_msat;
  max_total_cltv_expiry_delta =
      unwrap_or route.max_total_cltv_expiry_delta default_max_total_cltv_expiry_delta;
  max_path_count = unwrap_or route.max_path_count default_max_path_count;
  max_channel_saturation_power_of_half =
      unwrap_or route.max_channel_saturation_power_of_half
        default_max_channel_saturation_power_of_half;
}

-- The match on the description and its hash.
unfoldable pub invoice_description :
    Option Text → Option Text → Result (Option (Option DescriptionKind)) LdkServerError
invoice_description (some desc) none = ok (some (some (direct desc)))
invoice_description none (some h) = ok (some (some (hash h)))
invoice_description (some desc) (some h) = err (record {
  error_code = LdkServerErrorCode.internal_error;
  message = lit "Only one of description or description_hash can be set.";
})
invoice_description none none = ok none

abbrev fee_config : FeeOptions → ProtoChannelConfig
fee_config fees = record {
  forwarding_fee_proportional_millionths = fees.forwarding_fee_proportional_millionths;
  forwarding_fee_base_msat = fees.forwarding_fee_base_msat;
  cltv_expiry_delta = fees.cltv_expiry_delta;
  force_close_avoidance_max_fee_satoshis = none;
  accept_underpaying_htlcs = none;
  max_dust_htlc_exposure = none;
}

unfoldable pub build_open_channel_config : FeeOptions → Option ProtoChannelConfig
build_open_channel_config fees =
    if not (is_some fees.forwarding_fee_proportional_millionths)
      && not (is_some fees.forwarding_fee_base_msat)
      && not (is_some fees.cltv_expiry_delta)
    then none
    else some (fee_config fees)

abbrev page_token_of : Option Text → Result (Option PageToken) LdkServerError
page_token_of page_token = transpose (opt_map parse_page_token page_token)

-- The arms of the match on the command, up to the call; an error goes to `handle_error`.
unfoldable pub command_call : Commands → Result Call LdkServerError
command_call Commands.get_node_info = ok Call.get_node_info
command_call Commands.get_balances = ok Call.get_balances
command_call Commands.onchain_receive = ok Call.onchain_receive
command_call Commands.list_channels = ok Call.list_channels
command_call (Commands.onchain_send address amount_sats send_all fee_rate_sat_per_vb) = ok (
    Call.onchain_send (record {
      address = address;
      amount_sats = amount_sats;
      send_all = send_all;
      fee_rate_sat_per_vb = fee_rate_sat_per_vb;
    }))
command_call (Commands.bolt11_receive description description_hash expiry_secs amount_msat) =
    invoice_description description description_hash >>= λ kind. ok (
      Call.bolt11_receive (record {
        description = kind;
        expiry_secs = unwrap_or expiry_secs default_expiry_secs;
        amount_msat = amount_msat;
      }))
command_call (Commands.bolt11_send invoice amount_msat route) = ok (
    Call.bolt11_send (record {
      invoice = invoice;
      amount_msat = amount_msat;
      route_parameters = some (route_parameters route);
    }))
command_call (Commands.bolt12_receive description amount_msat expiry_secs quantity) = ok (
    Call.bolt12_receive (record {
      description = description;
      amount_msat = amount_msat;
      expiry_secs = expiry_secs;
      quantity = quantity;
    }))
command_call (Commands.bolt12_send offer amount_msat quantity payer_note route) = ok (
    Call.bolt12_send (record {
      offer = offer;
      amount_msat = amount_msat;
      quantity = quantity;
      payer_note = payer_note;
      route_parameters = some (route_parameters route);
    }))
command_call (Commands.close_channel user_channel_id counterparty_node_id) = ok (
    Call.close_channel
      (record { user_channel_id = user_channel_id; counterparty_node_id = counterparty_node_id }))
command_call
      (Commands.force_close_channel user_channel_id counterparty_node_id force_close_reason) =
    ok (
      Call.force_close_channel (record {
        user_channel_id = user_channel_id;
        counterparty_node_id = counterparty_node_id;
        force_close_reason = force_close_reason;
      }))
command_call
      (Commands.open_channel node_pubkey address channel_amount_sats push_to_counterparty_msat
        announce_channel fees) =
    ok (
      Call.open_channel (record {
        node_pubkey = node_pubkey;
        address = address;
        channel_amount_sats = channel_amount_sats;
        push_to_counterparty_msat = push_to_counterparty_msat;
        channel_config = build_open_channel_config fees;
        announce_channel = announce_channel;
      }))
command_call (Commands.splice_in user_channel_id counterparty_node_id splice_amount_sats) = ok (
    Call.splice_in (record {
      user_channel_id = user_channel_id;
      counterparty_node_id = counterparty_node_id;
      splice_amount_sats = splice_amount_sats;
    }))
command_call (Commands.splice_out user_channel_id counterparty_node_id splice_amount_sats address) =
    ok (
      Call.splice_out (record {
        user_channel_id = user_channel_id;
        counterparty_node_id = counterparty_node_id;
        address = address;
        splice_amount_sats = splice_amount_sats;
      }))
command_call (Commands.list_payments number_of_payments page_token) =
    page_token_of page_token >>= λ token. ok (Call.list_payments number_of_payments token)
command_call (Commands.list_forwarded_payments number_of_payments page_token) =
    page_token_of page_token >>= λ token. ok (Call.list_forwarded_payments number_of_payments token)
command_call (Commands.get_payment_details payment_id) = ok (Call.get_payment_details payment_id)
command_call (Commands.update_channel_config user_channel_id counterparty_node_id fees) = ok (
    Call.update_channel_config (record {
      user_channel_id = user_channel_id;
      counterparty_node_id = counterparty_node_id;
      channel_config = some (fee_config fees);
    }))
