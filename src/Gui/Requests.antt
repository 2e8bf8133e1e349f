-- ===== src/Gui/Requests.antt =====
-- The requests that the operations of ldk-server-gui/src/app.rs make of their forms, or what they show
-- instead.
use ldk_server.Prelude.{
  ℕ, ◌-◌, ◌^◌, Bool, true, not, ◌&&◌, ◌||◌, Option, none, some, Result, ok, err, ◌>>=◌, ◌>>◌, ok_or,
  is_some, unwrap_or, if◌then◌else◌,
}
use ldk_server.Text.{Text, lit, is_empty}
use ldk_server.Text.Trim.{trim}
use ldk_server.Text.Decimal.{parse_unsigned, u64_max}
use ldk_server.Api.ChannelConfig.{ProtoChannelConfig}
use ldk_server.Api.Channels.{
  CloseChannelRequest, ForceCloseChannelRequest, SpliceInRequest, SpliceOutRequest,
  OpenChannelRequest, UpdateChannelConfigRequest, ConnectPeerRequest,
}
use ldk_server.Api.PaymentArgs.{
  OnchainSendRequest, DescriptionKind, Bolt11ReceiveRequest, Bolt11SendRequest,
  Bolt12ReceiveRequest, Bolt12SendRequest,
}
use ldk_server.Gui.Form.{
  OpenChannelForm, Bolt11ReceiveForm, Bolt11SendForm, Bolt12ReceiveForm, Bolt12SendForm,
  OnchainSendForm, SpliceForm, UpdateChannelConfigForm, CloseChannelForm, ConnectPeerForm,
}
use ldk_server.Gui.State.{Op, Request, AppState}

abbrev u32_max : ℕ
u32_max = 2 ^ 32 - 1

-- `.trim().parse::<u64>().ok()`, and the same for `u32`
abbrev pub u64_of : Text → Option ℕ
u64_of s = parse_unsigned u64_max (trim s)

abbrev pub u32_of : Text → Option ℕ
u32_of s = parse_unsigned u32_max (trim s)

-- A text that is trimmed, or none if nothing is left.
abbrev some_text : Text → Option Text
some_text s = if is_empty (trim s) then none else some (trim s)

-- The guard on fields that may not be empty.
abbrev refuse_if : Bool → Text → Result (Unit {0}) Text
refuse_if b message = if b then err message else ok tt

unfoldable pub onchain_send_request : OnchainSendForm → Result OnchainSendRequest Text
onchain_send_request form =
    refuse_if (is_empty (trim form.address)) (lit "Address is required")
    >> ok (record {
      address = trim form.address;
      amount_sats = u64_of form.amount_sats;
      send_all = if form.send_all then some true else none;
      fee_rate_sat_per_vb = u64_of form.fee_rate_sat_per_vb;
    })

unfoldable pub bolt11_receive_request : Bolt11ReceiveForm → Result Bolt11ReceiveRequest Text
bolt11_receive_request form = ok (record {
  amount_msat = u64_of form.amount_msat;
  description =
      if not (is_empty (trim form.description))
      then some (some (DescriptionKind.direct (trim form.description)))
      else none;
  expiry_secs = unwrap_or (u32_of form.expiry_secs) 86400;
})

unfoldable pub bolt11_send_request : Bolt11SendForm → Result Bolt11SendRequest Text
bolt11_send_request form =
    refuse_if (is_empty (trim form.invoice)) (lit "Invoice is required")
    >> ok (record {
      invoice = trim form.invoice;
      amount_msat = u64_of form.amount_msat;
      route_parameters = none;
    })

unfoldable pub bolt12_receive_request : Bolt12ReceiveForm → Result Bolt12ReceiveRequest Text
bolt12_receive_request form =
    refuse_if (is_empty (trim form.description)) (lit "Description is required")
    >> ok (record {
      description = trim form.description;
      amount_msat = u64_of form.amount_msat;
      expiry_secs = u32_of form.expiry_secs;
      quantity = u64_of form.quantity;
    })

unfoldable pub bolt12_send_request : Bolt12SendForm → Result Bolt12SendRequest Text
bolt12_send_request form =
    refuse_if (is_empty (trim form.offer)) (lit "Offer is required")
    >> ok (record {
      offer = trim form.offer;
      amount_msat = u64_of form.amount_msat;
      quantity = u64_of form.quantity;
      payer_note = some_text form.payer_note;
      route_parameters = none;
    })

abbrev fees_of : Option ℕ → Option ℕ → Option ℕ → ProtoChannelConfig
fees_of fee_prop fee_base cltv = record {
  forwarding_fee_proportional_millionths = fee_prop;
  forwarding_fee_base_msat = fee_base;
  cltv_expiry_delta = cltv;
  force_close_avoidance_max_fee_satoshis = none;
  accept_underpaying_htlcs = none;
  max_dust_htlc_exposure = none;
}

-- `build_channel_config`, on texts that are trimmed here
unfoldable pub build_channel_config : Text → Text → Text → Option ProtoChannelConfig
build_channel_config fee_prop fee_base cltv =
    if not (is_some (u32_of fee_prop))
      && not (is_some (u32_of fee_base))
      && not (is_some (u32_of cltv))
    then none
    else some (fees_of (u32_of fee_prop) (u32_of fee_base) (u32_of cltv))

unfoldable pub open_channel_request : OpenChannelForm → Result OpenChannelRequest Text
open_channel_request form =
    ok_or (u64_of form.channel_amount_sats) (lit "Invalid channel amount")
    >>= λ channel_amount_sats.
        refuse_if (is_empty (trim form.node_pubkey) || is_empty (trim form.address))
          (lit "Node pubkey and address are required")
        >> ok (record {
          node_pubkey = trim form.node_pubkey;
          address = trim form.address;
          channel_amount_sats = channel_amount_sats;
          push_to_counterparty_msat = u64_of form.push_to_counterparty_msat;
          channel_config =
              build_channel_config form.forwarding_fee_proportional_millionths
                form.forwarding_fee_base_msat form.cltv_expiry_delta;
          announce_channel = form.announce_channel;
        })

-- The guard on a channel's two ids.
abbrev need_channel : Text → Text → Result (Unit {0}) Text
need_channel user_channel_id counterparty_node_id =
    refuse_if (is_empty (trim user_channel_id) || is_empty (trim counterparty_node_id))
      (lit "Channel ID and counterparty node ID are required")

unfoldable pub close_channel_request : CloseChannelForm → Result CloseChannelRequest Text
close_channel_request form =
    need_channel form.user_channel_id form.counterparty_node_id
    >> ok (record {
      user_channel_id = trim form.user_channel_id;
      counterparty_node_id = trim form.counterparty_node_id;
    })

unfoldable pub force_close_channel_request : CloseChannelForm → Result ForceCloseChannelRequest Text
force_close_channel_request form =
    need_channel form.user_channel_id form.counterparty_node_id
    >> ok (record {
      user_channel_id = trim form.user_channel_id;
      counterparty_node_id = trim form.counterparty_node_id;
      force_close_reason = some_text form.force_close_reason;
    })

unfoldable pub splice_in_request : SpliceForm → Result SpliceInRequest Text
splice_in_request form =
    ok_or (u64_of form.splice_amount_sats) (lit "Invalid splice amount") >>= λ splice_amount_sats.
    need_channel form.user_channel_id form.counterparty_node_id
    >> ok (record {
      user_channel_id = trim form.user_channel_id;
      counterparty_node_id = trim form.counterparty_node_id;
      splice_amount_sats = splice_amount_sats;
    })

unfoldable pub splice_out_request : SpliceForm → Result SpliceOutRequest Text
splice_out_request form =
    ok_or (u64_of form.splice_amount_sats) (lit "Invalid splice amount") >>= λ splice_amount_sats.
    need_channel form.user_channel_id form.counterparty_node_id
    >> ok (record {
      user_channel_id = trim form.user_channel_id;
      counterparty_node_id = trim form.counterparty_node_id;
      address = some_text form.address;
      splice_amount_sats = splice_amount_sats;
    })

unfoldable pub update_channel_config_request :
    UpdateChannelConfigForm → Result UpdateChannelConfigRequest Text
update_channel_config_request form =
    need_channel form.user_channel_id form.counterparty_node_id
    >> ok (record {
      user_channel_id = trim form.user_channel_id;
      counterparty_node_id = trim form.counterparty_node_id;
      channel_config = some (
          fees_of (u32_of form.forwarding_fee_proportional_millionths)
            (u32_of form.forwarding_fee_base_msat) (u32_of form.cltv_expiry_delta));
    })

unfoldable pub connect_peer_request : ConnectPeerForm → Result ConnectPeerRequest Text
connect_peer_request form =
    refuse_if (is_empty (trim form.node_pubkey) || is_empty (trim form.address))
      (lit "Node pubkey and address are required")
    >> ok (record {
      node_pubkey = trim form.node_pubkey;
      address = trim form.address;
      persist = form.persist;
    })

-- The request of each operation in a state.
unfoldable pub request : (op : Op) → AppState → Result (Request op) Text
request Op.node_info state = ok tt
request Op.balances state = ok tt
request Op.channels state = ok tt
request Op.payments state = ok state.payments_page_token
request Op.onchain_receive state = ok tt
request Op.onchain_send state = onchain_send_request state.forms.onchain_send
request Op.bolt11_receive state = bolt11_receive_request state.forms.bolt11_receive
request Op.bolt11_send state = bolt11_send_request state.forms.bolt11_send
request Op.bolt12_receive state = bolt12_receive_request state.forms.bolt12_receive
request Op.bolt12_send state = bolt12_send_request state.forms.bolt12_send
request Op.open_channel state = open_channel_request state.forms.open_channel
request Op.close_channel state = close_channel_request state.forms.close_channel
request Op.force_close_channel state = force_close_channel_request state.forms.close_channel
request Op.splice_in state = splice_in_request state.forms.splice_in
request Op.splice_out state = splice_out_request state.forms.splice_out
request Op.update_channel_config state =
    update_channel_config_request state.forms.update_channel_config
request Op.connect_peer state = connect_peer_request state.forms.connect_peer
