-- ===== src/Query/Channels.antt =====
-- The channels of ldk-server-protos/src/types.rs, and `channel_to_proto` of
-- ldk-server/src/util/proto_adapter.rs. The `u16`s that it casts to `u32` keep their values.
use ldk_server.Prelude.{ℕ, Bool, Option, some, opt_map}
use ldk_server.Text.{Text}
use ldk_server.Text.Decimal.{show_nat}
use ldk_server.Payment.{Printers}
use ldk_server.Api.ChannelConfig.{ChannelConfig, ProtoChannelConfig, channel_config_to_proto}

pub record ProtoOutPoint : Type 0 where
  pub txid : Text
  pub vout : ℕ

pub record Channel : Type 0 where
  pub channel_id : Text
  pub counterparty_node_id : Text
  pub funding_txo : Option ProtoOutPoint
  pub user_channel_id : Text
  pub unspendable_punishment_reserve : Option ℕ
  pub channel_value_sats : ℕ
  pub feerate_sat_per_1000_weight : ℕ
  pub outbound_capacity_msat : ℕ
  pub inbound_capacity_msat : ℕ
  pub confirmations_required : Option ℕ
  pub confirmations : Option ℕ
  pub is_outbound : Bool
  pub is_channel_ready : Bool
  pub is_usable : Bool
  pub is_announced : Bool
  pub channel_config : Option ProtoChannelConfig
  pub next_outbound_htlc_limit_msat : ℕ
  pub next_outbound_htlc_minimum_msat : ℕ
  pub force_close_spend_delay : Option ℕ
  pub counterparty_outbound_htlc_minimum_msat : Option ℕ
  pub counterparty_outbound_htlc_maximum_msat : Option ℕ
  pub counterparty_unspendable_punishment_reserve : ℕ
  pub counterparty_forwarding_info_fee_base_msat : Option ℕ
  pub counterparty_forwarding_info_fee_proportional_millionths : Option ℕ
  pub counterparty_forwarding_info_cltv_expiry_delta : Option ℕ

-- ldk-node's `OutPoint` and `ChannelDetails`; the user's channel id is a `u128`.
pub record OutPoint (types : Printers) : Type 0 where
  pub txid : types.Txid
  pub vout : ℕ

pub record ChannelDetails (types : Printers) : Type 0 where
  pub channel_id : types.ChannelId
  pub counterparty_node_id : types.NodeId
  pub funding_txo : Option (OutPoint types)
  pub user_channel_id : ℕ
  pub unspendable_punishment_reserve : Option ℕ
  pub channel_value_sats : ℕ
  pub feerate_sat_per_1000_weight : ℕ
  pub outbound_capacity_msat : ℕ
  pub inbound_capacity_msat : ℕ
  pub confirmations_required : Option ℕ
  pub confirmations : Option ℕ
  pub is_outbound : Bool
  pub is_channel_ready : Bool
  pub is_usable : Bool
  pub is_announced : Bool
  pub config : ChannelConfig
  pub next_outbound_htlc_limit_msat : ℕ
  pub next_outbound_htlc_minimum_msat : ℕ
  pub force_close_spend_delay : Option ℕ
  pub counterparty_outbound_htlc_minimum_msat : Option ℕ
  pub counterparty_outbound_htlc_maximum_msat : Option ℕ
  pub counterparty_unspendable_punishment_reserve : ℕ
  pub counterparty_forwarding_info_fee_base_msat : Option ℕ
  pub counterparty_forwarding_info_fee_proportional_millionths : Option ℕ
  pub counterparty_forwarding_info_cltv_expiry_delta : Option ℕ

module _ (types : Printers) (channel_hex : types.ChannelId → Text) where
  unfoldable pub channel_to_proto : ChannelDetails types → Channel
  channel_to_proto channel = record {
    channel_id = channel_hex channel.channel_id;
    counterparty_node_id = types.show_node_id channel.counterparty_node_id;
    funding_txo =
        opt_map (λ (o : OutPoint types). record { txid = types.show_txid o.txid; vout = o.vout })
          channel.funding_txo;
    user_channel_id = show_nat channel.user_channel_id;
    unspendable_punishment_reserve = channel.unspendable_punishment_reserve;
    channel_value_sats = channel.channel_value_sats;
    feerate_sat_per_1000_weight = channel.feerate_sat_per_1000_weight;
    outbound_capacity_msat = channel.outbound_capacity_msat;
    inbound_capacity_msat = channel.inbound_capacity_msat;
    confirmations_required = channel.confirmations_required;
    confirmations = channel.confirmations;
    is_outbound = channel.is_outbound;
    is_channel_ready = channel.is_channel_ready;
    is_usable = channel.is_usable;
    is_announced = channel.is_announced;
    channel_config = some (channel_config_to_proto channel.config);
    next_outbound_htlc_limit_msat = channel.next_outbound_htlc_limit_msat;
    next_outbound_htlc_minimum_msat = channel.next_outbound_htlc_minimum_msat;
    force_close_spend_delay = channel.force_close_spend_delay;
    counterparty_outbound_htlc_minimum_msat = channel.counterparty_outbound_htlc_minimum_msat;
    counterparty_outbound_htlc_maximum_msat = channel.counterparty_outbound_htlc_maximum_msat;
    counterparty_unspendable_punishment_reserve =
        channel.counterparty_unspendable_punishment_reserve;
    counterparty_forwarding_info_fee_base_msat = channel.counterparty_forwarding_info_fee_base_msat;
    counterparty_forwarding_info_fee_proportional_millionths =
        channel.counterparty_forwarding_info_fee_proportional_millionths;
    counterparty_forwarding_info_cltv_expiry_delta =
        channel.counterparty_forwarding_info_cltv_expiry_delta;
  }
