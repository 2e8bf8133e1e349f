-- ===== src/Tests/Values.antt =====
-- Channel configurations.
use ldk_server.Prelude.{◌≤◌, ◌≡◌, refl, arith, true, none, some, ok, unwrap_or}
use ldk_server.Api.ChannelConfig.{
  ChannelConfig, ProtoChannelConfig, fixed_limit, fixed_limit_msat, u16_max,
  build_channel_config_from_proto, channel_config_to_proto, build_channel_config-to_proto,
  build_channel_config-delta, build_channel_config-Shown, Shown,
}

abbrev pub config : ChannelConfig
config = record {
  forwarding_fee_proportional_millionths = 10;
  forwarding_fee_base_msat = 1000;
  cltv_expiry_delta = 72;
  max_dust_htlc_exposure = fixed_limit 5000000;
  force_close_avoidance_max_fee_satoshis = 1000;
  accept_underpaying_htlcs = true;
}

abbrev pub change : ProtoChannelConfig
change = record {
  forwarding_fee_proportional_millionths = none;
  forwarding_fee_base_msat = some 20;
  cltv_expiry_delta = some 144;
  force_close_avoidance_max_fee_satoshis = none;
  accept_underpaying_htlcs = none;
  max_dust_htlc_exposure = some (fixed_limit_msat 7);
}

abbrev pub changed : ChannelConfig
changed = record config {
  forwarding_fee_base_msat = 20;
  cltv_expiry_delta = 144;
  max_dust_htlc_exposure = fixed_limit 7;
}

config-change : build_channel_config_from_proto config change ≡ ok changed
unfolding build_channel_config_from_proto
config-change = refl

build_channel_config-to_proto_example :
    build_channel_config_from_proto config (channel_config_to_proto changed) ≡ ok changed
build_channel_config-to_proto_example = build_channel_config-to_proto config changed (omega arith)

build_channel_config-delta_example :
    (changed.cltv_expiry_delta ≤ u16_max)
    × (changed.cltv_expiry_delta ≡ unwrap_or change.cltv_expiry_delta config.cltv_expiry_delta)
build_channel_config-delta_example =
    build_channel_config-delta config changed change config-change (omega arith)

build_channel_config-Shown_example :
    Shown config change (build_channel_config_from_proto config change)
build_channel_config-Shown_example = build_channel_config-Shown config change
