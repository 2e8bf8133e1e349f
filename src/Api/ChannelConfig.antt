-- ===== src/Api/ChannelConfig.antt =====
-- `build_channel_config_from_proto` of ldk-server/src/api/mod.rs and `channel_config_to_proto` of
-- ldk-server/src/util/proto_adapter.rs.
use ldk_server.Prelude.{
  ℕ, ◌≤◌, ◌≡◌, refl, Bool, Option, none, some, Result, ok, err, leb, unwrap_or, opt_map, arith,
  or_else, true, false, Bool-cases, inl, inr, if◌then◌else◌,
}
use ldk_server.Text.{lit}
use ldk_server.Api.Error.{LdkServerError, new, invalid_request_error}

-- `MaxDustHTLCExposure` of LDK, and `MaxDustHtlcExposure` of the protos
pub data MaxDustHtlcExposure : Type 0 where
  fixed_limit fee_rate_multiplier : ℕ → MaxDustHtlcExposure

pub data ProtoMaxDustHtlcExposure : Type 0 where
  fixed_limit_msat fee_rate_multiplier : ℕ → ProtoMaxDustHtlcExposure

-- `ldk_node::config::ChannelConfig`, with the fields that the sources name
pub record ChannelConfig : Type 0 where
  pub forwarding_fee_proportional_millionths : ℕ
  pub forwarding_fee_base_msat : ℕ
  pub cltv_expiry_delta : ℕ
  pub max_dust_htlc_exposure : MaxDustHtlcExposure
  pub force_close_avoidance_max_fee_satoshis : ℕ
  pub accept_underpaying_htlcs : Bool

-- `ldk_server_protos::types::ChannelConfig`
pub record ProtoChannelConfig : Type 0 where
  pub forwarding_fee_proportional_millionths : Option ℕ
  pub forwarding_fee_base_msat : Option ℕ
  pub cltv_expiry_delta : Option ℕ
  pub force_close_avoidance_max_fee_satoshis : Option ℕ
  pub accept_underpaying_htlcs : Option Bool
  pub max_dust_htlc_exposure : Option ProtoMaxDustHtlcExposure

abbrev from_proto_exposure : ProtoMaxDustHtlcExposure → MaxDustHtlcExposure
from_proto_exposure (fixed_limit_msat n) = MaxDustHtlcExposure.fixed_limit n
from_proto_exposure (ProtoMaxDustHtlcExposure.fee_rate_multiplier n) =
    MaxDustHtlcExposure.fee_rate_multiplier n

abbrev to_proto_exposure : MaxDustHtlcExposure → ProtoMaxDustHtlcExposure
to_proto_exposure (fixed_limit n) = ProtoMaxDustHtlcExposure.fixed_limit_msat n
to_proto_exposure (MaxDustHtlcExposure.fee_rate_multiplier n) =
    ProtoMaxDustHtlcExposure.fee_rate_multiplier n

abbrev pub u16_max : ℕ
u16_max = 65535

-- `u16::try_from` on the delta, if there is one
checked_delta : Option ℕ → ℕ → Result ℕ LdkServerError
checked_delta none d = ok d
checked_delta (some c) d =
    if leb c u16_max
    then ok c
    else err
        (new invalid_request_error (lit "Invalid cltv_expiry_delta, must be between 0 and 65535"))

-- The struct literal at the end.
abbrev with_delta :
    ChannelConfig
    → ProtoChannelConfig
    → Result ℕ LdkServerError
    → Result ChannelConfig LdkServerError
with_delta d p (err e) = err e
with_delta d p (ok delta) = ok (record {
  forwarding_fee_proportional_millionths =
      unwrap_or p.forwarding_fee_proportional_millionths d.forwarding_fee_proportional_millionths;
  forwarding_fee_base_msat = unwrap_or p.forwarding_fee_base_msat d.forwarding_fee_base_msat;
  cltv_expiry_delta = delta;
  max_dust_htlc_exposure =
      unwrap_or (opt_map from_proto_exposure p.max_dust_htlc_exposure) d.max_dust_htlc_exposure;
  force_close_avoidance_max_fee_satoshis =
      unwrap_or p.force_close_avoidance_max_fee_satoshis d.force_close_avoidance_max_fee_satoshis;
  accept_underpaying_htlcs = unwrap_or p.accept_underpaying_htlcs d.accept_underpaying_htlcs;
})

-- `build_channel_config_from_proto`
unfoldable pub build_channel_config_from_proto :
    ChannelConfig → ProtoChannelConfig → Result ChannelConfig LdkServerError
unfolding checked_delta
build_channel_config_from_proto default_config proto_channel_config =
    with_delta default_config proto_channel_config
      (checked_delta proto_channel_config.cltv_expiry_delta default_config.cltv_expiry_delta)

-- `channel_config_to_proto`
unfoldable pub channel_config_to_proto : ChannelConfig → ProtoChannelConfig
channel_config_to_proto c = record {
  forwarding_fee_proportional_millionths = some c.forwarding_fee_proportional_millionths;
  forwarding_fee_base_msat = some c.forwarding_fee_base_msat;
  cltv_expiry_delta = some c.cltv_expiry_delta;
  force_close_avoidance_max_fee_satoshis = some c.force_close_avoidance_max_fee_satoshis;
  accept_underpaying_htlcs = some c.accept_underpaying_htlcs;
  max_dust_htlc_exposure = some (to_proto_exposure c.max_dust_htlc_exposure);
}

from_to_exposure : (e : MaxDustHtlcExposure) → from_proto_exposure (to_proto_exposure e) ≡ e
from_to_exposure (fixed_limit n) = refl
from_to_exposure (MaxDustHtlcExposure.fee_rate_multiplier n) = refl

-- A channel configuration whose delta is a u16, shown to a client and sent back whole, is built
-- again as it was, whatever configuration it is laid over.
pub build_channel_config-to_proto :
    (d c : ChannelConfig)
    → c.cltv_expiry_delta ≤ u16_max
    → build_channel_config_from_proto d (channel_config_to_proto c) ≡ ok c
unfolding build_channel_config_from_proto channel_config_to_proto
build_channel_config-to_proto d c h = ground (arith, from_to_exposure c.max_dust_htlc_exposure)

-- Over a configuration whose delta is a u16, a configuration that is built has a u16 as its delta:
-- the request's if it has one, and the one below otherwise.
pub build_channel_config-delta :
    (d c : ChannelConfig) (p : ProtoChannelConfig)
    → build_channel_config_from_proto d p ≡ ok c
    → d.cltv_expiry_delta ≤ u16_max
    → (c.cltv_expiry_delta ≤ u16_max)
      × (c.cltv_expiry_delta ≡ unwrap_or p.cltv_expiry_delta d.cltv_expiry_delta)
unfolding build_channel_config_from_proto
build_channel_config-delta d c p h k = ground arith

-- A request's configuration laid over one that a client is shown, field by field.
abbrev pub over : ProtoChannelConfig → ProtoChannelConfig → ProtoChannelConfig
over p q = record {
  forwarding_fee_proportional_millionths =
      or_else p.forwarding_fee_proportional_millionths q.forwarding_fee_proportional_millionths;
  forwarding_fee_base_msat = or_else p.forwarding_fee_base_msat q.forwarding_fee_base_msat;
  cltv_expiry_delta = or_else p.cltv_expiry_delta q.cltv_expiry_delta;
  force_close_avoidance_max_fee_satoshis =
      or_else p.force_close_avoidance_max_fee_satoshis q.force_close_avoidance_max_fee_satoshis;
  accept_underpaying_htlcs = or_else p.accept_underpaying_htlcs q.accept_underpaying_htlcs;
  max_dust_htlc_exposure = or_else p.max_dust_htlc_exposure q.max_dust_htlc_exposure;
}

-- The request's delta, if it has one, is a u16.
abbrev pub fits : ProtoChannelConfig → Bool
fits p = unwrap_or (opt_map (λ delta. leb delta 65535) p.cltv_expiry_delta) true

-- What a client is shown of the built configuration, or how there is none.
abbrev pub Shown : ChannelConfig → ProtoChannelConfig → Result ChannelConfig LdkServerError → Type 0
Shown d p (ok c) =
    (fits p ≡ true) × (channel_config_to_proto c ≡ over p (channel_config_to_proto d))
Shown d p (err e) = (fits p ≡ false) × (e.error_code ≡ invalid_request_error)

shown_exposure :
    (o : Option ProtoMaxDustHtlcExposure) (e : MaxDustHtlcExposure)
    → some (to_proto_exposure (unwrap_or (opt_map from_proto_exposure o) e))
      ≡ or_else o (some (to_proto_exposure e))
shown_exposure none e = refl
shown_exposure (some (fixed_limit_msat n)) e = refl
shown_exposure (some (ProtoMaxDustHtlcExposure.fee_rate_multiplier n)) e = refl

shown_field : {A : Type 0} (o : Option A) (a : A) → some (unwrap_or o a) ≡ or_else o (some a)
shown_field none a = refl
shown_field (some b) a = refl

with_delta-Shown :
    (d : ChannelConfig) (p : ProtoChannelConfig) (delta : ℕ)
    → some delta ≡ or_else p.cltv_expiry_delta (some d.cltv_expiry_delta)
    → fits p ≡ true
    → Shown d p (with_delta d p (ok delta))
unfolding channel_config_to_proto
with_delta-Shown d p delta e f = (
  f,
  λ i. record {
    forwarding_fee_proportional_millionths =
        shown_field p.forwarding_fee_proportional_millionths
          d.forwarding_fee_proportional_millionths i;
    forwarding_fee_base_msat = shown_field p.forwarding_fee_base_msat d.forwarding_fee_base_msat i;
    cltv_expiry_delta = e i;
    force_close_avoidance_max_fee_satoshis =
        shown_field p.force_close_avoidance_max_fee_satoshis
          d.force_close_avoidance_max_fee_satoshis i;
    accept_underpaying_htlcs = shown_field p.accept_underpaying_htlcs d.accept_underpaying_htlcs i;
    max_dust_htlc_exposure = shown_exposure p.max_dust_htlc_exposure d.max_dust_htlc_exposure i;
  },
)

checked-Shown :
    (d : ChannelConfig) (p : ProtoChannelConfig) (o : Option ℕ)
    → p.cltv_expiry_delta ≡ o
    → Shown d p (with_delta d p (checked_delta o d.cltv_expiry_delta))
unfolding checked_delta
checked-Shown d p none e = with_delta-Shown d p d.cltv_expiry_delta (rw e) (rw e)
checked-Shown d p (some delta) e = elim (Bool-cases (leb delta 65535)) [
  | inl small ↦ rw small (with_delta-Shown d p delta (rw e) (rw e small))
  | inr large ↦ rw large (rw e large, refl)
]

-- A configuration is built exactly if the request's delta, if it has one, is a u16, and is refused
-- as invalid otherwise; what a client is shown of a built one is, field by field, the request's
-- value where it has one and else what it is shown of the one below.
pub build_channel_config-Shown :
    (d : ChannelConfig) (p : ProtoChannelConfig) → Shown d p (build_channel_config_from_proto d p)
unfolding build_channel_config_from_proto
build_channel_config-Shown d p = checked-Shown d p p.cltv_expiry_delta refl
