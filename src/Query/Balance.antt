-- ===== src/Query/Balance.antt =====
-- The messages on balances of ldk-server-protos/src/types.rs, and their making in
-- ldk-server/src/util/proto_adapter.rs.
use ldk_server.Prelude.{ℕ, Bool, Option, opt_map}
use ldk_server.Text.{Text}
use ldk_server.Payment.{Printers}

pub record ClaimableOnChannelClose : Type 0 where
  pub channel_id : Text
  pub counterparty_node_id : Text
  pub amount_satoshis : ℕ
  pub transaction_fee_satoshis : ℕ
  pub outbound_payment_htlc_rounded_msat : ℕ
  pub outbound_forwarded_htlc_rounded_msat : ℕ
  pub inbound_claiming_htlc_rounded_msat : ℕ
  pub inbound_htlc_rounded_msat : ℕ

pub record ClaimableAwaitingConfirmations : Type 0 where
  pub channel_id : Text
  pub counterparty_node_id : Text
  pub amount_satoshis : ℕ
  pub confirmation_height : ℕ

pub record ContentiousClaimable : Type 0 where
  pub channel_id : Text
  pub counterparty_node_id : Text
  pub amount_satoshis : ℕ
  pub timeout_height : ℕ
  pub payment_hash : Text
  pub payment_preimage : Text

pub record MaybeTimeoutClaimableHtlc : Type 0 where
  pub channel_id : Text
  pub counterparty_node_id : Text
  pub amount_satoshis : ℕ
  pub claimable_height : ℕ
  pub payment_hash : Text
  pub outbound_payment : Bool

pub record MaybePreimageClaimableHtlc : Type 0 where
  pub channel_id : Text
  pub counterparty_node_id : Text
  pub amount_satoshis : ℕ
  pub expiry_height : ℕ
  pub payment_hash : Text

pub record CounterpartyRevokedOutputClaimable : Type 0 where
  pub channel_id : Text
  pub counterparty_node_id : Text
  pub amount_satoshis : ℕ

pub record PendingBroadcast : Type 0 where
  pub channel_id : Option Text
  pub amount_satoshis : ℕ

pub record BroadcastAwaitingConfirmation : Type 0 where
  pub channel_id : Option Text
  pub latest_broadcast_height : ℕ
  pub latest_spending_txid : Text
  pub amount_satoshis : ℕ

pub record AwaitingThresholdConfirmations : Type 0 where
  pub channel_id : Option Text
  pub latest_spending_txid : Text
  pub confirmation_hash : Text
  pub confirmation_height : ℕ
  pub amount_satoshis : ℕ

-- `lightning_balance::BalanceType` and `pending_sweep_balance::BalanceType`
pub data ProtoLightningBalance : Type 0 where
  claimable_on_channel_close : ClaimableOnChannelClose → ProtoLightningBalance
  claimable_awaiting_confirmations : ClaimableAwaitingConfirmations → ProtoLightningBalance
  contentious_claimable : ContentiousClaimable → ProtoLightningBalance
  maybe_timeout_claimable_htlc : MaybeTimeoutClaimableHtlc → ProtoLightningBalance
  maybe_preimage_claimable_htlc : MaybePreimageClaimableHtlc → ProtoLightningBalance
  counterparty_revoked_output_claimable : CounterpartyRevokedOutputClaimable → ProtoLightningBalance

pub data ProtoPendingSweepBalance : Type 0 where
  pending_broadcast : PendingBroadcast → ProtoPendingSweepBalance
  broadcast_awaiting_confirmation : BroadcastAwaitingConfirmation → ProtoPendingSweepBalance
  awaiting_threshold_confirmations : AwaitingThresholdConfirmations → ProtoPendingSweepBalance

-- ldk-node's balances, with the fields that are read
pub data LightningBalance (types : Printers) : Type 0 where
  claimable_on_channel_close :
      (channel_id : types.ChannelId) (counterparty_node_id : types.NodeId) (amount_satoshis : ℕ)
      (transaction_fee_satoshis : ℕ) (outbound_payment_htlc_rounded_msat : ℕ)
      (outbound_forwarded_htlc_rounded_msat : ℕ) (inbound_claiming_htlc_rounded_msat : ℕ)
      (inbound_htlc_rounded_msat : ℕ)
      → LightningBalance types
  claimable_awaiting_confirmations :
      (channel_id : types.ChannelId) (counterparty_node_id : types.NodeId) (amount_satoshis : ℕ)
      (confirmation_height : ℕ)
      → LightningBalance types
  contentious_claimable :
      (channel_id : types.ChannelId) (counterparty_node_id : types.NodeId) (amount_satoshis : ℕ)
      (timeout_height : ℕ) (payment_hash : types.PaymentHash)
      (payment_preimage : types.PaymentPreimage)
      → LightningBalance types
  maybe_timeout_claimable_htlc :
      (channel_id : types.ChannelId) (counterparty_node_id : types.NodeId) (amount_satoshis : ℕ)
      (claimable_height : ℕ) (payment_hash : types.PaymentHash) (outbound_payment : Bool)
      → LightningBalance types
  maybe_preimage_claimable_htlc :
      (channel_id : types.ChannelId) (counterparty_node_id : types.NodeId) (amount_satoshis : ℕ)
      (expiry_height : ℕ) (payment_hash : types.PaymentHash)
      → LightningBalance types
  counterparty_revoked_output_claimable :
      (channel_id : types.ChannelId) (counterparty_node_id : types.NodeId) (amount_satoshis : ℕ)
      → LightningBalance types

pub data PendingSweepBalance (types : Printers) : Type 0 where
  pending_broadcast :
      (channel_id : Option types.ChannelId) (amount_satoshis : ℕ) → PendingSweepBalance types
  broadcast_awaiting_confirmation :
      (channel_id : Option types.ChannelId) (latest_broadcast_height : ℕ)
      (latest_spending_txid : types.Txid) (amount_satoshis : ℕ)
      → PendingSweepBalance types
  awaiting_threshold_confirmations :
      (channel_id : Option types.ChannelId) (latest_spending_txid : types.Txid)
      (confirmation_hash : types.BlockHash) (confirmation_height : ℕ) (amount_satoshis : ℕ)
      → PendingSweepBalance types

-- `channel_hex` is `to_lower_hex_string` of a channel id's bytes.
module _ (types : Printers) (channel_hex : types.ChannelId → Text) where
  unfoldable pub lightning_balance_to_proto : LightningBalance types → ProtoLightningBalance
  lightning_balance_to_proto
        (LightningBalance.claimable_on_channel_close channel_id counterparty_node_id amount_satoshis
          transaction_fee_satoshis outbound_payment_htlc_rounded_msat
          outbound_forwarded_htlc_rounded_msat inbound_claiming_htlc_rounded_msat
          inbound_htlc_rounded_msat) =
      ProtoLightningBalance.claimable_on_channel_close (record {
        channel_id = channel_hex channel_id;
        counterparty_node_id = types.show_node_id counterparty_node_id;
        amount_satoshis = amount_satoshis;
        transaction_fee_satoshis = transaction_fee_satoshis;
        outbound_payment_htlc_rounded_msat = outbound_payment_htlc_rounded_msat;
        outbound_forwarded_htlc_rounded_msat = outbound_forwarded_htlc_rounded_msat;
        inbound_claiming_htlc_rounded_msat = inbound_claiming_htlc_rounded_msat;
        inbound_htlc_rounded_msat = inbound_htlc_rounded_msat;
      })
  lightning_balance_to_proto
        (LightningBalance.claimable_awaiting_confirmations channel_id counterparty_node_id
          amount_satoshis confirmation_height) =
      ProtoLightningBalance.claimable_awaiting_confirmations (record {
        channel_id = channel_hex channel_id;
        counterparty_node_id = types.show_node_id counterparty_node_id;
        amount_satoshis = amount_satoshis;
        confirmation_height = confirmation_height;
      })
  lightning_balance_to_proto
        (LightningBalance.contentious_claimable channel_id counterparty_node_id amount_satoshis
          timeout_height payment_hash payment_preimage) =
      ProtoLightningBalance.contentious_claimable (record {
        channel_id = channel_hex channel_id;
        counterparty_node_id = types.show_node_id counterparty_node_id;
        amount_satoshis = amount_satoshis;
        timeout_height = timeout_height;
        payment_hash = types.show_hash payment_hash;
        payment_preimage = types.show_preimage payment_preimage;
      })
  lightning_balance_to_proto
        (LightningBalance.maybe_timeout_claimable_htlc channel_id counterparty_node_id
          amount_satoshis claimable_height payment_hash outbound_payment) =
      ProtoLightningBalance.maybe_timeout_claimable_htlc (record {
        channel_id = channel_hex channel_id;
        counterparty_node_id = types.show_node_id counterparty_node_id;
        amount_satoshis = amount_satoshis;
        claimable_height = claimable_height;
        payment_hash = types.show_hash payment_hash;
        outbound_payment = outbound_payment;
      })
  lightning_balance_to_proto
        (LightningBalance.maybe_preimage_claimable_htlc channel_id counterparty_node_id
          amount_satoshis expiry_height payment_hash) =
      ProtoLightningBalance.maybe_preimage_claimable_htlc (record {
        channel_id = channel_hex channel_id;
        counterparty_node_id = types.show_node_id counterparty_node_id;
        amount_satoshis = amount_satoshis;
        expiry_height = expiry_height;
        payment_hash = types.show_hash payment_hash;
      })
  lightning_balance_to_proto
        (LightningBalance.counterparty_revoked_output_claimable channel_id counterparty_node_id
          amount_satoshis) =
      ProtoLightningBalance.counterparty_revoked_output_claimable (record {
        channel_id = channel_hex channel_id;
        counterparty_node_id = types.show_node_id counterparty_node_id;
        amount_satoshis = amount_satoshis;
      })

  unfoldable pub pending_sweep_balance_to_proto :
      PendingSweepBalance types → ProtoPendingSweepBalance
  pending_sweep_balance_to_proto
        (PendingSweepBalance.pending_broadcast channel_id amount_satoshis) =
      ProtoPendingSweepBalance.pending_broadcast
        (record { channel_id = opt_map channel_hex channel_id; amount_satoshis = amount_satoshis })
  pending_sweep_balance_to_proto
        (PendingSweepBalance.broadcast_awaiting_confirmation channel_id latest_broadcast_height
          latest_spending_txid amount_satoshis) =
      ProtoPendingSweepBalance.broadcast_awaiting_confirmation (record {
        channel_id = opt_map channel_hex channel_id;
        latest_broadcast_height = latest_broadcast_height;
        latest_spending_txid = types.show_txid latest_spending_txid;
        amount_satoshis = amount_satoshis;
      })
  pending_sweep_balance_to_proto
        (PendingSweepBalance.awaiting_threshold_confirmations channel_id latest_spending_txid
          confirmation_hash confirmation_height amount_satoshis) =
      ProtoPendingSweepBalance.awaiting_threshold_confirmations (record {
        channel_id = opt_map channel_hex channel_id;
        latest_spending_txid = types.show_txid latest_spending_txid;
        confirmation_hash = types.show_block_hash confirmation_hash;
        confirmation_height = confirmation_height;
        amount_satoshis = amount_satoshis;
      })
