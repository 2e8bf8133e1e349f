-- ===== src/Query/Amounts.antt =====
-- The amounts of the balances of Query/Balance.
use ldk_server.Prelude.{ℕ}
use ldk_server.Payment.{Printers}
use ldk_server.Query.Balance.{
  ProtoLightningBalance, ProtoPendingSweepBalance, LightningBalance, PendingSweepBalance,
}

-- The satoshis of a balance, in the message and on the node.
abbrev pub proto_amount : ProtoLightningBalance → ℕ
proto_amount (ProtoLightningBalance.claimable_on_channel_close b) = b.amount_satoshis
proto_amount (ProtoLightningBalance.claimable_awaiting_confirmations b) = b.amount_satoshis
proto_amount (ProtoLightningBalance.contentious_claimable b) = b.amount_satoshis
proto_amount (ProtoLightningBalance.maybe_timeout_claimable_htlc b) = b.amount_satoshis
proto_amount (ProtoLightningBalance.maybe_preimage_claimable_htlc b) = b.amount_satoshis
proto_amount (ProtoLightningBalance.counterparty_revoked_output_claimable b) = b.amount_satoshis

abbrev pub proto_sweep_amount : ProtoPendingSweepBalance → ℕ
proto_sweep_amount (ProtoPendingSweepBalance.pending_broadcast b) = b.amount_satoshis
proto_sweep_amount (ProtoPendingSweepBalance.broadcast_awaiting_confirmation b) = b.amount_satoshis
proto_sweep_amount (ProtoPendingSweepBalance.awaiting_threshold_confirmations b) = b.amount_satoshis

module _ {types : Printers} where
  abbrev pub amount : LightningBalance types → ℕ
  amount
        (LightningBalance.claimable_on_channel_close channel_id counterparty_node_id amount_satoshis
          transaction_fee_satoshis outbound_payment_htlc_rounded_msat
          outbound_forwarded_htlc_rounded_msat inbound_claiming_htlc_rounded_msat
          inbound_htlc_rounded_msat) =
      amount_satoshis
  amount
        (LightningBalance.claimable_awaiting_confirmations channel_id counterparty_node_id
          amount_satoshis confirmation_height) =
      amount_satoshis
  amount
        (LightningBalance.contentious_claimable channel_id counterparty_node_id amount_satoshis
          timeout_height payment_hash payment_preimage) =
      amount_satoshis
  amount
        (LightningBalance.maybe_timeout_claimable_htlc channel_id counterparty_node_id
          amount_satoshis claimable_height payment_hash outbound_payment) =
      amount_satoshis
  amount
        (LightningBalance.maybe_preimage_claimable_htlc channel_id counterparty_node_id
          amount_satoshis expiry_height payment_hash) =
      amount_satoshis
  amount
        (LightningBalance.counterparty_revoked_output_claimable channel_id counterparty_node_id
          amount_satoshis) =
      amount_satoshis

  abbrev pub sweep_amount : PendingSweepBalance types → ℕ
  sweep_amount (PendingSweepBalance.pending_broadcast channel_id amount_satoshis) = amount_satoshis
  sweep_amount
        (PendingSweepBalance.broadcast_awaiting_confirmation channel_id latest_broadcast_height
          latest_spending_txid amount_satoshis) =
      amount_satoshis
  sweep_amount
        (PendingSweepBalance.awaiting_threshold_confirmations channel_id latest_spending_txid
          confirmation_hash confirmation_height amount_satoshis) =
      amount_satoshis
