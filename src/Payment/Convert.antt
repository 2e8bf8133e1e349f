-- ===== src/Payment/Convert.antt =====
-- `payment_to_proto`, `payment_kind_to_proto`, `confirmation_status_to_proto` and
-- `forwarded_payment_to_proto` of ldk-server/src/util/proto_adapter.rs.
use ldk_server.Prelude.{ℕ, Option, some, opt_map, opt_bind}
use ldk_server.Text.Decimal.{show_nat}
use ldk_server.Payment.{
  Printers, ProtoStatus, ProtoKind, Payment, ForwardedPayment, PaymentDirection, PaymentStatus,
  inbound, outbound, pending, succeeded, failed, ConfirmationStatus, PaymentKind, PaymentDetails,
  Forwarded,
}

-- The numbers that the messages have for the two enums.
unfoldable pub direction_to_i32 : PaymentDirection → ℕ
direction_to_i32 inbound = 0
direction_to_i32 outbound = 1

unfoldable pub status_to_i32 : PaymentStatus → ℕ
status_to_i32 pending = 0
status_to_i32 succeeded = 1
status_to_i32 failed = 2

module _ (types : Printers) where
  unfoldable pub confirmation_status_to_proto : ConfirmationStatus types → ProtoStatus
  confirmation_status_to_proto (ConfirmationStatus.confirmed block_hash height timestamp) =
      ProtoStatus.confirmed (record {
        block_hash = types.show_block_hash block_hash;
        height = height;
        timestamp = timestamp;
      })
  confirmation_status_to_proto ConfirmationStatus.unconfirmed = ProtoStatus.unconfirmed

  unfoldable pub payment_kind_to_proto : PaymentKind types → ProtoKind
  unfolding confirmation_status_to_proto
  payment_kind_to_proto (PaymentKind.onchain txid status) =
      ProtoKind.onchain (types.show_txid txid) (some (confirmation_status_to_proto status))
  payment_kind_to_proto (PaymentKind.bolt11 hash preimage secret) =
      ProtoKind.bolt11 (types.show_hash hash) (opt_map types.show_preimage preimage) secret
  payment_kind_to_proto (PaymentKind.bolt11_jit hash preimage secret limits skimmed) =
      ProtoKind.bolt11_jit (types.show_hash hash) (opt_map types.show_preimage preimage) secret
        (some limits) skimmed
  payment_kind_to_proto (PaymentKind.bolt12_offer hash preimage secret offer_id note quantity) =
      ProtoKind.bolt12_offer (opt_map types.show_hash hash) (opt_map types.show_preimage preimage)
        secret (types.show_offer_id offer_id) (opt_map types.show_untrusted note) quantity
  payment_kind_to_proto (PaymentKind.bolt12_refund hash preimage secret note quantity) =
      ProtoKind.bolt12_refund (opt_map types.show_hash hash) (opt_map types.show_preimage preimage)
        secret (opt_map types.show_untrusted note) quantity
  payment_kind_to_proto (PaymentKind.spontaneous hash preimage) =
      ProtoKind.spontaneous (types.show_hash hash) (opt_map types.show_preimage preimage)

  unfoldable pub payment_to_proto : PaymentDetails types → Payment
  unfolding payment_kind_to_proto direction_to_i32 status_to_i32
  payment_to_proto payment = record {
    id = types.show_payment_id payment.id;
    kind = some (payment_kind_to_proto payment.kind);
    amount_msat = payment.amount_msat;
    fee_paid_msat = payment.fee_paid_msat;
    direction = direction_to_i32 payment.direction;
    status = status_to_i32 payment.status;
    latest_update_timestamp = payment.latest_update_timestamp;
  }

  -- `none` where the source's `expect` panics: a previous channel's user id or a node id is missing.
  unfoldable pub forwarded_payment_to_proto : Forwarded types → Option ForwardedPayment
  forwarded_payment_to_proto f = opt_bind f.prev_user_channel_id λ prev_user_channel_id.
      opt_bind f.prev_node_id λ prev_node_id. opt_bind f.next_node_id λ next_node_id. some (record {
        prev_channel_id = types.show_channel_id f.prev_channel_id;
        next_channel_id = types.show_channel_id f.next_channel_id;
        prev_user_channel_id = show_nat prev_user_channel_id;
        prev_node_id = types.show_node_id prev_node_id;
        next_node_id = types.show_node_id next_node_id;
        next_user_channel_id = opt_map show_nat f.next_user_channel_id;
        total_fee_earned_msat = f.total_fee_earned_msat;
        skimmed_fee_msat = f.skimmed_fee_msat;
        claim_from_onchain_tx = f.claim_from_onchain_tx;
        outbound_amount_forwarded_msat = f.outbound_amount_forwarded_msat;
      })
