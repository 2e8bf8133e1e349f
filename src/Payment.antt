-- ===== src/Payment.antt =====
-- The payment messages of ldk-server-protos/src/types.rs, and their making from ldk-node's payments in
-- ldk-server/src/util/proto_adapter.rs.
pub mod Convert
use ldk_server.Prelude.{ℕ, Bool, Option, List}
use ldk_server.Text.{Text}

-- The types of ldk-node that are printed into messages, with their printers. Secrets are copied as
-- bytes.
pub record Printers : Type 1 where
  pub PaymentId : Type 0
  pub Txid : Type 0
  pub BlockHash : Type 0
  pub PaymentHash : Type 0
  pub PaymentPreimage : Type 0
  pub OfferId : Type 0
  pub UntrustedString : Type 0
  pub ChannelId : Type 0
  pub NodeId : Type 0
  pub show_payment_id : PaymentId → Text
  pub show_txid : Txid → Text
  pub show_block_hash : BlockHash → Text
  pub show_hash : PaymentHash → Text
  pub show_preimage : PaymentPreimage → Text
  pub show_offer_id : OfferId → Text
  pub show_untrusted : UntrustedString → Text
  pub show_channel_id : ChannelId → Text
  pub show_node_id : NodeId → Text

-- The messages.
pub record Confirmed : Type 0 where
  pub block_hash : Text
  pub height : ℕ
  pub timestamp : ℕ

-- `confirmation_status::Status`
pub data ProtoStatus : Type 0 where
  confirmed : Confirmed → ProtoStatus
  unconfirmed : ProtoStatus

pub record LspFeeLimits : Type 0 where
  pub max_total_opening_fee_msat : Option ℕ
  pub max_proportional_opening_fee_ppm_msat : Option ℕ

-- `payment_kind::Kind`, each case with the fields of its message in their order
pub data ProtoKind : Type 0 where
  onchain : Text → Option ProtoStatus → ProtoKind
  bolt11 : Text → Option Text → Option (List ℕ) → ProtoKind
  bolt11_jit : Text → Option Text → Option (List ℕ) → Option LspFeeLimits → Option ℕ → ProtoKind
  bolt12_offer :
      Option Text → Option Text → Option (List ℕ) → Text → Option Text → Option ℕ → ProtoKind
  bolt12_refund : Option Text → Option Text → Option (List ℕ) → Option Text → Option ℕ → ProtoKind
  spontaneous : Text → Option Text → ProtoKind

pub record Payment : Type 0 where
  pub id : Text
  pub kind : Option ProtoKind
  pub amount_msat : Option ℕ
  pub fee_paid_msat : Option ℕ
  pub direction : ℕ
  pub status : ℕ
  pub latest_update_timestamp : ℕ

pub record ForwardedPayment : Type 0 where
  pub prev_channel_id : Text
  pub next_channel_id : Text
  pub prev_user_channel_id : Text
  pub prev_node_id : Text
  pub next_node_id : Text
  pub next_user_channel_id : Option Text
  pub total_fee_earned_msat : Option ℕ
  pub skimmed_fee_msat : Option ℕ
  pub claim_from_onchain_tx : Bool
  pub outbound_amount_forwarded_msat : Option ℕ

-- ldk-node's enums
pub data PaymentDirection : Type 0 where
  inbound outbound : PaymentDirection

pub data PaymentStatus : Type 0 where
  pending succeeded failed : PaymentStatus

module _ (types : Printers) where
  open types use {
    PaymentId, Txid, BlockHash, PaymentHash, PaymentPreimage, OfferId, UntrustedString, ChannelId,
    NodeId,
  }

  pub data ConfirmationStatus : Type 0 where
    confirmed : BlockHash → ℕ → ℕ → ConfirmationStatus
    unconfirmed : ConfirmationStatus

  -- ldk-node's `PaymentKind`
  pub data PaymentKind : Type 0 where
    onchain : Txid → ConfirmationStatus → PaymentKind
    bolt11 : PaymentHash → Option PaymentPreimage → Option (List ℕ) → PaymentKind
    bolt11_jit :
        PaymentHash
        → Option PaymentPreimage
        → Option (List ℕ)
        → LspFeeLimits
        → Option ℕ
        → PaymentKind
    bolt12_offer :
        Option PaymentHash
        → Option PaymentPreimage
        → Option (List ℕ)
        → OfferId
        → Option UntrustedString
        → Option ℕ
        → PaymentKind
    bolt12_refund :
        Option PaymentHash
        → Option PaymentPreimage
        → Option (List ℕ)
        → Option UntrustedString
        → Option ℕ
        → PaymentKind
    spontaneous : PaymentHash → Option PaymentPreimage → PaymentKind

  -- ldk-node's `PaymentDetails`
  pub record PaymentDetails : Type 0 where
    pub id : PaymentId
    pub kind : PaymentKind
    pub amount_msat : Option ℕ
    pub fee_paid_msat : Option ℕ
    pub direction : PaymentDirection
    pub status : PaymentStatus
    pub latest_update_timestamp : ℕ

  -- the fields of `Event::PaymentForwarded`
  pub record Forwarded : Type 0 where
    pub prev_channel_id : ChannelId
    pub next_channel_id : ChannelId
    pub prev_user_channel_id : Option ℕ
    pub next_user_channel_id : Option ℕ
    pub prev_node_id : Option NodeId
    pub next_node_id : Option NodeId
    pub total_fee_earned_msat : Option ℕ
    pub skimmed_fee_msat : Option ℕ
    pub claim_from_onchain_tx : Bool
    pub outbound_amount_forwarded_msat : Option ℕ
