-- ===== src/Proto/Responses.antt =====
-- The answers of ldk-server-protos/src/api.rs that hold one text.
use ldk_server.Text.{Text}

pub record OnchainReceiveResponse : Type 0 where
  pub address : Text

pub record OnchainSendResponse : Type 0 where
  pub txid : Text

pub record Bolt11ReceiveResponse : Type 0 where
  pub invoice : Text

pub record Bolt11SendResponse : Type 0 where
  pub payment_id : Text

pub record Bolt12ReceiveResponse : Type 0 where
  pub offer : Text

pub record Bolt12SendResponse : Type 0 where
  pub payment_id : Text

pub record OpenChannelResponse : Type 0 where
  pub user_channel_id : Text

pub record SpliceOutResponse : Type 0 where
  pub address : Text
