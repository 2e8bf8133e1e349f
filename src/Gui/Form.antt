-- ===== src/Gui/Form.antt =====
-- The forms of ldk-server-gui/src/state.rs.
use ldk_server.Prelude.{Bool, []}
use ldk_server.Text.{Text}
use ldk_server.Gui.Config.{ChainSourceType, ChainSourceConfig}

-- The forms hold what is typed.
pub record OpenChannelForm : Type 0 where
  pub node_pubkey : Text
  pub address : Text
  pub channel_amount_sats : Text
  pub push_to_counterparty_msat : Text
  pub announce_channel : Bool
  pub forwarding_fee_proportional_millionths : Text
  pub forwarding_fee_base_msat : Text
  pub cltv_expiry_delta : Text

pub record Bolt11ReceiveForm : Type 0 where
  pub amount_msat : Text
  pub description : Text
  pub expiry_secs : Text

pub record Bolt11SendForm : Type 0 where
  pub invoice : Text
  pub amount_msat : Text

pub record Bolt12ReceiveForm : Type 0 where
  pub description : Text
  pub amount_msat : Text
  pub expiry_secs : Text
  pub quantity : Text

pub record Bolt12SendForm : Type 0 where
  pub offer : Text
  pub amount_msat : Text
  pub quantity : Text
  pub payer_note : Text

pub record OnchainSendForm : Type 0 where
  pub address : Text
  pub amount_sats : Text
  pub send_all : Bool
  pub fee_rate_sat_per_vb : Text

pub record SpliceForm : Type 0 where
  pub user_channel_id : Text
  pub counterparty_node_id : Text
  pub splice_amount_sats : Text
  pub address : Text

pub record UpdateChannelConfigForm : Type 0 where
  pub user_channel_id : Text
  pub counterparty_node_id : Text
  pub forwarding_fee_proportional_millionths : Text
  pub forwarding_fee_base_msat : Text
  pub cltv_expiry_delta : Text

pub record CloseChannelForm : Type 0 where
  pub user_channel_id : Text
  pub counterparty_node_id : Text
  pub force_close_reason : Text

pub record ConnectPeerForm : Type 0 where
  pub node_pubkey : Text
  pub address : Text
  pub persist : Bool

pub record ChainSourceForm : Type 0 where
  pub source_type : ChainSourceType
  pub btc_rpc_address : Text
  pub btc_rpc_user : Text
  pub btc_rpc_password : Text
  pub server_url : Text

unfoldable pub from_config : ChainSourceConfig → ChainSourceForm
from_config ChainSourceConfig.no_source = record {
  source_type = ChainSourceType.no_source;
  btc_rpc_address = [];
  btc_rpc_user = [];
  btc_rpc_password = [];
  server_url = [];
}
from_config (ChainSourceConfig.bitcoind rpc_address rpc_user rpc_password) = record {
  source_type = ChainSourceType.bitcoind;
  btc_rpc_address = rpc_address;
  btc_rpc_user = rpc_user;
  btc_rpc_password = rpc_password;
  server_url = [];
}
from_config (ChainSourceConfig.electrum server_url) = record {
  source_type = ChainSourceType.electrum;
  btc_rpc_address = [];
  btc_rpc_user = [];
  btc_rpc_password = [];
  server_url = server_url;
}
from_config (ChainSourceConfig.esplora server_url) = record {
  source_type = ChainSourceType.esplora;
  btc_rpc_address = [];
  btc_rpc_user = [];
  btc_rpc_password = [];
  server_url = server_url;
}

unfoldable pub to_config : ChainSourceForm → ChainSourceConfig
to_config form = elim form.source_type [
  | ChainSourceType.no_source ↦ ChainSourceConfig.no_source
  | ChainSourceType.bitcoind ↦
      ChainSourceConfig.bitcoind form.btc_rpc_address form.btc_rpc_user form.btc_rpc_password
  | ChainSourceType.electrum ↦ ChainSourceConfig.electrum form.server_url
  | ChainSourceType.esplora ↦ ChainSourceConfig.esplora form.server_url
]

pub record Forms : Type 0 where
  pub open_channel : OpenChannelForm
  pub bolt11_receive : Bolt11ReceiveForm
  pub bolt11_send : Bolt11SendForm
  pub bolt12_receive : Bolt12ReceiveForm
  pub bolt12_send : Bolt12SendForm
  pub onchain_send : OnchainSendForm
  pub splice_in : SpliceForm
  pub splice_out : SpliceForm
  pub update_channel_config : UpdateChannelConfigForm
  pub close_channel : CloseChannelForm
  pub connect_peer : ConnectPeerForm
  pub chain_source : ChainSourceForm
