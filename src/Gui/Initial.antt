-- ===== src/Gui/Initial.antt =====
-- The forms and the state at the start, for `Default` in ldk-server-gui/src/state.rs.
use ldk_server.Prelude.{false, none, []}
use ldk_server.Text.{lit}
use ldk_server.Gui.Config.{ChainSourceConfig}
use ldk_server.Gui.Form.{
  OpenChannelForm, Bolt11ReceiveForm, Bolt11SendForm, Bolt12ReceiveForm, Bolt12SendForm,
  OnchainSendForm, SpliceForm, UpdateChannelConfigForm, CloseChannelForm, ConnectPeerForm, Forms,
  from_config,
}
use ldk_server.Gui.State.{ConnectionStatus, ActiveTab, LightningTab, OnchainTab, no_tasks, AppState}

abbrev pub open_channel_form : OpenChannelForm
open_channel_form = record {
  node_pubkey = [];
  address = [];
  channel_amount_sats = [];
  push_to_counterparty_msat = [];
  announce_channel = false;
  forwarding_fee_proportional_millionths = [];
  forwarding_fee_base_msat = [];
  cltv_expiry_delta = [];
}

abbrev pub bolt11_receive_form : Bolt11ReceiveForm
bolt11_receive_form = record { amount_msat = []; description = []; expiry_secs = [] }

abbrev pub bolt11_send_form : Bolt11SendForm
bolt11_send_form = record { invoice = []; amount_msat = [] }

abbrev pub bolt12_receive_form : Bolt12ReceiveForm
bolt12_receive_form = record { description = []; amount_msat = []; expiry_secs = []; quantity = [] }

abbrev pub bolt12_send_form : Bolt12SendForm
bolt12_send_form = record { offer = []; amount_msat = []; quantity = []; payer_note = [] }

abbrev pub onchain_send_form : OnchainSendForm
onchain_send_form = record {
  address = [];
  amount_sats = [];
  send_all = false;
  fee_rate_sat_per_vb = [];
}

abbrev pub splice_form : SpliceForm
splice_form = record {
  user_channel_id = [];
  counterparty_node_id = [];
  splice_amount_sats = [];
  address = [];
}

abbrev pub update_channel_config_form : UpdateChannelConfigForm
update_channel_config_form = record {
  user_channel_id = [];
  counterparty_node_id = [];
  forwarding_fee_proportional_millionths = [];
  forwarding_fee_base_msat = [];
  cltv_expiry_delta = [];
}

abbrev pub close_channel_form : CloseChannelForm
close_channel_form = record {
  user_channel_id = [];
  counterparty_node_id = [];
  force_close_reason = [];
}

abbrev pub connect_peer_form : ConnectPeerForm
connect_peer_form = record { node_pubkey = []; address = []; persist = false }

abbrev pub forms : Forms
forms = record {
  open_channel = open_channel_form;
  bolt11_receive = bolt11_receive_form;
  bolt11_send = bolt11_send_form;
  bolt12_receive = bolt12_receive_form;
  bolt12_send = bolt12_send_form;
  onchain_send = onchain_send_form;
  splice_in = splice_form;
  splice_out = splice_form;
  update_channel_config = update_channel_config_form;
  close_channel = close_channel_form;
  connect_peer = connect_peer_form;
  chain_source = from_config ChainSourceConfig.no_source;
}

abbrev pub initial : AppState
initial = record {
  server_url = lit "localhost:3002";
  api_key = [];
  tls_cert_path = [];
  connection_status = ConnectionStatus.disconnected;
  client = none;
  config_file_path = none;
  network = [];
  chain_source = ChainSourceConfig.no_source;
  active_tab = ActiveTab.node_info;
  node_info = none;
  balances = none;
  channels = none;
  payments = none;
  payments_page_token = none;
  onchain_address = none;
  generated_invoice = none;
  generated_offer = none;
  last_payment_id = none;
  last_txid = none;
  last_channel_id = none;
  tasks = no_tasks;
  forms = forms;
  status_message = none;
  show_open_channel_dialog = false;
  show_close_channel_dialog = false;
  show_splice_in_dialog = false;
  show_splice_out_dialog = false;
  show_update_config_dialog = false;
  show_connect_peer_dialog = false;
  show_load_config_dialog = false;
  config_paste_text = [];
  lightning_tab = LightningTab.bolt11_send;
  onchain_tab = OnchainTab.send;
}
