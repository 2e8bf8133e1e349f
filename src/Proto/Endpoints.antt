-- ===== src/Proto/Endpoints.antt =====
-- ldk-server-protos/src/endpoints.rs: the path of each operation.
use ldk_server.Text.{Text, lit}

pub data Endpoint : Type 0 where
  get_node_info get_balances onchain_receive onchain_send : Endpoint
  bolt11_receive bolt11_send bolt12_receive bolt12_send : Endpoint
  open_channel splice_in splice_out close_channel force_close_channel : Endpoint
  list_channels list_payments list_forwarded_payments update_channel_config : Endpoint
  get_payment_details connect_peer list_peers : Endpoint

-- The constants `GET_NODE_INFO_PATH` to `LIST_PEERS_PATH`.
unfoldable pub endpoint_path : Endpoint → Text
endpoint_path get_node_info = lit "GetNodeInfo"
endpoint_path get_balances = lit "GetBalances"
endpoint_path onchain_receive = lit "OnchainReceive"
endpoint_path onchain_send = lit "OnchainSend"
endpoint_path bolt11_receive = lit "Bolt11Receive"
endpoint_path bolt11_send = lit "Bolt11Send"
endpoint_path bolt12_receive = lit "Bolt12Receive"
endpoint_path bolt12_send = lit "Bolt12Send"
endpoint_path open_channel = lit "OpenChannel"
endpoint_path splice_in = lit "SpliceIn"
endpoint_path splice_out = lit "SpliceOut"
endpoint_path close_channel = lit "CloseChannel"
endpoint_path force_close_channel = lit "ForceCloseChannel"
endpoint_path list_channels = lit "ListChannels"
endpoint_path list_payments = lit "ListPayments"
endpoint_path list_forwarded_payments = lit "ListForwardedPayments"
endpoint_path update_channel_config = lit "UpdateChannelConfig"
endpoint_path get_payment_details = lit "GetPaymentDetails"
endpoint_path connect_peer = lit "ConnectPeer"
endpoint_path list_peers = lit "ListPeers"
