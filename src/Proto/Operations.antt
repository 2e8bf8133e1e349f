-- ===== src/Proto/Operations.antt =====
-- What a client may ask for: the methods of ldk-server-client/src/client.rs, and the handlers that
-- ldk-server/src/service.rs names, by their names.
pub data Operation : Type 0 where
  get_node_info get_balances onchain_receive onchain_send : Operation
  bolt11_receive bolt11_send bolt12_receive bolt12_send : Operation
  open_channel splice_in splice_out close_channel force_close_channel : Operation
  list_channels list_payments list_forwarded_payments update_channel_config : Operation
  get_payment_details connect_peer list_peers : Operation
