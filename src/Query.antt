-- ===== src/Query.antt =====
-- The handlers that only read the node: get_node_info.rs, get_balances.rs, list_channels.rs,
-- list_peers.rs and get_payment_details.rs of ldk-server/src/api.
pub mod Balance
pub mod Amounts
pub mod Channels
pub mod Laws
use ldk_server.Prelude.{
  ℕ, Bool, Option, none, some, List, ◌∷◌, ◌++◌, Result, ok, err, ◌>>=◌, ok_or, opt_map, map,
}
use ldk_server.Text.{Text, lit}
use ldk_server.Api.Error.{LdkServerError, new, invalid_request_error}
use ldk_server.Payment.{Printers, Payment, PaymentDetails}
use ldk_server.Payment.Convert.{payment_to_proto}
use ldk_server.Query.Balance.{
  LightningBalance, PendingSweepBalance, ProtoLightningBalance, ProtoPendingSweepBalance,
  lightning_balance_to_proto, pending_sweep_balance_to_proto,
}
use ldk_server.Query.Channels.{Channel, ChannelDetails, channel_to_proto}

-- The messages of api.rs.
pub record ProtoBestBlock : Type 0 where
  pub block_hash : Text
  pub height : ℕ

pub record GetNodeInfoResponse : Type 0 where
  pub node_id : Text
  pub current_best_block : Option ProtoBestBlock
  pub latest_lightning_wallet_sync_timestamp : Option ℕ
  pub latest_onchain_wallet_sync_timestamp : Option ℕ
  pub latest_fee_rate_cache_update_timestamp : Option ℕ
  pub latest_rgs_snapshot_timestamp : Option ℕ
  pub latest_node_announcement_broadcast_timestamp : Option ℕ

pub record GetBalancesResponse : Type 0 where
  pub total_onchain_balance_sats : ℕ
  pub spendable_onchain_balance_sats : ℕ
  pub total_anchor_channels_reserve_sats : ℕ
  pub total_lightning_balance_sats : ℕ
  pub lightning_balances : List ProtoLightningBalance
  pub pending_balances_from_channel_closures : List ProtoPendingSweepBalance

pub record ListChannelsResponse : Type 0 where
  pub channels : List Channel

pub record GetPaymentDetailsRequest : Type 0 where
  pub payment_id : Text

pub record GetPaymentDetailsResponse : Type 0 where
  pub payment : Option Payment

pub record ProtoPeerDetails : Type 0 where
  pub node_id : Text
  pub address : Text
  pub is_persisted : Bool
  pub is_connected : Bool

pub record ListPeersResponse : Type 0 where
  pub peers : List ProtoPeerDetails

-- What ldk-node answers, with the fields that are read.
pub record BestBlock (types : Printers) : Type 0 where
  pub block_hash : types.BlockHash
  pub height : ℕ

pub record NodeStatus (types : Printers) : Type 0 where
  pub current_best_block : BestBlock types
  pub latest_lightning_wallet_sync_timestamp : Option ℕ
  pub latest_onchain_wallet_sync_timestamp : Option ℕ
  pub latest_fee_rate_cache_update_timestamp : Option ℕ
  pub latest_rgs_snapshot_timestamp : Option ℕ
  pub latest_node_announcement_broadcast_timestamp : Option ℕ

pub record BalanceDetails (types : Printers) : Type 0 where
  pub total_onchain_balance_sats : ℕ
  pub spendable_onchain_balance_sats : ℕ
  pub total_anchor_channels_reserve_sats : ℕ
  pub total_lightning_balance_sats : ℕ
  pub lightning_balances : List (LightningBalance types)
  pub pending_balances_from_channel_closures : List (PendingSweepBalance types)

pub record PeerDetails (types : Printers) : Type 0 where
  pub node_id : types.NodeId
  -- the socket address, printed
  pub address : Text
  pub is_persisted : Bool
  pub is_connected : Bool

-- A node in one state, and the reading and printing of ids as hexadecimal bytes.
pub record View (types : Printers) : Type 0 where
  pub status : NodeStatus types
  pub node_id : types.NodeId
  pub list_balances : BalanceDetails types
  pub list_channels : List (ChannelDetails types)
  pub list_peers : List (PeerDetails types)
  pub payment : types.PaymentId → Option (PaymentDetails types)
  pub payment_id_from_hex : Text → Option types.PaymentId
  pub channel_hex : types.ChannelId → Text

module _ {types : Printers} (node : View types) where
  unfoldable pub handle_get_node_info_request : Result GetNodeInfoResponse LdkServerError
  handle_get_node_info_request =
      let s = node.status in
      ok (record {
        node_id = types.show_node_id node.node_id;
        current_best_block = some (record {
          block_hash = types.show_block_hash s.current_best_block.block_hash;
          height = s.current_best_block.height;
        });
        latest_lightning_wallet_sync_timestamp = s.latest_lightning_wallet_sync_timestamp;
        latest_onchain_wallet_sync_timestamp = s.latest_onchain_wallet_sync_timestamp;
        latest_fee_rate_cache_update_timestamp = s.latest_fee_rate_cache_update_timestamp;
        latest_rgs_snapshot_timestamp = s.latest_rgs_snapshot_timestamp;
        latest_node_announcement_broadcast_timestamp =
            s.latest_node_announcement_broadcast_timestamp;
      })

  unfoldable pub handle_get_balances_request : Result GetBalancesResponse LdkServerError
  handle_get_balances_request =
      let b = node.list_balances in
      ok (record {
        total_onchain_balance_sats = b.total_onchain_balance_sats;
        spendable_onchain_balance_sats = b.spendable_onchain_balance_sats;
        total_anchor_channels_reserve_sats = b.total_anchor_channels_reserve_sats;
        total_lightning_balance_sats = b.total_lightning_balance_sats;
        lightning_balances =
            map (lightning_balance_to_proto types node.channel_hex) b.lightning_balances;
        pending_balances_from_channel_closures =
            map (pending_sweep_balance_to_proto types node.channel_hex)
              b.pending_balances_from_channel_closures;
      })

  unfoldable pub handle_list_channels_request : Result ListChannelsResponse LdkServerError
  handle_list_channels_request =
      ok (record { channels = map (channel_to_proto types node.channel_hex) node.list_channels })

  abbrev peer_to_proto : PeerDetails types → ProtoPeerDetails
  peer_to_proto peer = record {
    node_id = types.show_node_id peer.node_id;
    address = peer.address;
    is_persisted = peer.is_persisted;
    is_connected = peer.is_connected;
  }

  unfoldable pub handle_list_peers_request : Result ListPeersResponse LdkServerError
  handle_list_peers_request = ok (record { peers = map peer_to_proto node.list_peers })

  unfoldable pub handle_get_payment_details_request :
      GetPaymentDetailsRequest → Result GetPaymentDetailsResponse LdkServerError
  handle_get_payment_details_request request =
      ok_or (node.payment_id_from_hex request.payment_id)
        (new invalid_request_error (lit "Invalid payment_id, must be a 32-byte hex-string."))
      >>= λ payment_id.
          ok (record { payment = opt_map (payment_to_proto types) (node.payment payment_id) })
