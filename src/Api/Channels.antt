-- ===== src/Api/Channels.antt =====
-- The channel and peer handlers: close_channel.rs, splice_channel.rs, open_channel.rs,
-- update_channel_config.rs and connect_peer.rs of ldk-server/src/api.
pub mod Laws
use ldk_server.Prelude.{
  ℕ, Bool, true, false, Option, none, some, List, ◌++◌, Result, ok, err, ok_or, opt_map, map_err,
  transpose, find?, ◌==◌, if◌then◌else◌, opt_bind,
}
use ldk_server.Text.{Text, lit}
use ldk_server.Text.Decimal.{show_nat, parse_unsigned, u128_max}
use ldk_server.Api.Error.{
  LdkServerError, new, invalid_request_error, lightning_error, invalid_public_key,
  invalid_socket_address, invalid_address, from_node_error,
}
use ldk_server.Api.Act.{Act, pure, lift, node_call, node_call_or, ◌>>=◌, ◌>>◌}
use ldk_server.Api.ChannelConfig.{
  ChannelConfig, ProtoChannelConfig, build_channel_config_from_proto,
}
use ldk_server.Api.Node.{Ldk}

pub record CloseChannelRequest : Type 0 where
  pub user_channel_id : Text
  pub counterparty_node_id : Text

pub record ForceCloseChannelRequest : Type 0 where
  pub user_channel_id : Text
  pub counterparty_node_id : Text
  pub force_close_reason : Option Text

pub record SpliceInRequest : Type 0 where
  pub user_channel_id : Text
  pub counterparty_node_id : Text
  pub splice_amount_sats : ℕ

pub record SpliceOutRequest : Type 0 where
  pub user_channel_id : Text
  pub counterparty_node_id : Text
  pub address : Option Text
  pub splice_amount_sats : ℕ

pub record OpenChannelRequest : Type 0 where
  pub node_pubkey : Text
  pub address : Text
  pub channel_amount_sats : ℕ
  pub push_to_counterparty_msat : Option ℕ
  pub channel_config : Option ProtoChannelConfig
  pub announce_channel : Bool

pub record UpdateChannelConfigRequest : Type 0 where
  pub user_channel_id : Text
  pub counterparty_node_id : Text
  pub channel_config : Option ProtoChannelConfig

pub record ConnectPeerRequest : Type 0 where
  pub node_pubkey : Text
  pub address : Text
  pub persist : Bool

-- `parse_user_channel_id`
unfoldable pub parse_user_channel_id : Text → Result ℕ LdkServerError
parse_user_channel_id id =
    ok_or (parse_unsigned u128_max id) (new invalid_request_error (lit "Invalid UserChannelId."))

module _ (ldk : Ldk) where
  open ldk use {Node, PublicKey, Address}

  -- `parse_counterparty_node_id`
  unfoldable pub parse_counterparty_node_id : Text → Result PublicKey LdkServerError
  parse_counterparty_node_id id =
      map_err (λ e. new invalid_request_error (lit "Invalid counterparty node ID, error: " ++ e))
        (ldk.public_key_from_str id)

  -- `handle_close_channel_request`
  unfoldable pub handle_close_channel_request : CloseChannelRequest → Act Node (Unit {0})
  unfolding parse_user_channel_id parse_counterparty_node_id
  handle_close_channel_request request = do
    user_channel_id ← lift (parse_user_channel_id request.user_channel_id)
    counterparty_node_id ← lift (parse_counterparty_node_id request.counterparty_node_id)
    node_call ldk.show_error (ldk.close_channel user_channel_id counterparty_node_id)

  -- `handle_force_close_channel_request`
  unfoldable pub handle_force_close_channel_request : ForceCloseChannelRequest → Act Node (Unit {0})
  unfolding parse_user_channel_id parse_counterparty_node_id
  handle_force_close_channel_request request = do
    user_channel_id ← lift (parse_user_channel_id request.user_channel_id)
    counterparty_node_id ← lift (parse_counterparty_node_id request.counterparty_node_id)
    node_call ldk.show_error
        (ldk.force_close_channel user_channel_id counterparty_node_id request.force_close_reason)

  -- `handle_splice_in_request`
  unfoldable pub handle_splice_in_request : SpliceInRequest → Act Node (Unit {0})
  unfolding parse_user_channel_id parse_counterparty_node_id
  handle_splice_in_request request = do
    user_channel_id ← lift (parse_user_channel_id request.user_channel_id)
    counterparty_node_id ← lift (parse_counterparty_node_id request.counterparty_node_id)
    node_call ldk.show_error
        (ldk.splice_in user_channel_id counterparty_node_id request.splice_amount_sats)

  -- The address of a splice out: the request's, checked for the node's network, or a new one.
  splice_address : Option Text → Act Node Address
  splice_address (some text) s = (
    ok_or (opt_bind (ldk.address_from_str text) (λ a. ldk.require_network a s))
        (new invalid_request_error (lit "Address is not valid for the configured network.")),
    s,
  )
  splice_address none s =
      node_call_or
        (λ _. new invalid_request_error (lit "Address is not valid for the configured network."))
        ldk.new_address s

  -- `handle_splice_out_request`; the response is the address.
  unfoldable pub handle_splice_out_request : SpliceOutRequest → Act Node Text
  unfolding parse_user_channel_id parse_counterparty_node_id splice_address
  handle_splice_out_request request = do
    user_channel_id ← lift (parse_user_channel_id request.user_channel_id)
    counterparty_node_id ← lift (parse_counterparty_node_id request.counterparty_node_id)
    address ← splice_address request.address
    node_call ldk.show_error
        (ldk.splice_out user_channel_id counterparty_node_id address request.splice_amount_sats)
    pure (ldk.show_address address)

  -- `handle_open_channel`; the response is the new channel's id, printed.
  unfoldable pub handle_open_channel : OpenChannelRequest → Act Node Text
  handle_open_channel request = do
    node_id ← lift (
        map_err (λ _. from_node_error ldk.show_error invalid_public_key)
          (ldk.public_key_from_str request.node_pubkey))
    address ← lift (
        ok_or (ldk.socket_address_from_str request.address)
          (from_node_error ldk.show_error invalid_socket_address))
    channel_config ← lift (
        transpose (
          opt_map (build_channel_config_from_proto ldk.default_channel_config)
            request.channel_config))
    user_channel_id ← node_call ldk.show_error (
        if request.announce_channel
        then ldk.open_announced_channel node_id address request.channel_amount_sats
            request.push_to_counterparty_msat channel_config
        else ldk.open_channel node_id address request.channel_amount_sats
            request.push_to_counterparty_msat channel_config)
    pure (show_nat user_channel_id)

  -- `handle_update_channel_config_request`
  unfoldable pub handle_update_channel_config_request :
      UpdateChannelConfigRequest → Act Node (Unit {0})
  handle_update_channel_config_request request s =
      (do
        user_channel_id ← lift (
            ok_or (parse_unsigned u128_max request.user_channel_id)
              (new invalid_request_error (lit "Invalid UserChannelId.")))
        current ← lift (
            ok_or
              (find? (λ (c : ℕ × ChannelConfig). c.0 == user_channel_id) (ldk.channel_configs s))
              (new invalid_request_error (lit "Channel not found for given user_channel_id.")))
        channel_config ← lift (
            ok_or request.channel_config
              (new invalid_request_error (lit "Channel config must be provided.")))
        updated_channel_config ← lift (build_channel_config_from_proto current.1 channel_config)
        counterparty_node_id ← lift (
            map_err
              (λ e. new invalid_request_error (lit "Invalid counterparty node id, error " ++ e))
              (ldk.public_key_from_str request.counterparty_node_id))
        node_call_or
            (λ e. new lightning_error (lit "Failed to update channel config: " ++ ldk.show_error e))
            (ldk.update_channel_config user_channel_id counterparty_node_id updated_channel_config))
        s

  -- `handle_connect_peer_request`
  unfoldable pub handle_connect_peer_request : ConnectPeerRequest → Act Node (Unit {0})
  handle_connect_peer_request request = do
    node_id ← lift (
        map_err (λ _. from_node_error ldk.show_error invalid_public_key)
          (ldk.public_key_from_str request.node_pubkey))
    address ← lift (
        ok_or (ldk.socket_address_from_str request.address)
          (from_node_error ldk.show_error invalid_socket_address))
    node_call ldk.show_error (ldk.connect node_id address request.persist)
