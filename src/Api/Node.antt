-- ===== src/Api/Node.antt =====
-- What the handlers call of ldk-node and its dependencies, which are not part of the repository: the
-- node with its operations, and the parsers and printers of its types. `Node` is the node's state;
-- an operation returns the node as it leaves it, also when it fails.
use ldk_server.Prelude.{ℕ, Bool, Option, List, Result}
use ldk_server.Text.{Text}
use ldk_server.Api.Error.{NodeError}
use ldk_server.Api.ChannelConfig.{ChannelConfig}

-- `RouteParametersConfig` of LDK, its last two fields being `u8`
pub record RouteParametersConfig : Type 0 where
  pub max_total_routing_fee_msat : Option ℕ
  pub max_total_cltv_expiry_delta : ℕ
  pub max_path_count : ℕ
  pub max_channel_saturation_power_of_half : ℕ

-- `Bolt11InvoiceDescription` of LDK, over its `Description` and a hash of 32 bytes
pub data Bolt11InvoiceDescription (D : Type 0) : Type 0 where
  direct : D → Bolt11InvoiceDescription D
  hash : List ℕ → Bolt11InvoiceDescription D

pub record Ldk : Type 1 where
  pub Node : Type 0
  pub PublicKey : Type 0
  pub SocketAddress : Type 0
  -- `Address<NetworkUnchecked>` and `Address`
  pub UncheckedAddress : Type 0
  pub Address : Type 0
  pub FeeRate : Type 0
  pub Bolt11Invoice : Type 0
  pub Offer : Type 0
  pub Description : Type 0
  -- the parsers, with the errors that the handlers print
  pub public_key_from_str : Text → Result PublicKey Text
  pub socket_address_from_str : Text → Option SocketAddress
  pub address_from_str : Text → Option UncheckedAddress
  pub require_network : UncheckedAddress → Node → Option Address
  pub fee_rate_from_sat_per_vb : ℕ → Option FeeRate
  pub bolt11_invoice_from_str : Text → Option Bolt11Invoice
  pub offer_from_str : Text → Option Offer
  pub description_new : Text → Result Description Text
  pub hash_from_hex : Text → Option (List ℕ)
  -- `to_string`
  pub show_error : NodeError → Text
  pub show_address : Address → Text
  pub show_invoice : Bolt11Invoice → Text
  pub show_offer : Offer → Text
  -- channels; channel ids are `u128`
  pub close_channel : ℕ → PublicKey → Node → Result (Unit {0}) NodeError × Node
  pub force_close_channel : ℕ → PublicKey → Option Text → Node → Result (Unit {0}) NodeError × Node
  pub splice_in : ℕ → PublicKey → ℕ → Node → Result (Unit {0}) NodeError × Node
  pub splice_out : ℕ → PublicKey → Address → ℕ → Node → Result (Unit {0}) NodeError × Node
  pub open_channel :
      PublicKey
      → SocketAddress
      → ℕ
      → Option ℕ
      → Option ChannelConfig
      → Node
      → Result ℕ NodeError × Node
  pub open_announced_channel :
      PublicKey
      → SocketAddress
      → ℕ
      → Option ℕ
      → Option ChannelConfig
      → Node
      → Result ℕ NodeError × Node
  pub update_channel_config :
      ℕ → PublicKey → ChannelConfig → Node → Result (Unit {0}) NodeError × Node
  -- `list_channels`, as far as the update looks at it: id and configuration
  pub channel_configs : Node → List (ℕ × ChannelConfig)
  pub default_channel_config : ChannelConfig
  pub connect : PublicKey → SocketAddress → Bool → Node → Result (Unit {0}) NodeError × Node
  -- payments; payment and transaction ids are returned as they are printed
  pub new_address : Node → Result Address NodeError × Node
  pub send_to_address : Address → ℕ → Option FeeRate → Node → Result Text NodeError × Node
  pub send_all_to_address : Address → Bool → Option FeeRate → Node → Result Text NodeError × Node
  pub bolt11_receive :
      ℕ → Bolt11InvoiceDescription Description → ℕ → Node → Result Bolt11Invoice NodeError × Node
  pub bolt11_receive_variable_amount :
      Bolt11InvoiceDescription Description → ℕ → Node → Result Bolt11Invoice NodeError × Node
  pub bolt11_send :
      Bolt11Invoice → Option RouteParametersConfig → Node → Result Text NodeError × Node
  pub bolt11_send_using_amount :
      Bolt11Invoice → ℕ → Option RouteParametersConfig → Node → Result Text NodeError × Node
  pub bolt12_receive : ℕ → Text → Option ℕ → Option ℕ → Node → Result Offer NodeError × Node
  pub bolt12_receive_variable_amount : Text → Option ℕ → Node → Result Offer NodeError × Node
  pub bolt12_send :
      Offer
      → Option ℕ
      → Option Text
      → Option RouteParametersConfig
      → Node
      → Result Text NodeError × Node
  pub bolt12_send_using_amount :
      Offer
      → ℕ
      → Option ℕ
      → Option Text
      → Option RouteParametersConfig
      → Node
      → Result Text NodeError × Node
