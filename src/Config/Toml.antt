-- ===== src/Config/Toml.antt =====
-- The configuration file of ldk-server/src/util/config.rs as serde reads it.
use ldk_server.Prelude.{ℕ, Bool, Option, List}
use ldk_server.Text.{Text}

-- bitcoin's `Network`
pub data Network : Type 0 where
  bitcoin testnet testnet4 signet regtest : Network

pub record NodeConfig : Type 0 where
  pub network : Network
  pub listening_addresses : Option (List Text)
  pub announcement_addresses : Option (List Text)
  pub rest_service_address : Text
  pub alias : Option Text

pub record DiskConfig : Type 0 where
  pub dir_path : Option Text

pub record StorageConfig : Type 0 where
  pub disk : Option DiskConfig

pub record BitcoindConfig : Type 0 where
  pub rpc_address : Text
  pub rpc_user : Text
  pub rpc_password : Text

pub record ElectrumConfig : Type 0 where
  pub server_url : Text

pub record EsploraConfig : Type 0 where
  pub server_url : Text

pub record LogConfig : Type 0 where
  pub level : Option Text
  pub file : Option Text

pub record RabbitmqConfig : Type 0 where
  pub connection_string : Text
  pub exchange_name : Text

pub record TomlTlsConfig : Type 0 where
  pub cert_path : Option Text
  pub key_path : Option Text
  pub hosts : Option (List Text)

pub record Lsps2ServiceTomlConfig : Type 0 where
  pub advertise_service : Bool
  pub channel_opening_fee_ppm : ℕ
  pub channel_over_provisioning_ppm : ℕ
  pub min_channel_opening_fee_msat : ℕ
  pub min_channel_lifetime : ℕ
  pub max_client_to_self_delay : ℕ
  pub min_payment_size_msat : ℕ
  pub max_payment_size_msat : ℕ
  pub client_trusts_lsp : Bool
  pub require_token : Option Text

pub record LiquidityConfig : Type 0 where
  pub lsps2_service : Option Lsps2ServiceTomlConfig

pub record TomlConfig : Type 0 where
  pub node : NodeConfig
  pub storage : Option StorageConfig
  pub bitcoind : Option BitcoindConfig
  pub electrum : Option ElectrumConfig
  pub esplora : Option EsploraConfig
  pub rabbitmq : Option RabbitmqConfig
  pub liquidity : Option LiquidityConfig
  pub log : Option LogConfig
  pub tls : Option TomlTlsConfig
