-- ===== src/Config.antt =====
-- ldk-server/src/util/config.rs: the daemon's configuration, made from the TOML file and checked.
pub mod Toml
pub mod Laws
pub mod Load
use ldk_server.Prelude.{
  ℕ, zero, suc, ◌-◌, Bool, true, false, ◌&&◌, ◌||◌, Option, none, some, List, [], ◌∷◌, ◌++◌, Result,
  ok, err, ◌>>=◌, map_err, ok_or, transpose, map, opt_map, opt_bind, unwrap_or, if◌then◌else◌, ltb,
  length,
}
use ldk_server.Text.{Text, lit, is_empty}
use ldk_server.Text.Trim.{trim}
use ldk_server.Storage.Namespace.{IoError, invalid_input, invalid_data}
use ldk_server.Files.{Files, Disk, read_to_string}
use ldk_server.Tls.{TlsConfig}
use ldk_server.Config.Toml.{
  Network, NodeConfig, StorageConfig, BitcoindConfig, LogConfig, RabbitmqConfig, TomlTlsConfig,
  Lsps2ServiceTomlConfig, LiquidityConfig, TomlConfig,
}

-- ldk-node's configuration of the liquidity service
pub record Lsps2ServiceConfig : Type 0 where
  pub advertise_service : Bool
  pub channel_opening_fee_ppm : ℕ
  pub channel_over_provisioning_ppm : ℕ
  pub min_channel_opening_fee_msat : ℕ
  pub min_channel_lifetime : ℕ
  pub min_payment_size_msat : ℕ
  pub max_client_to_self_delay : ℕ
  pub max_payment_size_msat : ℕ
  pub client_trusts_lsp : Bool
  pub require_token : Option Text

-- The types of the crates that are read from texts, each parser with its error as it is printed, and
-- the features that the daemon is built with.
pub record Parsers : Type 1 where
  pub SocketAddress : Type 0
  pub SocketAddr : Type 0
  pub LevelFilter : Type 0
  pub socket_address : Text → Result SocketAddress Text
  pub socket_addr : Text → Result SocketAddr Text
  pub level_filter : Text → Result LevelFilter Text
  pub debug : LevelFilter
  pub events_rabbitmq : Bool
  pub experimental_lsps2_support : Bool

pub data ChainSource (env : Parsers) : Type 0 where
  rpc : env.SocketAddr → Text → Text → ChainSource env
  electrum : Text → ChainSource env
  esplora : Text → ChainSource env

pub record Config (env : Parsers) : Type 0 where
  pub listening_addrs : Option (List env.SocketAddress)
  pub announcement_addrs : Option (List env.SocketAddress)
  pub alias : Option (List ℕ)
  pub network : Network
  pub tls_config : Option TlsConfig
  pub rest_service_addr : env.SocketAddr
  pub storage_dir_path : Option Text
  pub chain_source : ChainSource env
  pub rabbitmq_connection_string : Text
  pub rabbitmq_exchange_name : Text
  pub lsps2_service_config : Option Lsps2ServiceConfig
  pub log_level : env.LevelFilter
  pub log_file_path : Option Text

-- `io::Error::new(io::ErrorKind::InvalidInput, …)`
abbrev pub bad_input : Text → IoError
bad_input m = record { kind = invalid_input; message = m }

-- `collect` of results into one
abbrev pub collect : {A E : Type 0} → List (Result A E) → Result (List A) E
collect [] = ok []
collect (r ∷ rs) = r >>= λ a. collect rs >>= λ more. ok (a ∷ more)

-- `NodeAlias`: the trimmed bytes, and zeros up to 32.
abbrev pub zeros : ℕ → List ℕ
zeros zero = []
zeros (suc n) = 0 ∷ zeros n

unfoldable pub node_alias : Option Text → Result (Option (List ℕ)) IoError
node_alias none = ok none
node_alias (some alias_str) =
    let alias_bytes = trim alias_str in
    if ltb 32 (length alias_bytes)
    then err (bad_input (lit "node.alias must be at most 32 bytes long."))
    else ok (some (alias_bytes ++ zeros (32 - length alias_bytes)))

-- `From<LSPS2ServiceTomlConfig>`
abbrev pub from_toml : Lsps2ServiceTomlConfig → Lsps2ServiceConfig
from_toml val = record {
  advertise_service = val.advertise_service;
  channel_opening_fee_ppm = val.channel_opening_fee_ppm;
  channel_over_provisioning_ppm = val.channel_over_provisioning_ppm;
  min_channel_opening_fee_msat = val.min_channel_opening_fee_msat;
  min_channel_lifetime = val.min_channel_lifetime;
  min_payment_size_msat = val.min_payment_size_msat;
  max_client_to_self_delay = val.max_client_to_self_delay;
  max_payment_size_msat = val.max_payment_size_msat;
  client_trusts_lsp = val.client_trusts_lsp;
  require_token = val.require_token;
}

abbrev pub tls_from_toml : TomlTlsConfig → TlsConfig
tls_from_toml tls = record {
  cert_path = tls.cert_path;
  key_path = tls.key_path;
  hosts = unwrap_or tls.hosts [];
}

module _ (env : Parsers) where
  open env use {SocketAddress, SocketAddr, LevelFilter}

  -- a parser whose error is an invalid input with this text in front
  abbrev pub parse_with : {A : Type 0} → (Text → Result A Text) → Text → Text → Result A IoError
  parse_with parse what s = map_err (λ e. bad_input (what ++ e)) (parse s)

  -- the listening and the announcement addresses
  unfoldable pub parse_addresses :
      Text → Option (List Text) → Result (Option (List SocketAddress)) IoError
  parse_addresses what addresses =
      transpose (opt_map (λ xs. collect (map (parse_with env.socket_address what) xs)) addresses)

  unfoldable pub parse_chain_source : TomlConfig → Result (ChainSource env) IoError
  parse_chain_source toml = elim toml.esplora [
    | some e ↦ elim toml.electrum [
      | none ↦ elim toml.bitcoind [ none ↦ ok (esplora e.server_url) | some _ ↦ several ]
      | some _ ↦ several
    ]
    | none ↦ elim toml.electrum [
      | some e ↦ elim toml.bitcoind [ none ↦ ok (electrum e.server_url) | some _ ↦ several ]
      | none ↦ elim toml.bitcoind [
        | some b ↦
            parse_with env.socket_addr (lit "Invalid bitcoind RPC address configured: ")
              b.rpc_address
            >>= λ rpc_address. ok (rpc rpc_address b.rpc_user b.rpc_password)
        | none ↦ err (
            bad_input
              (lit "At least one chain source must be set, either esplora, electrum, or bitcoind"))
      ]
    ]
  ]
    where
      several : Result (ChainSource env) IoError
      several = err (bad_input (lit "Must set a single chain source, multiple were configured"))

  unfoldable pub parse_log_level : Option LogConfig → Result LevelFilter IoError
  parse_log_level log =
      transpose (
        opt_map (parse_with env.level_filter (lit "Invalid log level configured: "))
          (opt_bind log (λ (c : LogConfig). c.level)))
      >>= λ level. ok (unwrap_or level env.debug)

  unfoldable pub parse_rabbitmq : Option RabbitmqConfig → Result RabbitmqConfig IoError
  parse_rabbitmq toml_rabbitmq =
      let rabbitmq =
        unwrap_or toml_rabbitmq (record { connection_string = []; exchange_name = [] }) in
      if env.events_rabbitmq
        && (is_empty rabbitmq.connection_string || is_empty rabbitmq.exchange_name)
      then err (
          bad_input (
            lit
              "Both `rabbitmq.connection_string` and `rabbitmq.exchange_name` must be configured if enabling `events-rabbitmq` feature."))
      else ok rabbitmq

  unfoldable pub parse_lsps2 : Option LiquidityConfig → Result (Option Lsps2ServiceConfig) IoError
  parse_lsps2 liquidity =
      if env.experimental_lsps2_support
      then (ok_or (opt_bind liquidity (λ (l : LiquidityConfig). l.lsps2_service)) (
            bad_input (
              lit
                "`liquidity.lsps2_service` must be defined in config if enabling `experimental-lsps2-support` feature."))
          >>= λ service. ok (some (from_toml service)))
      else ok none

  -- `Config::try_from`
  unfoldable pub try_from : TomlConfig → Result (Config env) IoError
  try_from toml_config =
      let node = toml_config.node in
      parse_addresses (lit "Invalid listening address configured: ") node.listening_addresses
      >>= λ listening.
          parse_addresses (lit "Invalid announcement address configured: ")
            node.announcement_addresses
          >>= λ announcement.
              parse_with env.socket_addr (lit "Invalid rest service address configured: ")
                node.rest_service_address
              >>= λ rest. parse_chain_source toml_config >>= λ source.
                  node_alias node.alias >>= λ name. parse_log_level toml_config.log >>= λ level.
                  parse_rabbitmq toml_config.rabbitmq >>= λ rabbitmq.
                  parse_lsps2 toml_config.liquidity >>= λ lsps2. ok (record {
                    listening_addrs = listening;
                    announcement_addrs = announcement;
                    alias = name;
                    network = node.network;
                    tls_config = opt_map tls_from_toml toml_config.tls;
                    rest_service_addr = rest;
                    storage_dir_path =
                        opt_bind toml_config.storage
                          λ (s : StorageConfig). opt_bind s.disk λ d. d.dir_path;
                    chain_source = source;
                    rabbitmq_connection_string = rabbitmq.connection_string;
                    rabbitmq_exchange_name = rabbitmq.exchange_name;
                    lsps2_service_config = lsps2;
                    log_level = level;
                    log_file_path = opt_bind toml_config.log λ (l : LogConfig). l.file;
                  })

  -- the reading of the file, and of its text by `toml::from_str`, with their errors
  abbrev pub read_contents : (IoError → Text) → Disk → Text → Files → Result Text IoError
  read_contents show disk config_path fs =
      map_err
        (λ (e : IoError). record {
          kind = e.kind;
          message = lit "Failed to read config file '" ++ (config_path ++ (lit "': " ++ show e));
        })
        (read_to_string disk config_path fs)

  abbrev pub read_toml : (Text → Result TomlConfig Text) → Text → Result TomlConfig IoError
  read_toml toml_from_str file_contents =
      map_err
        (λ e. record {
          kind = invalid_data;
          message = lit "Config file contains invalid TOML format: " ++ e;
        })
        (toml_from_str file_contents)

  -- `load_config`, with `toml::from_str` and the printed `io::Error` as arguments
  unfoldable pub load_config :
      (Text → Result TomlConfig Text)
      → (IoError → Text)
      → Disk
      → Text
      → Files
      → Result (Config env) IoError
  load_config toml_from_str show disk config_path fs =
      read_contents show disk config_path fs >>= λ file_contents.
      read_toml toml_from_str file_contents >>= λ toml_config. try_from toml_config
