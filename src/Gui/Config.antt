-- ===== src/Gui/Config.antt =====
-- ldk-server-gui/src/config.rs: what the graphical client reads from the daemon's configuration file,
-- and the chain source that it writes into it. The parser and the printer of TOML are arguments.
use ldk_server.Prelude.{
  ℕ, Option, none, some, List, [], ◌∷◌, ◌++◌, Result, ok, err, ◌>>=◌, map_err, ok_or, to_option,
  opt_map, unwrap_or, if◌then◌else◌,
}
use ldk_server.Text.{Text, lit, text_eq}
use ldk_server.Storage.Namespace.{IoError}
use ldk_server.Files.{Files, Disk, exists, read_file, read_to_string, write_file}
use ldk_server.Start.{join_path}

pub data ChainSourceType : Type 0 where
  no_source bitcoind electrum esplora : ChainSourceType

pub data ChainSourceConfig : Type 0 where
  no_source : ChainSourceConfig
  bitcoind : (rpc_address rpc_user rpc_password : Text) → ChainSourceConfig
  electrum esplora : (server_url : Text) → ChainSourceConfig

abbrev pub source_type : ChainSourceConfig → ChainSourceType
source_type ChainSourceConfig.no_source = ChainSourceType.no_source
source_type (ChainSourceConfig.bitcoind rpc_address rpc_user rpc_password) =
    ChainSourceType.bitcoind
source_type (ChainSourceConfig.electrum server_url) = ChainSourceType.electrum
source_type (ChainSourceConfig.esplora server_url) = ChainSourceType.esplora

pub record GuiConfig : Type 0 where
  pub server_url : Text
  pub api_key : Text
  pub tls_cert_path : Text
  pub network : Text
  pub chain_source : ChainSourceConfig

-- The part of the file that is read.
pub record GuiBitcoind : Type 0 where
  pub rpc_address : Text
  pub rpc_user : Text
  pub rpc_password : Text

pub record GuiToml : Type 0 where
  pub network : Text
  pub rest_service_address : Text
  pub dir_path : Text
  pub bitcoind : Option GuiBitcoind
  -- the server's URL
  pub electrum : Option Text
  pub esplora : Option Text

unfoldable pub network_to_dir_name : Text → Text
network_to_dir_name network = if text_eq network (lit "mainnet") then lit "bitcoin" else network

-- The chain source of the file: the first section that is there.
unfoldable pub chain_source_of : GuiToml → ChainSourceConfig
chain_source_of toml = elim toml.bitcoind [
  | some btc ↦ ChainSourceConfig.bitcoind btc.rpc_address btc.rpc_user btc.rpc_password
  | none ↦ elim toml.electrum [
    | some server_url ↦ ChainSourceConfig.electrum server_url
    | none ↦ elim toml.esplora [
      | some server_url ↦ ChainSourceConfig.esplora server_url
      | none ↦ ChainSourceConfig.no_source
    ]
  ]
]

-- What the toml crate does: a value may be a table, which has named values.
pub record TomlDoc : Type 1 where
  pub Value : Type 0
  pub Table : Type 0
  pub parse : Text → Result Value Text
  -- `as_table_mut`, and the value with that table
  pub as_table : Value → Option Table
  pub of_table : Table → Value
  pub get : Text → Table → Option Value
  pub remove : Text → Table → Table
  pub insert : Text → Value → Table → Table
  -- `toml::Value::try_from` of the structs that are saved
  pub of_bitcoind : GuiBitcoind → Result Value Text
  pub of_server_url : Text → Result Value Text
  pub print : Value → Result Text Text

module _ (doc : TomlDoc) where
  open doc use {Value, Table, remove, insert}

  -- the match on the new chain source
  unfoldable pub add_source : ChainSourceConfig → Table → Result Table Text
  add_source ChainSourceConfig.no_source table = ok table
  add_source (ChainSourceConfig.bitcoind rpc_address rpc_user rpc_password) table =
      map_err (λ e. lit "Failed to serialize bitcoind config: " ++ e)
        (doc.of_bitcoind
          (record { rpc_address = rpc_address; rpc_user = rpc_user; rpc_password = rpc_password }))
      >>= λ value. ok (insert (lit "bitcoind") value table)
  add_source (ChainSourceConfig.electrum server_url) table =
      map_err (λ e. lit "Failed to serialize electrum config: " ++ e) (doc.of_server_url server_url)
      >>= λ value. ok (insert (lit "electrum") value table)
  add_source (ChainSourceConfig.esplora server_url) table =
      map_err (λ e. lit "Failed to serialize esplora config: " ++ e) (doc.of_server_url server_url)
      >>= λ value. ok (insert (lit "esplora") value table)

  -- the document with its chain source replaced
  unfoldable pub replace_source : ChainSourceConfig → Value → Result Value Text
  replace_source chain_source document =
      ok_or (doc.as_table document) (lit "Config file root is not a table") >>= λ table.
      add_source chain_source
        (remove (lit "esplora") (remove (lit "electrum") (remove (lit "bitcoind") table)))
      >>= λ replaced. ok (doc.of_table replaced)

  -- the text that is written
  unfoldable pub saved_text :
      (IoError → Text) → Disk → Text → ChainSourceConfig → Files → Result Text Text
  saved_text show disk path chain_source fs =
      map_err (λ e. lit "Failed to read config file: " ++ show e) (read_to_string disk path fs)
      >>= λ contents.
          map_err (λ e. lit "Failed to parse config file: " ++ e) (doc.parse contents)
          >>= λ document. replace_source chain_source document >>= λ replaced.
              map_err (λ e. lit "Failed to serialize config: " ++ e) (doc.print replaced)

  unfoldable pub save_chain_source :
      (IoError → Text) → Disk → Text → ChainSourceConfig → Files → Result (Unit {0}) Text × Files
  save_chain_source show disk path chain_source fs =
      elim (saved_text show disk path chain_source fs) [
        | err e ↦ (err e, fs)
        | ok output ↦
            let (written, after) = write_file disk path output fs in
            (map_err (λ e. lit "Failed to write config file: " ++ show e) written, after)
      ]

-- Reading: the disk, the parser of the file, and the printers.
pub record GuiEnv : Type 0 where
  pub disk : Disk
  pub toml_from_str : Text → Result GuiToml Text
  pub show_error : IoError → Text
  pub to_lower_hex : List ℕ → Text
  -- the variable LDK_SERVER_CONFIG
  pub env_path : Option Text

module _ (env : GuiEnv) where
  unfoldable pub load_api_key_from_file : Text → Text → Files → Option Text
  load_api_key_from_file storage_dir network fs = opt_map env.to_lower_hex (
      to_option (
        read_file env.disk
          (join_path (join_path storage_dir (network_to_dir_name network)) (lit "api_key")) fs))

  -- `GuiConfig::try_from`, which never fails
  unfoldable pub gui_config_of : GuiToml → Files → GuiConfig
  gui_config_of toml fs = record {
    server_url = toml.rest_service_address;
    api_key = unwrap_or (load_api_key_from_file toml.dir_path toml.network fs) [];
    tls_cert_path = join_path toml.dir_path (lit "tls.crt");
    network = toml.network;
    chain_source = chain_source_of toml;
  }

  unfoldable pub parse_config_from_str : Text → Files → Result GuiConfig Text
  parse_config_from_str contents fs =
      map_err (λ e. lit "Failed to parse config: " ++ e) (env.toml_from_str contents) >>= λ toml.
      ok (gui_config_of toml fs)

  unfoldable pub load_gui_config : Text → Files → Result GuiConfig Text
  load_gui_config path fs =
      map_err (λ e. lit "Failed to read config file: " ++ env.show_error e)
        (read_to_string env.disk path fs)
      >>= λ contents. parse_config_from_str contents fs

  abbrev pub search_paths : List Text
  search_paths =
      lit "ldk-server-config.toml"
      ∷ lit "../ldk-server/ldk-server-config.toml"
      ∷ lit "../ldk-server-config.toml"
      ∷ []

  -- The first path whose file is there and can be loaded.
  unfoldable pub first_config : List Text → Files → Option GuiConfig
  first_config [] fs = none
  first_config (path ∷ paths) fs =
      let rest = first_config paths fs in
      if exists env.disk path fs
      then elim (load_gui_config path fs) [ ok config ↦ some config | err e ↦ rest ]
      else rest

  unfoldable pub find_and_load_config : Files → Option GuiConfig
  find_and_load_config fs =
      first_config (search_paths ++ elim env.env_path [ none ↦ [] | some path ↦ path ∷ [] ]) fs
