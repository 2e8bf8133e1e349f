-- ===== src/Tests/Launches.antt =====
-- A configuration file, a start with it, and the command line client beside it.
use ldk_server.Prelude.{◌≡◌, refl, true, false, Option, none, some, [], ◌∷◌, ◌++◌, Result, ok}
use ldk_server.Text.{Text, lit, text_eq}
use ldk_server.Files.{Files, Disk, read_file}
use ldk_server.Storage.Namespace.{IoError}
use ldk_server.Config.{Parsers, Config, try_from, load_config}
use ldk_server.Config.Toml.{TomlConfig, signet}
use ldk_server.Config.Laws.{is_valid, Judged, try_from-Judged}
use ldk_server.Config.Load.{load_config-MadeFrom, MadeFrom}
use ldk_server.Start.{Os, Started, prepare, start, join_path, path_eq}
use ldk_server.Start.Key.{api_key_of-prepare}
use ldk_server.Cli.Settings.{Options, api_key_of, CliConfig, network}
use ldk_server.Cli.Command.{Commands, RouteOptions, Call, command_call}
use ldk_server.Cli.Sent.{command_call-Checked, Checked, sent_route}
use ldk_server.Tests.Certificates.{sound_disk}

abbrev plain : Parsers
plain = record {
  SocketAddress = Text;
  SocketAddr = Text;
  LevelFilter = Text;
  socket_address = λ s. ok s;
  socket_addr = λ s. ok s;
  level_filter = λ s. ok s;
  debug = lit "debug";
  events_rabbitmq = false;
  experimental_lsps2_support = false;
}

abbrev signet_toml : TomlConfig
signet_toml = record {
  node = record {
    network = signet;
    listening_addresses = some (lit "localhost:9735" ∷ []);
    announcement_addresses = none;
    rest_service_address = lit "localhost:3002";
    alias = some (lit " node ");
  };
  storage = none;
  bitcoind = none;
  electrum = none;
  esplora = some (record { server_url = lit "esplora" });
  rabbitmq = none;
  liquidity = none;
  log = none;
  tls = none;
}

try_from-Judged_example : Judged (is_valid plain signet_toml) (try_from plain signet_toml)
try_from-Judged_example = try_from-Judged plain signet_toml

-- One configuration file, and nothing else.
abbrev pub one_file : Files
one_file = λ path. elim (text_eq path (lit "c")) [ true ↦ some (lit "toml") | false ↦ none ]

abbrev signet_config : Config plain
signet_config = record {
  listening_addrs = some (lit "localhost:9735" ∷ []);
  announcement_addrs = none;
  alias = some (
      lit "node"
      ++ (0 ∷ 0 ∷ 0 ∷ 0 ∷ 0 ∷ 0 ∷ 0 ∷ 0 ∷ 0 ∷ 0 ∷ 0 ∷ 0 ∷ 0 ∷ 0 ∷ 0 ∷ 0 ∷ 0 ∷ 0 ∷ 0 ∷ 0 ∷ 0 ∷ 0 ∷ 0
          ∷ 0 ∷ 0 ∷ 0 ∷ 0 ∷ 0 ∷ []));
  network = signet;
  tls_config = none;
  rest_service_addr = lit "localhost:3002";
  storage_dir_path = none;
  chain_source = ldk_server.Config.esplora (lit "esplora");
  rabbitmq_connection_string = [];
  rabbitmq_exchange_name = [];
  lsps2_service_config = none;
  log_level = lit "debug";
  log_file_path = none;
}

abbrev show_io : IoError → Text
show_io e = e.message

signet_loads :
    load_config plain (λ s. ok signet_toml) show_io sound_disk (lit "c") one_file ≡ ok signet_config
signet_loads =
    unfold load_config try_from read_file ldk_server.Files.read_to_string
      ldk_server.Text.Utf8.is_utf8 ldk_server.Text.Utf8.scan text_eq lit
      ldk_server.Config.parse_addresses ldk_server.Config.parse_chain_source
      ldk_server.Config.node_alias ldk_server.Config.parse_log_level
      ldk_server.Config.parse_rabbitmq ldk_server.Config.parse_lsps2 ldk_server.Text.Trim.trim
      ldk_server.Text.Trim.strip_all ldk_server.Text.Split.strip_prefix in
    refl

load_config-MadeFrom_example :
    (contents : Text) × (toml : TomlConfig) × (one_file (lit "c") ≡ some contents)
    × ◌≡◌ {A = Result TomlConfig Text} (ok signet_toml) (ok toml)
    × (is_valid plain toml ≡ true)
    × MadeFrom plain toml signet_config
load_config-MadeFrom_example =
    load_config-MadeFrom plain (λ s. ok signet_toml) show_io sound_disk (lit "c") one_file
      signet_config signet_loads

abbrev unix : Os
unix = record {
  disk = sound_disk;
  home_dir = some (lit "/h");
  create_dir_all = λ path. none;
  create_parent = λ path. none;
  set_permissions = λ path. none;
  show_error = show_io;
  to_lower_hex = λ bytes. bytes;
}

abbrev with_dirs : Text → Started plain
with_dirs key = record {
  config = signet_config;
  storage_dir = lit "/h/.ldk-server";
  network_dir = lit "/h/.ldk-server/signet";
  log_file_path = lit "/h/.ldk-server/signet/ldk-server.log";
  api_key = key;
}

signet_starts :
    (prepare plain unix (7 ∷ 8 ∷ []) signet_config one_file).0 ≡ ok (with_dirs (7 ∷ 8 ∷ []))
signet_starts =
    unfold prepare path_eq lit text_eq read_file ldk_server.Files.write_file
      ldk_server.Start.init_logger ldk_server.Start.load_or_generate_api_key
      ldk_server.Start.generate_api_key ldk_server.Text.Split.split
      ldk_server.Text.Split.strip_prefix in
    refl

abbrev no_options : Options
no_options = record { base_url = none; api_key = none; tls_cert = none; config = none }

abbrev signet_client : CliConfig
signet_client = record {
  node = record { rest_service_address = lit "localhost:3002"; network = lit "signet" };
  tls = none;
}

api_key_of-prepare_example :
    api_key_of unix no_options
      (some signet_client)
      (prepare plain unix (7 ∷ 8 ∷ []) signet_config one_file).1
    ≡ some (7 ∷ 8 ∷ [])
api_key_of-prepare_example =
    api_key_of-prepare plain unix (7 ∷ 8 ∷ []) signet_config one_file (with_dirs (7 ∷ 8 ∷ []))
      (lit "/h/.ldk-server") no_options (some signet_client) (unfold lit in refl) refl signet_starts
      refl refl (unfold network text_eq lit in refl)

abbrev no_limits : RouteOptions
no_limits = record {
  max_total_routing_fee_msat = none;
  max_total_cltv_expiry_delta = none;
  max_path_count = some 300;
  max_channel_saturation_power_of_half = none;
}

command_call-Checked_example :
    (call : Call) × (parameters : Option ldk_server.Api.PaymentArgs.ProtoRouteParameters)
    × (command_call (Commands.bolt11_send (lit "i") none no_limits) ≡ ok call)
    × (sent_route call ≡ some parameters)
    × Checked no_limits (ldk_server.Api.PaymentArgs.route_parameters_from_proto parameters)
command_call-Checked_example =
    command_call-Checked (Commands.bolt11_send (lit "i") none no_limits) no_limits refl
