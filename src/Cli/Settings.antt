-- ===== src/Cli/Settings.antt =====
-- The settings of the command line client: ldk-server-cli/src/config.rs, and the part of `main` in
-- ldk-server-cli/src/main.rs in front of the commands.
use ldk_server.Prelude.{
  ◌||◌, Option, ◌++◌, Result, ok, err, ◌>>=◌, map_err, ok_or, to_option, opt_map, opt_bind, or_else,
  unwrap_or, if◌then◌else◌,
}
use ldk_server.Text.{Text, lit, text_eq}
use ldk_server.Files.{Files, read_file, read_to_string}
use ldk_server.Start.{Os, join_path}

pub record CliTlsConfig : Type 0 where
  pub cert_path : Option Text

pub record CliNodeConfig : Type 0 where
  pub rest_service_address : Text
  pub network : Text

pub record CliConfig : Type 0 where
  pub node : CliNodeConfig
  pub tls : Option CliTlsConfig

abbrev pub default_config_file : Text
default_config_file = lit "config.toml"

abbrev pub default_cert_file : Text
default_cert_file = lit "tls.crt"

abbrev pub api_key_file : Text
api_key_file = lit "api_key"

-- The default paths, from the home directory, those of a Unix build.
abbrev pub get_default_data_dir : Option Text → Option Text
get_default_data_dir home = opt_map (λ h. join_path h (lit ".ldk-server")) home

abbrev pub get_default_config_path : Option Text → Option Text
get_default_config_path home =
    opt_map (λ dir. join_path dir default_config_file) (get_default_data_dir home)

abbrev pub get_default_cert_path : Option Text → Option Text
get_default_cert_path home =
    opt_map (λ dir. join_path dir default_cert_file) (get_default_data_dir home)

abbrev pub get_default_api_key_path : Text → Option Text → Option Text
get_default_api_key_path network home =
    opt_map (λ dir. join_path (join_path dir network) api_key_file) (get_default_data_dir home)

-- `Config::network`
unfoldable pub network : CliConfig → Result Text Text
network config =
    let name = config.node.network in
    if text_eq name (lit "bitcoin") || text_eq name (lit "mainnet")
    then ok (lit "bitcoin")
    else if text_eq name (lit "testnet")
    then ok (lit "testnet")
    else if text_eq name (lit "testnet4")
    then ok (lit "testnet4")
    else if text_eq name (lit "signet")
    then ok (lit "signet")
    else if text_eq name (lit "regtest")
    then ok (lit "regtest")
    else err (lit "Unsupported network: " ++ name)

-- The options of `Cli`.
pub record Options : Type 0 where
  pub base_url : Option Text
  pub api_key : Option Text
  pub tls_cert : Option Text
  pub config : Option Text

-- What the client is made of, with the bytes of the server's certificate.
pub record Settings : Type 0 where
  pub base_url : Text
  pub api_key : Text
  pub server_cert_pem : Text

module _ (os : Os) where
  -- the key of the file, in the directory of the configured network
  unfoldable pub api_key_of : Options → Option CliConfig → Files → Option Text
  api_key_of cli config fs = or_else cli.api_key (
      opt_map os.to_lower_hex (
        opt_bind
          (get_default_api_key_path
            (unwrap_or (opt_bind config (λ c. to_option (network c))) (lit "bitcoin")) os.home_dir)
          (λ path. to_option (read_file os.disk path fs))))

  abbrev pub base_url_of : Options → Option CliConfig → Option Text
  base_url_of cli config =
      or_else cli.base_url (opt_map (λ (c : CliConfig). c.node.rest_service_address) config)

  abbrev pub tls_cert_of : Options → Option CliConfig → Option Text
  tls_cert_of cli config = or_else cli.tls_cert (
      or_else
        (opt_bind config (λ (c : CliConfig). opt_bind c.tls (λ (t : CliTlsConfig). t.cert_path)))
        (get_default_cert_path os.home_dir))

  module _ (toml_from_str : Text → Result CliConfig Text) where
    -- `load_config`
    unfoldable pub load_cli_config : Text → Files → Result CliConfig Text
    load_cli_config path fs =
        map_err
          (λ e. lit "Failed to read config file '" ++ (path ++ (lit "': " ++ os.show_error e)))
          (read_to_string os.disk path fs)
        >>= λ contents.
            map_err (λ e. lit "Failed to parse config file '" ++ (path ++ (lit "': " ++ e)))
              (toml_from_str contents)

    -- the configuration, if there is one that can be loaded
    unfoldable pub config_of : Options → Files → Option CliConfig
    config_of cli fs =
        opt_bind (or_else cli.config (get_default_config_path os.home_dir))
          (λ path. to_option (load_cli_config path fs))

    -- The settings, or what is printed before the exit with code 1.
    unfoldable pub resolve : Options → Files → Result Settings Text
    resolve cli fs =
        let config = config_of cli fs in
        ok_or (api_key_of cli config fs) (
          lit
            "API key not provided. Use --api-key or ensure the api_key file exists at ~/.ldk-server/[network]/api_key")
        >>= λ api_key.
            ok_or (base_url_of cli config) (
              lit
                "Base URL not provided. Use --base-url or ensure config file exists at ~/.ldk-server/config.toml")
            >>= λ base_url.
                ok_or (tls_cert_of cli config) (
                  lit
                    "TLS cert path not provided. Use --tls-cert or ensure config file exists at ~/.ldk-server/config.toml")
                >>= λ tls_cert_path.
                    map_err
                      (λ e.
                        lit "Failed to read server certificate file '"
                        ++ (tls_cert_path ++ (lit "': " ++ os.show_error e)))
                      (read_file os.disk tls_cert_path fs)
                    >>= λ server_cert_pem. ok (record {
                      base_url = base_url;
                      api_key = api_key;
                      server_cert_pem = server_cert_pem;
                    })
