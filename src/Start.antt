-- ===== src/Start.antt =====
-- The start of the daemon in ldk-server/src/main.rs, up to the API key: the configuration, the
-- directories and the log file. The paths are those of a Unix build.
pub mod Key
use ldk_server.Prelude.{
  ℕ, Bool, true, false, not, ◌&&◌, ◌||◌, Option, none, some, List, [], ◌∷◌, ◌++◌, Result, ok, err,
  opt_map, or_else, unwrap_or, is_some, filter, last?, if◌then◌else◌, ◌==◌,
}
use ldk_server.Text.{Text, lit, is_empty, text_eq}
use ldk_server.Text.Split.{split}
use ldk_server.Text.Find.{starts_with}
use ldk_server.Storage.Namespace.{IoError}
use ldk_server.Files.{Files, Disk, exists, with_file, read_file, write_file}
use ldk_server.Config.{Parsers, Config, load_config}
use ldk_server.Config.Toml.{Network, bitcoin, testnet, testnet4, signet, regtest, TomlConfig}

-- What the start takes of the system: the disk, the home directory, the making of a directory (also
-- that of a path's parent), the change of a file's mode, and how an error is printed.
pub record Os : Type 0 where
  pub disk : Disk
  pub home_dir : Option Text
  pub create_dir_all : Text → Option IoError
  pub create_parent : Text → Option IoError
  pub set_permissions : Text → Option IoError
  pub show_error : IoError → Text
  pub to_lower_hex : List ℕ → Text

abbrev pub api_key_file : Text
api_key_file = lit "api_key"

-- `Path::join` with a relative path
abbrev pub join_path : Text → Text → Text
join_path dir name = elim (last? dir) [
  | none ↦ name
  | some c ↦ if c == b'/' then dir ++ name else dir ++ (b'/' ∷ name)
]

-- `==` of paths: that of their components, which are no empty ones and, but for the first, no `.`.
abbrev is_component : Text → Bool
is_component c = not (is_empty c) && not (text_eq c (lit "."))

abbrev texts_eq : List Text → List Text → Bool
texts_eq [] [] = true
texts_eq (a ∷ s) (b ∷ t) = text_eq a b && texts_eq s t
texts_eq _ _ = false

-- the root, or a `.` in front
abbrev prefix_of : Text → List Text → List Text
prefix_of path [] = []
prefix_of path (c ∷ cs) =
    if starts_with (lit "/") path
    then lit "/" ∷ []
    else if text_eq c (lit ".")
    then lit "." ∷ []
    else []

abbrev components : Text → List Text
components path =
    let pieces = split b'/' path in prefix_of path pieces ++ filter is_component pieces

unfoldable pub path_eq : Text → Text → Bool
path_eq a b = texts_eq (components a) (components b)

abbrev pub get_default_data_dir : Option Text → Option Text
get_default_data_dir home = opt_map (λ h. join_path h (lit ".ldk-server")) home

abbrev pub get_default_config_path : Option Text → Option Text
get_default_config_path home =
    opt_map (λ dir. join_path dir (lit "config.toml")) (get_default_data_dir home)

abbrev pub network_name : Network → Text
network_name bitcoin = lit "bitcoin"
network_name testnet = lit "testnet"
network_name testnet4 = lit "testnet4"
network_name signet = lit "signet"
network_name regtest = lit "regtest"

module _ (os : Os) where
  -- a new key of these random bytes, in the file `path` of the directory
  unfoldable pub generate_api_key : List ℕ → Text → Text → Files → Result Text IoError × Files
  generate_api_key key_bytes storage_dir path fs = elim (os.create_dir_all storage_dir) [
    | some e ↦ (err e, fs)
    | none ↦
        let (written, after) = write_file os.disk path key_bytes fs in
        elim written [
          | err e ↦ (err e, after)
          | ok done ↦ elim (os.set_permissions path) [
            | some e ↦ (err e, after)
            | none ↦ (ok (os.to_lower_hex key_bytes), after)
          ]
        ]
  ]

  -- `load_or_generate_api_key`
  unfoldable pub load_or_generate_api_key : List ℕ → Text → Files → Result Text IoError × Files
  load_or_generate_api_key key_bytes storage_dir fs =
      let path = join_path storage_dir api_key_file in
      if exists os.disk path fs
      then elim (read_file os.disk path fs) [
        | err e ↦ (err e, fs)
        | ok bytes ↦ (ok (os.to_lower_hex bytes), fs)
      ]
      else generate_api_key key_bytes storage_dir path fs

  -- `ServerLogger::init` on the files: an existing log is appended to, a missing one is created.
  unfoldable pub init_logger : Text → Files → Result (Unit {0}) IoError × Files
  init_logger path fs = elim (os.create_parent path) [
    | some e ↦ (err e, fs)
    | none ↦ elim (fs path) [
      | some content ↦ elim (os.disk.write_fault path []) [
        | some (e, left) ↦ (err e, fs)
        | none ↦ (ok tt, fs)
      ]
      | none ↦ write_file os.disk path [] fs
    ]
  ]

-- What the daemon goes on with.
pub record Started (env : Parsers) : Type 0 where
  pub config : Config env
  pub storage_dir : Text
  pub network_dir : Text
  pub log_file_path : Text
  pub api_key : Text

-- `std::process::exit`, with what is printed
pub record Exit : Type 0 where
  pub code : ℕ
  pub message : Text

-- The exit code -1, as the system has it.
abbrev pub failure : Text → Exit
failure m = record { code = 255; message = m }

abbrev pub usage_guide : Text
usage_guide =
    lit
      "Usage: ldk-server [config_path]\n\nIf no config path is provided, ldk-server will look for a config file at:\n  Linux:   ~/.ldk-server/config.toml\n  macOS:   ~/Library/Application Support/ldk-server/config.toml\n  Windows: %APPDATA%\\ldk-server\\config.toml"

-- The path of the configuration file, from the arguments behind the program's name.
unfoldable pub config_path_of : List Text → Option Text → Result Text Exit
config_path_of [] home = elim (get_default_config_path home) [
  | some path ↦ ok path
  | none ↦
      err (
        failure
          (lit "Unable to determine home directory for default config path.\n" ++ usage_guide))
]
config_path_of (arg ∷ args) home =
    if text_eq arg (lit "-h") || text_eq arg (lit "--help")
    then err (record { code = 0; message = usage_guide })
    else ok arg

module _ (env : Parsers) (os : Os) where
  -- the storage directory
  abbrev pub storage_dir_of : Config env → Option Text
  storage_dir_of config = or_else config.storage_dir_path (get_default_data_dir os.home_dir)

  abbrev pub log_path_of : Config env → Text → Text
  log_path_of config network_dir =
      unwrap_or config.log_file_path (join_path network_dir (lit "ldk-server.log"))

  module _ (config : Config env) (storage_dir network_dir log_file_path : Text) where
    -- the match on the key
    abbrev pub with_key : Result Text IoError × Files → Result (Started env) Exit × Files
    with_key (err e, fs) =
        (err (failure (lit "Failed to load or generate API key: " ++ os.show_error e)), fs)
    with_key (ok api_key, fs) = (
      ok (record {
        config = config;
        storage_dir = storage_dir;
        network_dir = network_dir;
        log_file_path = log_file_path;
        api_key = api_key;
      }),
      fs,
    )

    -- the match on the logger
    abbrev pub with_logger :
        List ℕ → Result (Unit {0}) IoError × Files → Result (Started env) Exit × Files
    with_logger key_bytes (err e, fs) =
        (err (failure (lit "Failed to initialize logger: " ++ os.show_error e)), fs)
    with_logger key_bytes (ok done, fs) =
        with_key (load_or_generate_api_key os key_bytes network_dir fs)

    abbrev pub open_and_key : List ℕ → Files → Result (Started env) Exit × Files
    open_and_key key_bytes fs = with_logger key_bytes (init_logger os log_file_path fs)

  -- the directories of a configuration, then the rest
  unfoldable pub prepare : List ℕ → Config env → Files → Result (Started env) Exit × Files
  prepare key_bytes config fs = elim (storage_dir_of config) [
    | none ↦
        (err (failure (lit "Unable to determine home directory for default storage path.")), fs)
    | some storage_dir ↦
        let network_dir = join_path storage_dir (network_name config.network) in
        let log_file_path = log_path_of config network_dir in
        if path_eq log_file_path storage_dir || path_eq log_file_path network_dir
        then (err (failure (lit "Log file path cannot be the same as storage directory path.")), fs)
        else open_and_key config storage_dir network_dir log_file_path key_bytes fs
  ]

  -- the beginning of `main`, on these random bytes and the arguments; a file that can be read is one
  -- that can be opened
  unfoldable pub start :
      (Text → Result TomlConfig Text)
      → List ℕ
      → List Text
      → Files
      → Result (Started env) Exit × Files
  start toml_from_str key_bytes args fs = elim (config_path_of args os.home_dir) [
    | err e ↦ (err e, fs)
    | ok config_path ↦ elim (read_file os.disk config_path fs) [
      | err e ↦ (err (failure (lit "Unable to access configuration file: " ++ config_path)), fs)
      | ok contents ↦ elim (load_config env toml_from_str os.show_error os.disk config_path fs) [
        | err e ↦ (err (failure (lit "Invalid configuration file: " ++ os.show_error e)), fs)
        | ok config ↦ prepare key_bytes config fs
      ]
    ]
  ]
