-- ===== src/Start/Key.antt =====
-- The API key across starts, and in the command line client, for `load_or_generate_api_key` of
-- ldk-server/src/main.rs and the start of ldk-server-cli/src/main.rs.
use ldk_server.Prelude.{
  ℕ, ◌≡◌, refl, sym, ap, ◌∙◌, inl, inr, Bool, true, false, ◌||◌, Bool-cases, Option, none, some,
  List, Result, Result-cases, ok, err, ok-injective, opt_bind, unwrap_or, to_option, arith,
}
use mathlib.Core.Path.{subst}
use ldk_server.Storage.Namespace.{IoError}
use ldk_server.Text.{Text, lit}
use ldk_server.Text.Equality.{text_eq_refl}
use ldk_server.Files.{Files, exists, read_file, write_file, read_file-ok, read_file-found}
use ldk_server.Config.{Parsers, Config}
use ldk_server.Start.{
  failure, Os, join_path, api_key_file, get_default_data_dir, network_name, generate_api_key,
  load_or_generate_api_key, Started, Exit, storage_dir_of, log_path_of, path_eq, with_key,
  with_logger, open_and_key, prepare, init_logger,
}
use ldk_server.Cli.Settings.{Options, CliConfig, get_default_api_key_path, network, api_key_of}

module _ (os : Os) where
  -- The key's file holds the bytes that the key shows.
  abbrev pub HoldsKey : Text → Files → Text → Type 0
  HoldsKey path fs key = (bytes : Text) × (fs path ≡ some bytes) × (key ≡ os.to_lower_hex bytes)

  generate-HoldsKey :
      (key_bytes : List ℕ) (dir path : Text) (fs : Files) (key : Text)
      → (generate_api_key os key_bytes dir path fs).0 ≡ ok key
      → HoldsKey path (generate_api_key os key_bytes dir path fs).1 key
  unfolding generate_api_key write_file
  generate-HoldsKey key_bytes dir path fs key h =
      (key_bytes, ground (arith, text_eq_refl path), ground arith)

  module _ (key_bytes : List ℕ) (dir : Text) where
    abbrev key_path : Text
    key_path = join_path dir api_key_file

    abbrev loaded : Files → Result Text IoError × Files
    loaded = load_or_generate_api_key os key_bytes dir

    loaded-found :
        (fs : Files) (bytes : Text)
        → exists os.disk key_path fs ≡ true
        → read_file os.disk key_path fs ≡ ok bytes
        → loaded fs ≡ (ok (os.to_lower_hex bytes), fs)
    unfolding load_or_generate_api_key
    loaded-found fs bytes e r = rw e (cc r)

    loaded-unreadable :
        (fs : Files) (error : IoError)
        → exists os.disk key_path fs ≡ true
        → read_file os.disk key_path fs ≡ err error
        → loaded fs ≡ (err error, fs)
    unfolding load_or_generate_api_key
    loaded-unreadable fs error e r = rw e (cc r)

    loaded-new :
        (fs : Files)
        → exists os.disk key_path fs ≡ false
        → loaded fs ≡ generate_api_key os key_bytes dir key_path fs
    unfolding load_or_generate_api_key
    loaded-new fs e = rw e

    loaded-HoldsKey :
        (fs : Files) (key : Text) → (loaded fs).0 ≡ ok key → HoldsKey key_path (loaded fs).1 key
    loaded-HoldsKey fs key h = elim (Bool-cases (exists os.disk key_path fs)) [
      | inr e ↦
          subst (λ (r : Result Text IoError × Files). HoldsKey key_path r.1 key)
            (sym (loaded-new fs e))
            (generate-HoldsKey key_bytes dir key_path fs key
              (sym (ap (λ r. r.0) (loaded-new fs e)) ∙ h))
      | inl e ↦ elim (Result-cases (read_file os.disk key_path fs)) [
        | inl (bytes, r) ↦
            let found = loaded-found fs bytes e r in
            (
              bytes,
              ap (λ (q : Result Text IoError × Files). q.1 key_path) found
                  ∙ read_file-ok os.disk key_path bytes fs r,
              cc (h, found),
            )
        | inr (error, r) ↦ cc (h, loaded-unreadable fs error e r)
      ]
    ]

  -- The key's file can be looked for and read.
  abbrev pub IsReadable : Text → Type 0
  IsReadable path = (os.disk.exists_fault path ≡ false) × (os.disk.read_fault path ≡ none)

  pub load_or_generate_api_key-again :
      (key_bytes next : List ℕ) (dir : Text) (fs : Files) (key : Text)
      → IsReadable (join_path dir api_key_file)
      → (load_or_generate_api_key os key_bytes dir fs).0 ≡ ok key
      → load_or_generate_api_key os next dir (load_or_generate_api_key os key_bytes dir fs).1
        ≡ load_or_generate_api_key os key_bytes dir fs
  load_or_generate_api_key-again key_bytes next dir fs key (v, r) h =
      let (bytes, there, shown) = loaded-HoldsKey key_bytes dir fs key h in
      loaded-found next dir (loaded key_bytes dir fs).1 bytes (rw (v, there))
        (read_file-found os.disk (key_path key_bytes dir) bytes (loaded key_bytes dir fs).1 r there)
      ∙ cc (h, shown)

module _ (env : Parsers) (os : Os) where
  with_key-HoldsKey :
      (config : Config env) (storage_dir network_dir log_file_path path : Text)
      (r : Result Text IoError × Files) (s : Started env)
      → ((key : Text) → r.0 ≡ ok key → HoldsKey os path r.1 key)
      → (with_key env os config storage_dir network_dir log_file_path r).0 ≡ ok s
      → HoldsKey os path
          (with_key env os config storage_dir network_dir log_file_path r).1
          s.api_key
  with_key-HoldsKey config storage_dir network_dir log_file_path path (err e, fs) s k h = cc h
  with_key-HoldsKey config storage_dir network_dir log_file_path path (ok a, fs) s k h =
      subst (λ (t : Started env). HoldsKey os path fs t.api_key) (ok-injective h) (k a refl)

  with_logger-HoldsKey :
      (config : Config env) (storage_dir network_dir log_file_path : Text) (key_bytes : List ℕ)
      (r : Result (Unit {0}) IoError × Files) (s : Started env)
      → (with_logger env os config storage_dir network_dir log_file_path key_bytes r).0 ≡ ok s
      → HoldsKey os
          (join_path network_dir api_key_file)
          (with_logger env os config storage_dir network_dir log_file_path key_bytes r).1
          s.api_key
  with_logger-HoldsKey config storage_dir network_dir log_file_path key_bytes (err e, fs) s h = cc h
  with_logger-HoldsKey config storage_dir network_dir log_file_path key_bytes (ok done, fs) s h =
      with_key-HoldsKey config storage_dir network_dir log_file_path
        (join_path network_dir api_key_file) (load_or_generate_api_key os key_bytes network_dir fs)
        s (loaded-HoldsKey os key_bytes network_dir fs) h

  module _ (key_bytes : List ℕ) (config : Config env) (fs : Files) (storage_dir : Text) where
    abbrev network_dir : Text
    network_dir = join_path storage_dir (network_name config.network)

    abbrev log_path : Text
    log_path = log_path_of env os config network_dir

    abbrev is_directory : Bool
    is_directory = path_eq log_path storage_dir || path_eq log_path network_dir

    prepare_open :
        storage_dir_of env os config ≡ some storage_dir
        → is_directory ≡ false
        → prepare env os key_bytes config fs
          ≡ open_and_key env os config storage_dir network_dir log_path key_bytes fs
    unfolding prepare
    prepare_open d e = cc (d, e)

    prepare_refused :
        storage_dir_of env os config ≡ some storage_dir
        → is_directory ≡ true
        → prepare env os key_bytes config fs
          ≡ (err (failure (lit "Log file path cannot be the same as storage directory path.")), fs)
    unfolding prepare
    prepare_refused d e = cc (d, e)

    -- The directory in which `prepare` keeps the key.
    prepare-HoldsKey :
        (s : Started env)
        → storage_dir_of env os config ≡ some storage_dir
        → (prepare env os key_bytes config fs).0 ≡ ok s
        → HoldsKey os
            (join_path network_dir api_key_file)
            (prepare env os key_bytes config fs).1
            s.api_key
    prepare-HoldsKey s d h = elim (Bool-cases is_directory) [
      | inl e ↦ cc (prepare_refused d e, h)
      | inr e ↦
          subst
            (λ (r : Result (Started env) Exit × Files).
              HoldsKey os (join_path network_dir api_key_file) r.1 s.api_key)
            (sym (prepare_open d e))
            (with_logger-HoldsKey config storage_dir network_dir log_path key_bytes
              (init_logger os log_path fs) s
              (ap (λ (r : Result (Started env) Exit × Files). r.0) (sym (prepare_open d e)) ∙ h))
    ]

  -- The key that the client reads from a file that holds it.
  api_key_of-file :
      (path bytes : Text) (cli : Options) (cli_config : Option CliConfig) (fs : Files)
      → cli.api_key ≡ none
      → get_default_api_key_path
          (unwrap_or (opt_bind cli_config (λ c. to_option (network c))) (lit "bitcoin"))
          os.home_dir
        ≡ some path
      → read_file os.disk path fs ≡ ok bytes
      → api_key_of os cli cli_config fs ≡ some (os.to_lower_hex bytes)
  unfolding api_key_of
  api_key_of-file path bytes cli cli_config fs a p r = cc (a, p, r)

  -- After a start of the daemon without a configured storage directory, the command line client with
  -- the same home directory, no key of its own and a configuration of the same network, or none for
  -- bitcoin, reads the key that the daemon goes on with, if the key file can be read.
  pub api_key_of-prepare :
      (key_bytes : List ℕ) (config : Config env) (fs : Files) (s : Started env) (data_dir : Text)
      (cli : Options) (cli_config : Option CliConfig)
      → get_default_data_dir os.home_dir ≡ some data_dir
      → config.storage_dir_path ≡ none
      → (prepare env os key_bytes config fs).0 ≡ ok s
      → os.disk.read_fault
          (join_path (join_path data_dir (network_name config.network)) api_key_file)
        ≡ none
      → cli.api_key ≡ none
      → unwrap_or (opt_bind cli_config (λ c. to_option (network c))) (lit "bitcoin")
        ≡ network_name config.network
      → api_key_of os cli cli_config (prepare env os key_bytes config fs).1 ≡ some s.api_key
  api_key_of-prepare key_bytes config fs s data_dir cli cli_config d n h r a same =
      let (bytes, there, shown) = prepare-HoldsKey key_bytes config fs data_dir s (rw n d) h in
      api_key_of-file (join_path (join_path data_dir (network_name config.network)) api_key_file)
        bytes cli cli_config (prepare env os key_bytes config fs).1 a (rw (same, d))
        (read_file-found os.disk _ bytes (prepare env os key_bytes config fs).1 r there)
      ∙ ap some (sym shown)
