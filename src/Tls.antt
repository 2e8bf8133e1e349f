-- ===== src/Tls.antt =====
-- ldk-server/src/util/tls.rs: the certificate and the key of the server, from files that are given or
-- generated. rcgen's generator and rustls's configuration are arguments.
pub mod Pem
pub mod Content
pub mod RoundTrip
pub mod Start
use ldk_server.Prelude.{
  Bool, false, not, ◌||◌, Option, none, some, List, [], ◌∷◌, ◌++◌, Result, ok, err, ◌>>=◌, map_err,
  unwrap_or, if◌then◌else◌,
}
use ldk_server.Text.{Text, lit}
use ldk_server.Storage.Namespace.{IoError}
use ldk_server.Files.{Files, Disk, exists, read_to_string, write_file}
use ldk_server.Tls.Pem.{
  Base64, pem_cert_begin, pem_cert_end, pem_key_begin, pem_key_end, parse_pem_certs,
  parse_pem_private_key, to_pem,
}

pub record TlsConfig : Type 0 where
  pub cert_path : Option Text
  pub key_path : Option Text
  pub hosts : List Text

-- `generate_simple_self_signed` on the hosts, with the DER of the certificate and of the key
abbrev pub Generator : Type 0
Generator = List Text → Result (Text × Text) Text

-- How an `io::Error` is printed, and `with_single_cert` of rustls's builder.
pub record Rustls (S : Type 0) : Type 0 where
  pub io_error : IoError → Text
  pub with_single_cert : List Text → Text → Result S Text

abbrev pub quoted : Text → Text → Text
quoted what path = what ++ (lit " '" ++ (path ++ lit "': "))

abbrev pub cert_path_of : Option TlsConfig → Text → Text
cert_path_of (some config) storage_dir = unwrap_or config.cert_path (storage_dir ++ lit "/tls.crt")
cert_path_of none storage_dir = storage_dir ++ lit "/tls.crt"

abbrev pub key_path_of : Option TlsConfig → Text → Text
key_path_of (some config) storage_dir = unwrap_or config.key_path (storage_dir ++ lit "/tls.key")
key_path_of none storage_dir = storage_dir ++ lit "/tls.key"

abbrev pub hosts_of : Option TlsConfig → List Text
hosts_of (some config) = config.hosts
hosts_of none = []

module _ {S : Type 0} (b64 : Base64) (tls : Rustls S) (disk : Disk) where
  -- the two writes at the end
  abbrev write_pair : Text → Text → Text → Text → Files → Result (Unit {0}) Text × Files
  write_pair cert_path key_path cert_pem key_pem fs =
      let (cert_result, after) = write_file disk cert_path cert_pem fs in
      let (key_result, last) = write_file disk key_path key_pem after in
      elim cert_result [
        | err e ↦ (
          err (quoted (lit "Failed to write TLS certificate to") cert_path ++ tls.io_error e),
          after,
        )
        | ok done ↦ elim key_result [
          | err e ↦
              (err (quoted (lit "Failed to write TLS key to") key_path ++ tls.io_error e), last)
          | ok done' ↦ (ok tt, last)
        ]
      ]

  unfoldable pub generate_self_signed_cert :
      Generator → Text → Text → List Text → Files → Result (Unit {0}) Text × Files
  generate_self_signed_cert generate cert_path key_path configure_hosts fs =
      elim (generate (lit "localhost" ∷ lit "127.0.0.1" ∷ configure_hosts)) [
        | err e ↦ (err (lit "Failed to generate self-signed certificate: " ++ e), fs)
        | ok (cert_der, key_der) ↦
            write_pair cert_path key_path (to_pem b64 pem_cert_begin pem_cert_end cert_der)
              (to_pem b64 pem_key_begin pem_key_end key_der) fs
      ]

  abbrev build : List Text → Text → Result S Text
  build certs key =
      map_err (λ e. lit "Failed to build TLS server config: " ++ e) (tls.with_single_cert certs key)

  -- the part after the files are read
  abbrev pub from_pems : Text → Text → Option (Result S Text)
  from_pems cert_pem key_pem = elim (parse_pem_certs b64 cert_pem) [
    | err e ↦ some (err e)
    | ok [] ↦ some (err (lit "No certificates found in certificate file"))
    | ok (cert ∷ certs) ↦ elim (parse_pem_private_key b64 key_pem) [
      | none ↦ none
      | some (err e) ↦ some (err e)
      | some (ok key) ↦ some (build (cert ∷ certs) key)
    ]
  ]

  unfoldable pub load_tls_config : Text → Text → Files → Option (Result S Text)
  load_tls_config cert_path key_path fs = elim (read_to_string disk cert_path fs) [
    | err e ↦
        some (err (quoted (lit "Failed to read TLS certificate file") cert_path ++ tls.io_error e))
    | ok cert_pem ↦ elim (read_to_string disk key_path fs) [
      | err e ↦ some (err (quoted (lit "Failed to read TLS key file") key_path ++ tls.io_error e))
      | ok key_pem ↦ from_pems cert_pem key_pem
    ]
  ]

  -- one arm of the `if let`: generate what is missing, then load
  unfoldable pub ensure_and_load :
      Generator → Text → Text → List Text → Files → Option (Result S Text) × Files
  ensure_and_load generate cert_path key_path hosts fs =
      let (generated, after) = generate_self_signed_cert generate cert_path key_path hosts fs in
      if not (exists disk cert_path fs) || not (exists disk key_path fs)
      then elim generated [
        | err e ↦ (some (err e), after)
        | ok done ↦ (load_tls_config cert_path key_path after, after)
      ]
      else (load_tls_config cert_path key_path fs, fs)

  unfoldable pub get_or_generate_tls_config :
      Generator → Option TlsConfig → Text → Files → Option (Result S Text) × Files
  get_or_generate_tls_config generate tls_config storage_dir =
      ensure_and_load generate (cert_path_of tls_config storage_dir)
        (key_path_of tls_config storage_dir) (hosts_of tls_config)
