-- ===== src/Config/Load.antt =====
-- What a configuration that is loaded says of its file, for ldk-server/src/util/config.rs.
use ldk_server.Prelude.{
  ℕ, zero, suc, ◌-◌, ◌≡◌, refl, ap, inl, inr, true, false, Bool-cases, Option, none, some,
  Option-cases, List, ◌++◌, Result, ok, err, map_err-ok, ◌>>=◌, opt_map, opt_bind, ltb, length,
  length-append, take, drop, All, [], ◌∷◌, unwrap_or, arith,
}
use mathlib.Core.Path.{subst}
use ldk_server.Text.{Text}
use ldk_server.Text.Find.{take-length}
use ldk_server.Text.Trim.{trim}
use ldk_server.Storage.Namespace.{IoError}
use ldk_server.Files.{Files, Disk, read_to_string, read_to_string-ok}
use ldk_server.Config.Toml.{
  EsploraConfig, ElectrumConfig, BitcoindConfig, LogConfig, TomlTlsConfig, TomlConfig,
}
use ldk_server.Tls.{TlsConfig}
use ldk_server.Config.{
  Parsers, ChainSource, rpc, electrum, esplora, Config, zeros, node_alias, parse_with,
  parse_addresses, parse_chain_source, parse_log_level, parse_rabbitmq, parse_lsps2, tls_from_toml,
  try_from, load_config, read_contents, read_toml,
}
use ldk_server.Config.Laws.{is_valid, try_from-Judged, Judged}

-- Without an alias in the file there is none; with one it has 32 bytes: its trimmed text, then zeros.
abbrev pub AliasFrom : Option Text → Option (List ℕ) → Type 0
AliasFrom none name = name ≡ none
AliasFrom (some s) name =
    (bytes : List ℕ) × (name ≡ some bytes)
    × (length bytes ≡ 32)
    × (take (length (trim s)) bytes ≡ trim s)
    × All (λ b. b ≡ 0) (drop (length (trim s)) bytes)

length-zeros : (n : ℕ) → length (zeros n) ≡ n
length-zeros zero = refl
length-zeros (suc n) = ap suc (length-zeros n)

zeros-zero : (n : ℕ) → All (λ b. b ≡ 0) (zeros n)
zeros-zero zero = tt
zeros-zero (suc n) = (refl, zeros-zero n)

drop-length : (t rest : Text) → drop (length t) (t ++ rest) ≡ rest
drop-length [] rest = refl
drop-length (x ∷ t) rest = drop-length t rest

padded : (t : Text) → ltb 32 (length t) ≡ false → length (t ++ zeros (32 - length t)) ≡ 32
padded t short =
    let total = length-append t (zeros (32 - length t)) in
    let rest = length-zeros (32 - length t) in ground (arith, total, rest, short)

node_alias-AliasFrom :
    (o : Option Text) (name : Option (List ℕ)) → node_alias o ≡ ok name → AliasFrom o name
unfolding node_alias
node_alias-AliasFrom none name h = cc h
node_alias-AliasFrom (some s) name h = elim (Bool-cases (ltb 32 (length (trim s)))) [
  | inl long ↦ cc (rw long at h)
  | inr short ↦ (
    trim s ++ zeros (32 - length (trim s)),
    cc (rw short at h),
    padded (trim s) short,
    take-length (trim s) (zeros (32 - length (trim s))),
    rw (drop-length (trim s) (zeros (32 - length (trim s)))) (zeros-zero (32 - length (trim s))),
  )
]

-- A property of the value of a result, if it has one.
abbrev OfValue : {A : Type 0} → (A → Type 0) → Result A IoError → Type 0
OfValue P (ok a) = P a
OfValue P (err e) = Unit

OfValue-ok : {A : Type 0} (P : A → Type 0) {a : A} → P a → OfValue P (ok a)
OfValue-ok P p = p

OfValue-bind :
    {A B : Type 0} (P : B → Type 0) (r : Result A IoError) (f : A → Result B IoError)
    → ((a : A) → r ≡ ok a → OfValue P (f a))
    → OfValue P (r >>= f)
OfValue-bind P (ok a) f k = k a refl
OfValue-bind P (err e) f k = tt

OfValue-map :
    {A : Type 0} {P Q : A → Type 0} (r : Result A IoError)
    → OfValue P r
    → ((a : A) → r ≡ ok a → P a → Q a)
    → OfValue Q r
OfValue-map (ok a) p k = k a refl p
OfValue-map (err e) p k = tt

-- The paths are those of the file, and the hosts too, none if it has none.
abbrev pub TlsFrom : Option TomlTlsConfig → Option TlsConfig → Type 0
TlsFrom none tls = tls ≡ none
TlsFrom (some t) tls =
    (config : TlsConfig) × (tls ≡ some config)
    × (config.cert_path ≡ t.cert_path)
    × (config.key_path ≡ t.key_path)
    × (config.hosts ≡ unwrap_or t.hosts [])

tls_from_toml-TlsFrom : (o : Option TomlTlsConfig) → TlsFrom o (opt_map tls_from_toml o)
tls_from_toml-TlsFrom none = refl
tls_from_toml-TlsFrom (some t) = (tls_from_toml t, refl, refl, refl, refl)

module _ (env : Parsers) where
  -- The chain source is the one that the file sets, and the file sets no other.
  abbrev pub SourceFrom : TomlConfig → ChainSource env → Type 0
  SourceFrom toml (rpc address user password) =
      (b : BitcoindConfig) × (toml.bitcoind ≡ some b)
      × (toml.electrum ≡ none)
      × (toml.esplora ≡ none)
      × (env.socket_addr b.rpc_address ≡ ok address)
      × (b.rpc_user ≡ user)
      × (b.rpc_password ≡ password)
  SourceFrom toml (electrum url) =
      (e : ElectrumConfig) × (toml.electrum ≡ some e)
      × (toml.bitcoind ≡ none)
      × (toml.esplora ≡ none)
      × (e.server_url ≡ url)
  SourceFrom toml (esplora url) =
      (e : EsploraConfig) × (toml.esplora ≡ some e)
      × (toml.bitcoind ≡ none)
      × (toml.electrum ≡ none)
      × (e.server_url ≡ url)

  -- The log level is the file's, or Debug.
  abbrev pub LevelFrom : Option LogConfig → env.LevelFilter → Type 0
  LevelFrom o level = elim (opt_bind o (λ (l : LogConfig). l.level)) [
    | none ↦ level ≡ env.debug
    | some s ↦ env.level_filter s ≡ ok level
  ]

  source-SourceFrom :
      (toml : TomlConfig) (source : ChainSource env)
      → parse_chain_source env toml ≡ ok source
      → SourceFrom toml source
  unfolding parse_chain_source
  source-SourceFrom toml (rpc address user password) h = elim (Option-cases toml.bitcoind) [
    | inl e ↦ ground arith
    | inr (b, e) ↦ (b, e, ground arith, ground arith, ground arith, ground arith, ground arith)
  ]
  source-SourceFrom toml (electrum url) h = elim (Option-cases toml.electrum) [
    | inl e ↦ ground arith
    | inr (b, e) ↦ (b, e, ground arith, ground arith, ground arith)
  ]
  source-SourceFrom toml (esplora url) h = elim (Option-cases toml.esplora) [
    | inl e ↦ ground arith
    | inr (b, e) ↦ (b, e, ground arith, ground arith, ground arith)
  ]

  level-LevelFrom :
      (o : Option LogConfig) (level : env.LevelFilter)
      → parse_log_level env o ≡ ok level
      → LevelFrom o level
  unfolding parse_log_level
  level-LevelFrom o level h = ground arith

  -- The configuration is made from this file.
  pub record MadeFrom (toml : TomlConfig) (config : Config env) : Type 0 where
    pub name : AliasFrom toml.node.alias config.alias
    pub source : SourceFrom toml config.chain_source
    pub level : LevelFrom toml.log config.log_level
    pub rest : env.socket_addr toml.node.rest_service_address ≡ ok config.rest_service_addr
    pub network : config.network ≡ toml.node.network
    pub tls : TlsFrom toml.tls config.tls_config

  parse_with-ok :
      {A : Type 0} (parse : Text → Result A Text) (what s : Text) (a : A)
      → parse_with env parse what s ≡ ok a
      → parse s ≡ ok a
  parse_with-ok parse what s a h = ground arith

  accepted-ok :
      (toml : TomlConfig) (config : Config env)
      → try_from env toml ≡ ok config
      → is_valid env toml ≡ true
  accepted-ok toml config h = subst (Judged (is_valid env toml)) h (try_from-Judged env toml)

  try_from-MadeFrom : (toml : TomlConfig) → OfValue (MadeFrom toml) (try_from env toml)
  unfolding try_from
  try_from-MadeFrom toml =
      OfValue-bind (MadeFrom toml) (parse_addresses env _ toml.node.listening_addresses) _ λ a ea.
        OfValue-bind (MadeFrom toml) (parse_addresses env _ toml.node.announcement_addresses) _
          λ b eb.
            OfValue-bind (MadeFrom toml)
              (parse_with env env.socket_addr _ toml.node.rest_service_address) _
              λ rest er. OfValue-bind (MadeFrom toml) (parse_chain_source env toml) _ λ source es.
                OfValue-bind (MadeFrom toml) (node_alias toml.node.alias) _ λ name en.
                  OfValue-bind (MadeFrom toml) (parse_log_level env toml.log) _ λ level el.
                    OfValue-bind (MadeFrom toml) (parse_rabbitmq env toml.rabbitmq) _ λ f ef.
                      OfValue-bind (MadeFrom toml) (parse_lsps2 env toml.liquidity) _ λ g eg.
                        OfValue-ok (MadeFrom toml) (record {
                          name = node_alias-AliasFrom toml.node.alias name en;
                          source = source-SourceFrom toml source es;
                          level = level-LevelFrom toml.log level el;
                          rest =
                              parse_with-ok env.socket_addr _ toml.node.rest_service_address rest
                                er;
                          network = refl;
                          tls = tls_from_toml-TlsFrom toml.tls;
                        })

  -- A configuration that load_config gives is that of the file's text as TOML, which is valid: its
  -- alias is the trimmed name filled with zeros to 32 bytes, its chain source is that of the one
  -- section there is, its log level the one named or debug, its REST address and network are the
  -- file's, and so are the two paths and the hosts of the TLS settings, if it has any.
  pub load_config-MadeFrom :
      (toml_from_str : Text → Result TomlConfig Text) (show : IoError → Text) (disk : Disk)
      (config_path : Text) (fs : Files) (config : Config env)
      → load_config env toml_from_str show disk config_path fs ≡ ok config
      → (contents : Text) × (toml : TomlConfig) × (fs config_path ≡ some contents)
        × (toml_from_str contents ≡ ok toml)
        × (is_valid env toml ≡ true)
        × MadeFrom toml config
  unfolding load_config
  load_config-MadeFrom toml_from_str show disk config_path fs config h = subst (OfValue Loaded) h (
      OfValue-bind Loaded (read_contents env show disk config_path fs) _ λ contents r.
        OfValue-bind Loaded (read_toml env toml_from_str contents) _ λ toml t.
          OfValue-map {P = MadeFrom toml} (try_from env toml) (try_from-MadeFrom toml) λ c e made. (
            contents,
            toml,
            read_to_string-ok disk config_path contents fs
                (map_err-ok _ (read_to_string disk config_path fs) r),
            map_err-ok _ (toml_from_str contents) t,
            accepted-ok toml c e,
            made,
          ))
    where
      Loaded : Config env → Type 0
      Loaded c =
          (contents : Text) × (toml : TomlConfig) × (fs config_path ≡ some contents)
          × (toml_from_str contents ≡ ok toml)
          × (is_valid env toml ≡ true)
          × MadeFrom toml c
