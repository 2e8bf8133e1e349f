-- ===== src/Config/Laws.antt =====
-- Which configuration files are taken, for ldk-server/src/util/config.rs.
use ldk_server.Prelude.{
  ℕ, ◌+◌, ◌≡◌, refl, Bool, true, false, ◌&&◌, ◌||◌, not, Option, none, some, List, [], ◌∷◌, Result,
  ok, err, ◌>>=◌, transpose, map, opt_bind, is_some, leb, ◌==◌, length, all, arith,
}
use ldk_server.Text.{Text, is_empty}
use ldk_server.Text.Trim.{trim}
use ldk_server.Storage.Namespace.{IoError, invalid_input}
use ldk_server.Config.Toml.{BitcoindConfig, LogConfig, RabbitmqConfig, LiquidityConfig, TomlConfig}
use ldk_server.Config.{
  Parsers, collect, node_alias, parse_with, parse_addresses, parse_chain_source, parse_log_level,
  parse_rabbitmq, parse_lsps2, try_from,
}

abbrev is_ok : {A E : Type 0} → Result A E → Bool
is_ok (ok a) = true
is_ok (err e) = false

-- The result is a value if the test holds, and an invalid input if it does not.
abbrev pub Judged : {A : Type 0} → Bool → Result A IoError → Type 0
Judged b (ok a) = b ≡ true
Judged b (err e) = (b ≡ false) × (e.kind ≡ invalid_input)

Judged-bind :
    {A B : Type 0} (b c : Bool) (r : Result A IoError) (f : A → Result B IoError)
    → Judged b r
    → ((a : A) → Judged c (f a))
    → Judged (b && c) (r >>= f)
Judged-bind true c (ok a) f j k = k a
Judged-bind false c (ok a) f j k = cc j
Judged-bind true c (err e) f (j, i) k = cc j
Judged-bind false c (err e) f (j, i) k = (refl, i)

-- The same for a value that is put together at the end.
Judged-then :
    {A B : Type 0} (b : Bool) (r : Result A IoError) (f : A → B)
    → Judged b r
    → Judged b (r >>= λ a. ok (f a))
Judged-then b (ok a) f j = j
Judged-then b (err e) f j = j

Judged-transpose :
    {A : Type 0} (b : Bool) (r : Result A IoError) → Judged b r → Judged b (transpose (some r))
Judged-transpose b (ok a) j = j
Judged-transpose b (err e) j = j

module _ (env : Parsers) where
  abbrev parses : {A : Type 0} → (Text → Result A Text) → Text → Bool
  parses parse s = is_ok (parse s)

  -- an option that is absent, or passes the test
  abbrev if_some : {A : Type 0} → (A → Bool) → Option A → Bool
  if_some p none = true
  if_some p (some a) = p a

  abbrev one_if : {A : Type 0} → Option A → ℕ
  one_if none = 0
  one_if (some a) = 1

  -- A single chain source is set, and bitcoind's address can be read.
  abbrev single_source : TomlConfig → Bool
  single_source toml =
      one_if toml.esplora + one_if toml.electrum + one_if toml.bitcoind == 1
      && if_some (λ (b : BitcoindConfig). parses env.socket_addr b.rpc_address) toml.bitcoind

  abbrev both_set : RabbitmqConfig → Bool
  both_set r = not (is_empty r.connection_string) && not (is_empty r.exchange_name)

  -- What is asked of a configuration file.
  abbrev pub is_valid : TomlConfig → Bool
  is_valid toml =
      if_some (λ xs. all (λ s. parses env.socket_address s) xs) toml.node.listening_addresses
      && (if_some (λ xs. all (λ s. parses env.socket_address s) xs) toml.node.announcement_addresses
          && (parses env.socket_addr toml.node.rest_service_address
              && (single_source toml
                  && (if_some (λ s. leb (length (trim s)) 32) toml.node.alias
                      && (if_some
                            (λ (l : LogConfig). if_some (λ s. parses env.level_filter s) l.level)
                            toml.log
                          && ((not env.events_rabbitmq
                                || is_some toml.rabbitmq && if_some both_set toml.rabbitmq)
                              && (not env.experimental_lsps2_support
                                  || is_some (
                                      opt_bind toml.liquidity
                                        (λ (l : LiquidityConfig). l.lsps2_service)))))))))

  parse_with-Judged :
      {A : Type 0} (parse : Text → Result A Text) (what s : Text)
      → Judged (parses parse s) (parse_with env parse what s)
  parse_with-Judged parse what s = ground arith

  collect-Judged :
      (what : Text) (xs : List Text)
      → Judged
          (all (λ s. parses env.socket_address s) xs)
          (collect (map (parse_with env env.socket_address what) xs))
  collect-Judged what [] = refl
  collect-Judged what (x ∷ xs) =
      Judged-bind _ _ _ _ (parse_with-Judged env.socket_address what x)
        (λ a. Judged-then _ _ _ (collect-Judged what xs))

  addresses-Judged :
      (what : Text) (o : Option (List Text))
      → Judged
          (if_some (λ xs. all (λ s. parses env.socket_address s) xs) o)
          (parse_addresses env what o)
  unfolding parse_addresses
  addresses-Judged what none = refl
  addresses-Judged what (some xs) = Judged-transpose _ _ (collect-Judged what xs)

  source-Judged : (toml : TomlConfig) → Judged (single_source toml) (parse_chain_source env toml)
  unfolding parse_chain_source
  source-Judged toml = ground arith

  alias-Judged :
      (o : Option Text) → Judged (if_some (λ s. leb (length (trim s)) 32) o) (node_alias o)
  unfolding node_alias
  alias-Judged none = refl
  alias-Judged (some s) = ground arith

  level-Judged :
      (o : Option LogConfig)
      → Judged
          (if_some (λ (l : LogConfig). if_some (λ s. parses env.level_filter s) l.level) o)
          (parse_log_level env o)
  unfolding parse_log_level
  level-Judged none = refl
  level-Judged (some l) = ground arith

  rabbitmq-Judged :
      (o : Option RabbitmqConfig)
      → Judged (not env.events_rabbitmq || is_some o && if_some both_set o) (parse_rabbitmq env o)
  unfolding parse_rabbitmq
  rabbitmq-Judged o = ground arith

  lsps2-Judged :
      (o : Option LiquidityConfig)
      → Judged
          (not env.experimental_lsps2_support
            || is_some (opt_bind o (λ (l : LiquidityConfig). l.lsps2_service)))
          (parse_lsps2 env o)
  unfolding parse_lsps2
  lsps2-Judged o = ground arith

  -- A parsed configuration file is accepted exactly if all its addresses and the log level parse, it
  -- has one chain source, its trimmed alias has at most 32 bytes, and the sections that the enabled
  -- features need are there; every refusal is an InvalidInput error.
  pub try_from-Judged : (toml : TomlConfig) → Judged (is_valid toml) (try_from env toml)
  unfolding try_from
  try_from-Judged toml = Judged-bind _ _ _ _ (addresses-Judged _ toml.node.listening_addresses) λ a.
      Judged-bind _ _ _ _ (addresses-Judged _ toml.node.announcement_addresses) λ b.
        Judged-bind _ _ _ _ (parse_with-Judged env.socket_addr _ toml.node.rest_service_address)
          λ c. Judged-bind _ _ _ _ (source-Judged toml) λ d.
            Judged-bind _ _ _ _ (alias-Judged toml.node.alias) λ e.
              Judged-bind _ _ _ _ (level-Judged toml.log) λ f.
                Judged-bind _ _ _ _ (rabbitmq-Judged toml.rabbitmq)
                  λ g. Judged-then _ _ _ (lsps2-Judged toml.liquidity)
