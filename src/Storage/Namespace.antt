-- ===== src/Storage/Namespace.antt =====
-- ldk-server/src/io/utils.rs: which namespaces and keys the store takes. A failed check is an error,
-- as in a release build; a debug build panics at the `debug_assert!` before it.
use ldk_server.Prelude.{
  ℕ, Bool, false, not, ◌&&◌, ◌||◌, Option, none, some, [], ◌∷◌, ◌++◌, Result, ok, err, leb, ◌==◌,
  length, all, if◌then◌else◌,
}
use ldk_server.Text.{Text, lit, is_empty}

-- `std::io::ErrorKind`, the kinds that the sources make
pub data ErrorKind : Type 0 where
  not_found invalid_input invalid_data other : ErrorKind

pub record IoError : Type 0 where
  pub kind : ErrorKind
  pub message : Text

-- `io::Error::other`
abbrev pub io_other : Text → IoError
io_other m = record { kind = other; message = m }

-- What the checks take from LDK: `KVSTORE_NAMESPACE_KEY_ALPHABET`,
-- `KVSTORE_NAMESPACE_KEY_MAX_LEN`, and how `PrintableString` shows a text.
pub record KvEnv : Type 0 where
  pub alphabet : Text
  pub max_len : ℕ
  pub printable : Text → Text

-- `str::contains` of a character
abbrev pub contains : ℕ → Text → Bool
contains c [] = false
contains c (a ∷ s) = a == c || contains c s

-- `is_valid_kvstore_str`
unfoldable pub is_valid_kvstore_str : KvEnv → Text → Bool
is_valid_kvstore_str env key =
    leb (length key) env.max_len && all (λ c. contains c env.alphabet) key

module _ (env : KvEnv) (primary_namespace secondary_namespace : Text) where
  -- the common part of the messages
  abbrev describe : Option Text → Text → Text
  describe key operation =
      lit "Failed to "
      ++ (operation
          ++ (b' '
              ∷ (env.printable primary_namespace
                  ++ (b'/'
                      ∷ (env.printable secondary_namespace
                          ++ elim key [ none ↦ [] | some k ↦ b'/' ∷ env.printable k ])))))

  -- `check_namespace_key_validity`
  unfoldable pub check_namespace_key_validity : Option Text → Text → Result (Unit {0}) IoError
  unfolding is_valid_kvstore_str
  check_namespace_key_validity (some key) operation =
      if is_empty key
      then err (io_other (describe (some key) operation ++ lit ": key may not be empty."))
      else if is_empty primary_namespace && not (is_empty secondary_namespace)
      then err (
          io_other (
            describe (some key) operation
            ++ lit
                ": primary namespace may not be empty if a non-empty secondary namespace is given."))
      else if not (is_valid_kvstore_str env primary_namespace)
          || not (is_valid_kvstore_str env secondary_namespace)
          || not (is_valid_kvstore_str env key)
      then err (
          io_other (
            describe (some key) operation
            ++ lit ": primary namespace, secondary namespace, and key must be valid."))
      else ok tt
  check_namespace_key_validity none operation =
      if is_empty primary_namespace && not (is_empty secondary_namespace)
      then err (
          io_other (
            describe none operation
            ++ lit
                ": primary namespace may not be empty if a non-empty secondary namespace is given."))
      else if not (is_valid_kvstore_str env primary_namespace)
          || not (is_valid_kvstore_str env secondary_namespace)
      then err (
          io_other (
            describe none operation
            ++ lit ": primary namespace and secondary namespace must be valid."))
      else ok tt
