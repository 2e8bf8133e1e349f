-- ===== src/Storage/Sqlite.antt =====
-- ldk-server/src/io/persist/sqlite_store/mod.rs: the table, and the three SQL statements as
-- functions on it. What SQLite itself may report is an argument of each operation.
pub mod Open
pub mod Order
pub mod Table
pub mod Access
pub mod Listing
pub mod Pages
pub mod Latest
use ldk_server.Prelude.{
  ℕ, ◌+◌, Bool, true, false, ◌&&◌, ◌||◌, Option, none, some, List, [], ◌∷◌, ◌++◌, map, Result, ok,
  err, ◌>>=◌, ◌>>◌, if◌then◌else◌, find?, filter, take, last?, unwrap_or, ltb,
}
use ldk_server.Prelude.Int.{ℤ, ltb_ℤ, eqb_ℤ, i64_max}
use ldk_server.Text.{Text, lit, text_eq}
use ldk_server.Text.Order.{text_lt}
use ldk_server.Storage.Namespace.{KvEnv, IoError, not_found, io_other, check_namespace_key_validity}

-- A row of the table, with its columns.
pub record Row : Type 0 where
  pub primary_namespace : Text
  pub secondary_namespace : Text
  pub key : Text
  pub creation_time : ℤ
  pub value : List ℕ

-- How SQLite does: it works, it refuses to prepare the statement, or it fails to run it.
pub data Engine : Type 0 where
  works : Engine
  prepare_fails run_fails : Text → Engine

-- `LIST_KEYS_MAX_PAGE_SIZE`
abbrev pub list_keys_max_page_size : ℕ
list_keys_max_page_size = 100

-- The name and time of a row: what a page lists it by, and what a page token is.
abbrev pub Cursor : Type 0
Cursor = Text × ℤ

abbrev pub cursor : Row → Cursor
cursor r = (r.key, r.creation_time)

-- `ListResponse`
pub record ListResponse : Type 0 where
  pub keys : List Text
  pub next_page_token : Option Cursor

-- WHERE primary_namespace=… AND secondary_namespace=…
abbrev pub in_namespace : Text → Text → Row → Bool
in_namespace p n r = text_eq r.primary_namespace p && text_eq r.secondary_namespace n

-- … AND key=…
abbrev pub has_key : Text → Text → Text → Row → Bool
has_key p n k r = in_namespace p n r && text_eq r.key k

-- … AND ( creation_time < … OR (creation_time = … AND key > …) ), on the page token and a row
unfoldable pub is_behind : Cursor → Cursor → Bool
is_behind (key_token, creation_time_token) (key, creation_time) =
    ltb_ℤ creation_time creation_time_token
    || eqb_ℤ creation_time creation_time_token && text_lt key_token key

-- ORDER BY creation_time DESC, key ASC
unfoldable pub before : Cursor → Cursor → Bool
before (k, t) (k', t') = ltb_ℤ t' t || eqb_ℤ t' t && text_lt k k'

insert_cursor : Cursor → List Cursor → List Cursor
insert_cursor c [] = c ∷ []
insert_cursor c (d ∷ s) = if before c d then c ∷ d ∷ s else d ∷ insert_cursor c s

unfoldable pub order_by : List Cursor → List Cursor
unfolding insert_cursor
order_by [] = []
order_by (c ∷ s) = insert_cursor c (order_by s)

-- The rows of the `SELECT` of `list`.
pub select_page : Text → Text → Cursor → List Row → List Cursor
select_page p n token table =
    take list_keys_max_page_size
      (order_by (filter (is_behind token) (map cursor (filter (in_namespace p n) table))))

-- INSERT … ON CONFLICT(primary_namespace, secondary_namespace, key) DO UPDATE SET value
unfoldable pub upsert : Row → List Row → List Row
upsert row [] = row ∷ []
upsert row (r ∷ table) =
    if has_key row.primary_namespace row.secondary_namespace row.key r
    then record r { value = row.value } ∷ table
    else r ∷ upsert row table

-- The loop over the rows of a page: the keys, and the time of the last one.
gather : List Text → Option ℤ → List Cursor → List Text × Option ℤ
gather keys last_creation_time [] = (keys, last_creation_time)
gather keys last_creation_time ((k, ct) ∷ rows) = gather (keys ++ k ∷ []) (some ct) rows

-- `if let (Some(k), Some(ct)) = (last_key, last_creation_time)`
abbrev both : Option Text → Option ℤ → Option Cursor
both (some k) (some ct) = some (k, ct)
both (some k) none = none
both none ct = none

pub list_response : List Cursor → ListResponse
unfolding gather
list_response rows =
    let (keys, last_creation_time) = gather [] none rows in
    record { keys = keys; next_page_token = both (last? keys) last_creation_time }

module _ (env : KvEnv) (engine : Engine) (primary_namespace secondary_namespace : Text) where
  abbrev shown : Text → Text
  shown key =
      env.printable primary_namespace
      ++ (b'/' ∷ (env.printable secondary_namespace ++ (b'/' ∷ env.printable key)))

  -- `read` and `read_internal`
  unfoldable pub read : Text → List Row → Result (List ℕ) IoError
  read key table = do
    check_namespace_key_validity env primary_namespace secondary_namespace (some key) (lit "read")
    elim engine [
      | prepare_fails e ↦ err (io_other (lit "Failed to prepare statement: " ++ e))
      | run_fails e ↦
          err (io_other (lit "Failed to read from key " ++ (shown key ++ (lit ": " ++ e))))
      | works ↦ elim (find? (has_key primary_namespace secondary_namespace key) table) [
        | none ↦ err (record {
          kind = not_found;
          message = lit "Failed to read as key could not be found: " ++ shown key;
        })
        | some row ↦ ok row.value
      ]
    ]

  abbrev run_write : Text → ℤ → List ℕ → List Row → Result (Unit {0}) IoError × List Row
  run_write key time buf table = elim engine [
    | prepare_fails e ↦ (err (io_other (lit "Failed to prepare statement: " ++ e)), table)
    | run_fails e ↦
        (err (io_other (lit "Failed to write to key " ++ (shown key ++ (lit ": " ++ e)))), table)
    | works ↦ (
      ok tt,
      upsert
          (record {
            primary_namespace = primary_namespace;
            secondary_namespace = secondary_namespace;
            key = key;
            creation_time = time;
            value = buf;
          })
          table,
    )
  ]

  -- `write`
  unfoldable pub write : Text → ℤ → List ℕ → List Row → Result (Unit {0}) IoError × List Row
  write key time buf table =
      elim (check_namespace_key_validity env primary_namespace secondary_namespace (some key)
        (lit "write")) [ err e ↦ (err e, table) | ok _ ↦ run_write key time buf table ]

  -- `list`
  unfoldable pub list : Option Cursor → List Row → Result ListResponse IoError
  unfolding list_response
  list page_token table = do
    check_namespace_key_validity env primary_namespace secondary_namespace none (lit "list")
    elim engine [
      | prepare_fails e ↦ err (io_other (lit "Failed to prepare statement: " ++ e))
      | run_fails e ↦ err (io_other (lit "Failed to retrieve queried rows: " ++ e))
      | works ↦ ok (
          list_response (
            select_page primary_namespace secondary_namespace (unwrap_or page_token ([], i64_max))
              table))
    ]
