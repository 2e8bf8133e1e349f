-- ===== src/Storage/Sqlite/Open.antt =====
-- `SqliteStore::new` of ldk-server/src/io/persist/sqlite_store/mod.rs, with the default names: the
-- version of the schema, and the table, if it has been created. The steps that fail are arguments.
use ldk_server.Prelude.{
  ℕ, ◌≡◌, Option, none, some, List, [], ◌++◌, Result, ok, err, if◌then◌else◌, ltb, leb, ◌==◌,
  unwrap_or, arith,
}
use ldk_server.Text.{Text, lit}
use ldk_server.Text.Decimal.{show_nat}
use ldk_server.Storage.Namespace.{IoError, io_other}
use ldk_server.Storage.Sqlite.{Row}

abbrev pub schema_user_version : ℕ
schema_user_version = 1

pub record Database : Type 0 where
  pub user_version : ℕ
  pub table : Option (List Row)

-- What each step prints if it fails, the names of the paths included.
pub record Faults : Type 0 where
  pub create_dir : Option Text
  pub open_file : Option Text
  pub set_version : Option Text
  pub create_table : Option Text
  pub create_index : Option Text

-- `CREATE TABLE IF NOT EXISTS`
abbrev created : Database → Database
created db = record db { table = some (unwrap_or db.table []) }

-- the table and the index
abbrev create_all : Faults → Database → Result (Unit {0}) IoError × Database
create_all faults db = elim faults.create_table [
  | some e ↦ (err (io_other (lit "Failed to create table " ++ e)), db)
  | none ↦ elim faults.create_index [
    | some e ↦
        (err (io_other (lit "Failed to create index on creation_time, table " ++ e)), created db)
    | none ↦ (ok tt, created db)
  ]
]

-- the check of the version
abbrev check_version : Faults → Database → Result (Unit {0}) IoError × Database
check_version faults db =
    if db.user_version == 0
    then elim faults.set_version [
      | some e ↦ (err (io_other (lit "Failed to set PRAGMA user_version: " ++ e)), db)
      | none ↦ create_all faults (record db { user_version = schema_user_version })
    ]
    else if ltb schema_user_version db.user_version
    then (
      err (
          io_other (
            lit "Failed to open database: incompatible schema version "
            ++ (show_nat db.user_version ++ (lit ". Expected: " ++ show_nat schema_user_version)))),
      db,
    )
    else create_all faults db

-- `SqliteStore::new`; none is the panic on a version that is no `u16`.
unfoldable pub new_store : Faults → Database → Option (Result (Unit {0}) IoError × Database)
new_store faults db = elim faults.create_dir [
  | some e ↦ some (err (io_other (lit "Failed to create database destination directory " ++ e)), db)
  | none ↦ elim faults.open_file [
    | some e ↦ some (err (io_other (lit "Failed to open/create database file " ++ e)), db)
    | none ↦ if leb db.user_version 65535 then some (check_version faults db) else none
  ]
]

-- Opening a database, successful or not, loses no row: the rows of its table, or none if there was no
-- table, are those of the table afterwards.
pub new_store-rows :
    (faults : Faults) (db after : Database) (r : Result (Unit {0}) IoError)
    → new_store faults db ≡ some (r, after)
    → unwrap_or after.table [] ≡ unwrap_or db.table []
unfolding new_store
new_store-rows faults db after r h = ground arith
