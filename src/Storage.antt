-- ===== src/Storage.antt =====
-- ldk-server/src/io: the paginated key-value store and its SQLite implementation.
pub mod Namespace
pub mod Sqlite
