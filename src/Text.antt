-- ===== src/Text.antt =====
-- Rust's `String` and `&str` as the list of their UTF-8 bytes, with the methods of the standard
-- library that the sources call on them.
mod Basic
pub mod Equality
pub mod Decimal
pub mod Split
pub mod Find
pub mod Trim
pub mod Order
pub mod Utf8
unfoldable pub use Basic.*
