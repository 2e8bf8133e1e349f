-- ===== src/Cli.antt =====
-- ldk-server-cli: page tokens and paging, and the requests that the commands make.
pub mod Paging
pub mod Command
pub mod Printed
pub mod Sent
pub mod Settings
