-- ===== src/Proto.antt =====
-- The messages and constants of ldk-server-protos, as far as the other parts use them.
pub mod Responses
pub mod ErrorCode
pub mod Endpoints
pub mod Operations
