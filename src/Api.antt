-- ===== src/Api.antt =====
-- ldk-server/src/api: the errors and the request handlers.
pub mod Error
pub mod Act
pub mod Node
pub mod ChannelConfig
pub mod Channels
pub mod PaymentArgs
pub mod Payments
pub mod ListPayments
