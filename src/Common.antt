-- ===== src/Common.antt =====
-- The common library (libs/repoviva-common): signatures, request ids and messages.
pub mod Decimal
pub mod Hmac
pub mod Http
pub mod RequestId
pub mod Messaging
