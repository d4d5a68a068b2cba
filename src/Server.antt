-- ===== src/Server.antt =====
-- The package server: the bucket store, the throttler over it, and the text protocol.
pub mod Store
pub mod Throttling
pub mod Text
pub mod Limit
pub mod Listening
mod Examples
