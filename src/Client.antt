-- ===== src/Client.antt =====
-- The package client: the sharded DHP/1 client, its connections and their circuit breakers.
pub mod Breaker
pub mod Conn
pub mod Pipe
pub mod Sharded
pub mod Wire
mod Examples
