-- ===== src/Tools.antt =====
-- The command-line tools: tools/keyspace and tools/loadtest.
pub mod Keyspace
pub mod Loadtest
pub mod Weights
mod Examples
