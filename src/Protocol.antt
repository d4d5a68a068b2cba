-- ===== src/Protocol.antt =====
-- DHP/1 from end to end: what client/conn.go writes, server/textserver.go handles, and its response, which
-- client/conn.go reads.
pub mod Request
pub mod Response
pub mod Exchange
pub mod System
pub mod Pipeline
mod Examples
