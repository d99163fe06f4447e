-- ===== src/Examples.antt =====
-- The theorems at concrete inputs, with concrete functions in place of the crates'.
pub mod Toy
mod Crypto
mod Splitter
mod FakeTls
mod Proxy
mod Inbound
mod Session
mod Chain
mod Client
mod Http
mod Link
mod WsClient
mod Outbound
mod Pool
