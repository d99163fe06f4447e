-- ===== src/Proxy.antt =====
-- rust/src/proxy.rs: cooldowns, balancing, the inbound handshake and the bridges.
pub mod Cooldown
pub mod Balance
pub mod Bridge
pub mod Upload
pub mod EndToEnd
pub mod Download
pub mod Inbound
pub mod Filled
pub mod Accept
pub mod Session
pub mod Carry
pub mod Delivery
pub mod Interleaving
pub mod Ending
pub mod Upstream
pub mod Chain
pub mod WsSession
pub mod WsDelivery
pub mod WsServed
pub mod Client
pub mod Returns
pub mod Tiers
pub mod Route
pub mod Dials
pub mod Ladder
