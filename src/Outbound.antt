-- ===== src/Outbound.antt =====
-- rust/src/outbound/config.rs: the outbound proxy and the hosts that bypass it.
pub mod Url
pub mod NoProxy
pub mod Select
pub mod Hosts
pub mod Order
