-- ===== src/WsClient.antt =====
-- rust/src/ws_client.rs: the host names of a data centre and the walks over them.
pub mod Records
pub mod Connect
pub mod Attempts
pub mod Queue
pub mod Walk
pub mod Flags
