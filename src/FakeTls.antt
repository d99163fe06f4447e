-- ===== src/FakeTls.antt =====
-- rust/src/faketls.rs: the fake TLS 1.3 handshake and the framing of its data phase.
pub mod Record
pub mod Framing
pub mod Utf8
pub mod ClientHello
pub mod HelloBody
pub mod ServerName
pub mod Signed
pub mod Authentic
pub mod ServerHello
