-- ===== src/Splitter.antt =====
-- rust/src/splitter.rs: the MTProto message splitter.
pub mod Buffer
pub mod Lengths
pub mod Split
pub mod Scan
pub mod Shadow
pub mod Lossless
pub mod Packets
pub mod Cuts
pub mod Frames
