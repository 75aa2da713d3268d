-- ===== src/Recorder/Vp9.antt =====
-- liveion/src/recorder/codec/vp9.rs.
pub mod BitReader
pub mod Header
pub mod Adapter
pub mod Rtp
mod Tests
