-- ===== src/Recorder/H265.antt =====
-- liveion/src/recorder/codec/h265.rs.
pub mod NalUnit
pub mod Adapter
pub mod Rtp
mod Tests
