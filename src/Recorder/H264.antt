-- ===== src/Recorder/H264.antt =====
-- liveion/src/recorder/codec/h264.rs.
pub mod NalUnit
pub mod Adapter
pub mod Rtp
pub mod Pipeline
mod Tests
