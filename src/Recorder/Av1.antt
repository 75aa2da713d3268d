-- ===== src/Recorder/Av1.antt =====
-- liveion/src/recorder/codec/av1.rs.
pub mod Error
pub mod Leb128
pub mod Obu
pub mod BitReader
pub mod ColorConfig
pub mod SequenceHeader
pub mod ConfigRecord
pub mod Adapter
pub mod Rtp
mod Tests
