-- ===== src/Recorder/Fmp4.antt =====
-- liveion/src/recorder/fmp4.rs: the boxes of fragmented MP4.
pub mod Boxes
pub mod Tables
pub mod Fragment
pub mod Writer
pub mod SampleEntry
pub mod Init
mod Tests
