-- ===== src/Recorder/Segmenter.antt =====
-- liveion/src/recorder/segmenter.rs: frames become the files of a DASH recording.
pub mod Interface
pub mod State
pub mod AspectRatio
pub mod Manifest
pub mod Fmtp
pub mod Audio
pub mod Video
pub mod Adapters
pub mod Track
