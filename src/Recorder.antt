-- ===== src/Recorder.antt =====
-- liveion/src/recorder: what turns the media of a stream into files.
pub mod BitString
pub mod Codec
pub mod Reader
pub mod Av1
pub mod Vp9
pub mod AnnexB
pub mod Fmp4
pub mod Segmenter
pub mod H264
pub mod H265
pub mod PliBackoff
