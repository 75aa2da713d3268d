-- ===== src/Stream.antt =====
-- liveion/src/stream and liveion/src/forward: the streams of a server and the sessions of a stream.
pub mod Effects
pub mod Forward
pub mod Manager
