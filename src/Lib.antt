-- ===== src/Lib.antt =====
-- live777: a WebRTC SFU with WHIP and WHEP, and a recorder that turns incoming RTP into
-- fragmented MP4.
--
-- This development is about the recorder, the part of live777 that interprets bytes from the
-- network and writes files, about the streams of a server and their sessions, the nodes of a
-- cluster, access by tokens, and the topics of the tunnel over MQTT. An RTP parser (`push_packet`)
-- collects the payloads of packets into frames; a codec adapter (`convert_frame`) takes each frame,
-- keeps the codec configuration that it finds in it, and converts the frame into the form that fMP4
-- stores; the segmenter (`push_video_frame`, `push_opus`) collects the frames into segments, lets the
-- fMP4 writer build their bytes, and stores them with the manifest of the recording. The stream
-- manager keeps the streams, which sessions publish and subscribe; what is done to gauges, events and
-- peers is a log, and what can happen to a stream or to the manager is a step relation. All of this
-- is plain state passing here: a method that takes `&mut self`, or that changes what a lock guards, is
-- a function from the old value to the new one.
--
-- Files, and the code that they are about (paths from the repository's root):
--   Prelude, Prelude/*        lists of bytes, Boolean tests, machine words, Rust's fallible
--                             functions (`Outcome`: a value, an error, a panic), decimal text
--   Recorder/BitString        what a bit field of a byte string is
--   Recorder/Codec            liveion/src/recorder/codec/mod.rs: the values exchanged
--   Recorder/Av1/*            liveion/src/recorder/codec/av1.rs: `Leb128`, `Obu` (temporal units),
--                             `BitReader`, `ColorConfig`, `SequenceHeader`, `ConfigRecord` (av1C and
--                             the codec string), `Adapter` (`Av1Adapter`), `Rtp` (`Av1RtpParser`)
--   Recorder/Reader           the struct `BitReader` that both codecs declare, and programs that read
--   Recorder/Vp9/*            liveion/src/recorder/codec/vp9.rs: `BitReader`, `Header`
--                             (`Vp9FrameHeader`), `Adapter` (`Vp9Adapter`), `Rtp` (`Vp9RtpParser`, over
--                             the depacketizer of the webrtc crate, a parameter)
--   Recorder/AnnexB           the scan for start codes that codec/h264.rs and codec/h265.rs share, and
--                             `nalu_to_avcc` of liveion/src/recorder/fmp4.rs
--   Recorder/H264/*           liveion/src/recorder/codec/h264.rs: `NalUnit`, `Adapter` (`H264Adapter`;
--                             the decoder of parameter sets is a parameter), `Rtp` (`H264RtpParser`,
--                             over the depacketizer, a parameter), and `Pipeline`, the adapter behind
--                             the parser, for a depacketizer that puts a start code before each
--                             NAL unit, as the one of the webrtc crate does
--   Recorder/H265/*           liveion/src/recorder/codec/h265.rs: `NalUnit`, `Adapter` (`H265Adapter`;
--                             the scuffle_h265 crate is a parameter), `Rtp` (`H265RtpParser`, over the
--                             depacketizer, a parameter)
--   Recorder/PliBackoff       liveion/src/recorder/pli_backoff.rs (the multiplication of `f64` is a
--                             parameter), and `Schedule`, the keyframe requests of
--                             liveion/src/recorder/task.rs
--   Net4mqtt/Topic            libs/net4mqtt/src/topic.rs
--   Recorder/Fmp4/*           liveion/src/recorder/fmp4.rs: `Boxes`, `Tables` (the standalone box
--                             builders), `SampleEntry`, `Init` (the initialization segment), `Fragment`
--                             (media fragments), `Writer` (`Fmp4Writer`). `Fragment/Reader` and
--                             `Init/Reading`, with `Init/Config` for the configuration box, say how a
--                             player reads what they build
--   Recorder/Segmenter/*      liveion/src/recorder/segmenter.rs: `State`, `Manifest` (the MPD),
--                             `AspectRatio`, `Fmtp`, `Audio` and `Video` (`Segmenter`; what is handed over
--                             to be written is a list, `f64` is a parameter), `Interface` (the trait
--                             `CodecAdapter`), `Adapters` (`create_video_adapter`), and `Track`, the
--                             open segment, the closed ones and their files. `Track/Playback` says what a
--                             player finds of them when some of the writes fail
--   Stream/Effects            liveion/src/metrics.rs, liveion/src/hook/mod.rs: gauges and events, as a log
--   Stream/Forward            liveion/src/forward/internal.rs: the sessions of a stream
--                             (`PeerForwardInternal`; peer connections are the webrtc crate, and the
--                             session that one gives is an argument), `Lifecycle`, what can happen to them
--   Stream/Manager            liveion/src/stream/manager.rs: `Manager`, `Ticks` (its periodic checks),
--                             `Streams` (the map), `Invariant`, `Calls` and `Steps` (any call), `Expiry`
--   Auth/Access               libs/auth/src/access.rs, claims.rs and lib.rs, the paths of
--                             libs/api/src/path.rs, and the claims of liveman/src/admin.rs; `Decision`
--                             says what a token allows
--   Cluster/Storage           liveman/src/store.rs: `Storage`, and `Hosts`, what an update knows
--
-- Machine integers are numbers with their wrap-around written out (`u8`, `u16`, `u32`, `u64`);
-- `usize` is taken to have 64 bits, and sums of lengths are taken not to overflow it. An index
-- or a slice out of bounds and an `expect` are `panic`. Loops over a byte string are recursion on
-- the accessibility of its length (`Shorter`), loops over a number on that of the number, so none of
-- them has fuel that could run out. Logging is left out; error texts are constructors. A time is a
-- number; the time since one that lies ahead is 0, which exceeds no timeout.
--
-- Not modelled: the rest of liveion (peer connections, the copying of media, routes, hooks) and of
-- liveman, livetwo and livecam, which drive third-party crates, and of the recorder the tasks that
-- move packets and the index of recordings.
pub mod Prelude
pub mod Recorder
pub mod Net4mqtt
pub mod Stream
pub mod Auth
pub mod Cluster
