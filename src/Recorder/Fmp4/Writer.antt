-- ===== src/Recorder/Fmp4/Writer.antt =====
-- fmp4.rs, `Fmp4Writer`: what is known of a track.
use live.Prelude.{ℕ, Bool, true, false, Bytes, List}
use live.Recorder.Fmp4.Fragment.{Mp4Sample, build_fragment_internal}

pub data TrackKind : Type 0 where
  video : TrackKind
  audio : TrackKind

-- `self.kind == TrackKind::Video`.
abbrev pub is_video : TrackKind → Bool
is_video video = true
is_video audio = false

pub record Fmp4Writer : Type 0 where
  pub timescale : ℕ
  pub track_id : ℕ
  pub width : ℕ
  pub height : ℕ
  pub channels : ℕ
  pub sample_rate : ℕ
  pub kind : TrackKind
  pub codec_string : Bytes
  pub codec_config : List Bytes

abbrev pub new :
    (timescale track_id width height : ℕ) (codec_string : Bytes) (codec_config : List Bytes)
    → Fmp4Writer
new timescale track_id width height codec_string codec_config = record {
  timescale = timescale;
  track_id = track_id;
  width = width;
  height = height;
  channels = 0;
  sample_rate = 0;
  kind = video;
  codec_string = codec_string;
  codec_config = codec_config;
}

abbrev pub new_audio :
    (timescale track_id channels sample_rate : ℕ) (codec_string : Bytes) (codec_config : List Bytes)
    → Fmp4Writer
new_audio timescale track_id channels sample_rate codec_string codec_config = record {
  timescale = timescale;
  track_id = track_id;
  width = 0;
  height = 0;
  channels = channels;
  sample_rate = sample_rate;
  kind = audio;
  codec_string = codec_string;
  codec_config = codec_config;
}

abbrev pub build_fragment : Fmp4Writer → (seq_number base_time : ℕ) → List Mp4Sample → Bytes
build_fragment w seq_number base_time samples =
    build_fragment_internal w.track_id seq_number base_time samples
