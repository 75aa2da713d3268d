-- ===== src/Recorder/Segmenter/State.antt =====
-- segmenter.rs, `Segmenter`: its state and what changes single parts of it.
use live.Prelude.{
  ℕ, ◌+◌, ◌-◌, ◌*◌, ◌^◌, ◌%◌, Bool, true, false, ◌||◌, not, Bytes, List, [], ◌∷◌, ◌++◌, ltb,
  if◌then◌else◌, Option, none, some, codes, Outcome, u32, u64, bytes_eq,
}
use live.Recorder.PliBackoff
use live.Recorder.PliBackoff.{PliBackoff}
use live.Recorder.Fmp4.Fragment.{Mp4Sample}
use live.Recorder.Fmp4.Writer.{Fmp4Writer}
use live.Recorder.Segmenter.Interface.{VideoCodec, CodecAdapters, VideoCodec-discrete}

abbrev pub default_seg_duration : ℕ
default_seg_duration = 10

-- `a - b` on `u64`.
abbrev pub sub_u64 : ℕ → ℕ → ℕ
sub_u64 a b = (a + 2 ^ 64 - b) % 2 ^ 64

pub record SegmentInfo : Type 0 where
  pub start_time : ℕ
  pub duration : ℕ

-- A write that is handed to a background task.
pub record StoredFile : Type 0 where
  pub path : Bytes
  pub content : Bytes

-- `A` are the codec adapters, `F` the numbers of `f64`. In place of the storage operator stands the
-- list of the writes so far, the first one first; the name of the stream is for logging only.
pub record Segmenter (A F : Type 0) : Type 0 where
  pub path_prefix : Bytes
  pub timescale : ℕ
  pub seg_duration_ticks : ℕ
  pub video_seg_index : ℕ
  pub video_seg_start_dts : ℕ
  pub video_track_id : Option ℕ
  pub audio_track_id : Option ℕ
  pub video_samples : List Mp4Sample
  pub audio_samples : List Mp4Sample
  pub video_width : ℕ
  pub video_height : ℕ
  pub video_codec : Bytes
  pub video_current_pts : ℕ
  pub frame_rate : ℕ
  pub total_bytes : ℕ
  pub total_ticks : ℕ
  pub fmp4_writer : Option Fmp4Writer
  pub audio_writer : Option Fmp4Writer
  pub audio_seg_index : ℕ
  pub audio_seg_start_pts : ℕ
  pub audio_current_pts : ℕ
  pub audio_sample_rate : ℕ
  pub audio_channels : ℕ
  pub audio_codec : Bytes
  pub audio_total_bytes : ℕ
  pub audio_total_ticks : ℕ
  pub pli_backoff : PliBackoff F
  pub video_codec_kind : Option VideoCodec
  pub video_adapter : Option A
  pub segments : List SegmentInfo
  pub audio_segments : List SegmentInfo
  pub stored : List StoredFile

-- No operation returns an error; an `expect` on `None` is a panic.
abbrev pub Result : Type 0 → Type 0
Result = Outcome ⊥

module _ {A F : Type 0} where
  abbrev pub new : F → (root_prefix : Bytes) → Segmenter A F
  new two root_prefix = record {
    path_prefix = root_prefix;
    timescale = 90000;
    seg_duration_ticks = 90000 * default_seg_duration;
    video_seg_index = 0;
    video_seg_start_dts = 0;
    video_track_id = none;
    audio_track_id = none;
    video_samples = [];
    audio_samples = [];
    video_width = 0;
    video_height = 0;
    video_codec = [];
    video_current_pts = 0;
    frame_rate = 0;
    total_bytes = 0;
    total_ticks = 0;
    fmp4_writer = none;
    audio_writer = none;
    audio_seg_index = 0;
    audio_seg_start_pts = 0;
    audio_current_pts = 0;
    audio_sample_rate = 48000;
    audio_channels = 2;
    audio_codec = codes "opus";
    audio_total_bytes = 0;
    audio_total_ticks = 0;
    pli_backoff = PliBackoff.default two;
    video_codec_kind = none;
    video_adapter = none;
    segments = [];
    audio_segments = [];
    stored = [];
  }

  -- `store_file` hands the file over to a task of its own and returns. `stored` is what was handed
  -- over, in order, not what the storage holds: a write may fail later, which is only logged, and a
  -- write to a path that exists replaces the file.
  unfoldable pub store_file : (name content : Bytes) → Segmenter A F → Segmenter A F
  store_file name content s = record s {
    stored =
        s.stored
        ++ (record { path = s.path_prefix ++ (codes "/" ++ name); content = content } ∷ []);
  }

  unfoldable pub open_new_segment : Segmenter A F → Segmenter A F
  open_new_segment s = record s {
    video_samples = [];
    video_seg_start_dts = s.video_current_pts;
    video_seg_index = u32 (s.video_seg_index + 1);
  }

  unfoldable pub reset_video_state : Segmenter A F → Segmenter A F
  reset_video_state s = record s {
    video_track_id = none;
    fmp4_writer = none;
    video_samples = [];
    video_seg_index = 0;
    video_seg_start_dts = 0;
    video_current_pts = 0;
    segments = [];
    total_bytes = 0;
    total_ticks = 0;
    frame_rate = 0;
    video_width = 0;
    video_height = 0;
    video_codec = [];
    pli_backoff = PliBackoff.hard_reset s.pli_backoff;
  }

  unfoldable pub should_request_keyframe : ℕ → Segmenter A F → Bool
  should_request_keyframe now s = PliBackoff.should_request now s.pli_backoff

  -- `none` is the panic of `record_request`.
  unfoldable pub record_pli_request :
      (scale : ℕ → F → Option ℕ) → ℕ → Segmenter A F → Option (Segmenter A F)
  record_pli_request scale now s = elim (PliBackoff.record_request scale now s.pli_backoff) [
    | none ↦ none
    | some b ↦ some (record s { pli_backoff = b })
  ]

unfoldable pub same_codec : VideoCodec → Option VideoCodec → Bool
same_codec codec none = false
same_codec codec (some kind) = elim (VideoCodec-discrete kind codec) [ yes _ ↦ true | no _ ↦ false ]

unfoldable pub adapter_missing : {A : Type 0} → Option A → Bool
adapter_missing none = true
adapter_missing (some _) = false

-- The codec string of the adapter, where it has one.
known_codec : Bytes → Option Bytes → Bytes
known_codec old none = old
known_codec old (some cs) = if not (bytes_eq old cs) then cs else old

module _ (C : CodecAdapters) {F : Type 0} where
  open C use {Adapter, create, timescale, ready, codec_string, width, height}

  unfoldable pub set_timescale : ℕ → Segmenter Adapter F → Segmenter Adapter F
  set_timescale t s =
      if ltb 0 t
      then record s { timescale = t; seg_duration_ticks = u64 (t * default_seg_duration) }
      else s

  unfoldable pub ensure_video_adapter : VideoCodec → Segmenter Adapter F → Segmenter Adapter F
  unfolding same_codec adapter_missing set_timescale
  ensure_video_adapter codec s =
      if adapter_missing s.video_adapter || not (same_codec codec s.video_codec_kind)
      then set_timescale (timescale (create codec)) (record (reset_video_state s) {
        video_adapter = some (create codec);
        video_codec_kind = some codec;
      })
      else s

  refreshed : Adapter → Segmenter Adapter F → Segmenter Adapter F
  refreshed a s = record s {
    video_width = if ltb 0 (width a) then width a else s.video_width;
    video_height = if ltb 0 (height a) then height a else s.video_height;
    video_codec = known_codec s.video_codec (codec_string a);
  }

  unfoldable pub refresh_with : Option Adapter → Segmenter Adapter F → Segmenter Adapter F
  unfolding known_codec refreshed
  refresh_with none s = s
  refresh_with (some a) s = refreshed a s

  unfoldable pub refresh_video_metadata : Segmenter Adapter F → Segmenter Adapter F
  unfolding refresh_with
  refresh_video_metadata s = refresh_with s.video_adapter s

  unfoldable pub current_video_adapter_ready : Segmenter Adapter F → Bool
  current_video_adapter_ready s = elim s.video_adapter [ none ↦ false | some a ↦ ready a ]
