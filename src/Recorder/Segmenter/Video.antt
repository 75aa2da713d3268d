-- ===== src/Recorder/Segmenter/Video.antt =====
-- segmenter.rs: the video track, `push_video_frame`, `init_writer` and `roll_segment`.
use live.Prelude.{
  ℕ, ◌+◌, ◌/◌, Bool, true, false, ◌&&◌, ◌||◌, Bytes, List, [], ◌∷◌, ◌++◌, ltb, leb, ◌==◌, ◌!=◌,
  if◌then◌else◌, Option, none, some, is_none, is_empty, codes, decimal_04, length, u64, ok, panic,
  ◌>>=◌, to_ascii_lowercase, starts_with,
}
use live.Recorder.PliBackoff
use live.Recorder.Codec.{Converted}
use live.Recorder.Fmp4.Fragment.{Mp4Sample}
use live.Recorder.Fmp4.Writer
use live.Recorder.Fmp4.Writer.{Fmp4Writer, build_fragment}
use live.Recorder.Fmp4.Init.{build_init_segment}
use live.Recorder.Segmenter.Interface.{Floats, CodecAdapters, VideoCodec, h264, h265, vp9, av1}
use live.Recorder.Segmenter.State.{
  Segmenter, Result, sub_u64, store_file, open_new_segment, ensure_video_adapter,
  refresh_video_metadata, current_video_adapter_ready,
}
use live.Recorder.Segmenter.Manifest.{write_manifest}
use live.Recorder.Segmenter.Audio.{roll_audio_segment}

-- `format!("v_seg_{index:04}.m4s")`.
abbrev pub video_segment_name : ℕ → Bytes
video_segment_name index = codes "v_seg_" ++ (decimal_04 index ++ codes ".m4s")

-- The codecs that have a configuration box from their adapter.
has_config : Bytes → Bool
has_config lower_codec =
    starts_with (codes "avc1") lower_codec
    || (starts_with (codes "av01") lower_codec
        || (starts_with (codes "hev1") lower_codec || starts_with (codes "hvc1") lower_codec))

or_empty : Option (List Bytes) → List Bytes
or_empty none = []
or_empty (some blobs) = blobs

set_codec : Bytes → Option Bytes → Bytes
set_codec old none = old
set_codec old (some cs) = if is_empty old then cs else old

unfoldable pub frame_duration : ℕ → ℕ
frame_duration duration_ticks = if duration_ticks == 0 then 3000 else duration_ticks

new_rate : (timescale dur frame_rate : ℕ) → ℕ
new_rate timescale dur frame_rate =
    let fps_cur = if ltb 0 dur then timescale / dur else 0 in
    if ltb 0 fps_cur && (frame_rate == 0 || ltb frame_rate fps_cur) then fps_cur else frame_rate

-- The sample of a converted frame.
unfoldable pub sample_of :
    Converted → (explicit_sync : Option Bool) → (duration_ticks : ℕ) → Mp4Sample
unfolding frame_duration
sample_of converted explicit_sync duration_ticks = record {
  duration = frame_duration duration_ticks;
  is_sync = elim explicit_sync [ none ↦ false | some b ↦ b ] || converted.is_sync;
  bytes = converted.payload;
}

-- The segment is over when a keyframe comes and it is long enough.
unfoldable pub segment_is_over : {A F : Type 0} → (is_sync : Bool) → Segmenter A F → Bool
segment_is_over is_sync s =
    is_sync && leb s.seg_duration_ticks (sub_u64 s.video_current_pts s.video_seg_start_dts)

-- `record_keyframe`, for a keyframe.
unfoldable pub note_keyframe :
    {A F : Type 0} → (now : ℕ) → (is_sync : Bool) → Segmenter A F → Segmenter A F
note_keyframe now is_sync s =
    if is_sync then record s { pli_backoff = PliBackoff.record_keyframe now s.pli_backoff } else s

module _ (C : CodecAdapters) (FL : Floats) where
  open C use {Adapter, convert_frame, codec_config, codec_string, width, height}
  open FL use {F64}

  -- Width and height for the writer.
  sizes : Option Adapter → ℕ → ℕ → ℕ × ℕ
  sizes none w h = (w, h)
  sizes (some a) w h =
      if (w == 0 || h == 0) && (width a != 0 && height a != 0) then (width a, height a) else (w, h)

  config_of : Option Adapter → Bytes → List Bytes
  config_of none codec = []
  config_of (some a) codec =
      if has_config (to_ascii_lowercase codec) then or_empty (codec_config a) else []

  codec_of : Option Adapter → Bytes → Bytes
  codec_of none codec = codec
  codec_of (some a) codec = set_codec codec (codec_string a)

  -- The first half of `init_writer`: the description of the track.
  unfoldable pub described : Segmenter Adapter F64 → Segmenter Adapter F64
  unfolding set_codec sizes codec_of
  described s =
      let (w, h) = sizes s.video_adapter s.video_width s.video_height in
      record s {
        video_codec = codec_of s.video_adapter s.video_codec;
        video_width = if w == 0 then 1280 else w;
        video_height = if h == 0 then 720 else h;
      }

  unfoldable pub writer_of : Segmenter Adapter F64 → Fmp4Writer
  unfolding has_config or_empty config_of
  writer_of s =
      Writer.new s.timescale 1 s.video_width s.video_height s.video_codec
        (config_of s.video_adapter s.video_codec)

  unfoldable pub init_writer : Segmenter Adapter F64 → Segmenter Adapter F64
  unfolding has_config or_empty set_codec sizes config_of codec_of described writer_of
  init_writer s =
      let d = described (refresh_video_metadata C s) in
      let writer = writer_of d in
      open_new_segment (
        write_manifest FL (
          store_file (codes "v_init.m4s") (build_init_segment writer)
            (record d { video_track_id = some 1; fmp4_writer = some writer })))

  -- What `roll_segment` does with the writer.
  unfoldable pub close_segment : Fmp4Writer → Segmenter Adapter F64 → Segmenter Adapter F64
  close_segment writer s =
      let fragment =
        build_fragment writer s.video_seg_index s.video_seg_start_dts s.video_samples in
      let stored = store_file (video_segment_name s.video_seg_index) fragment s in
      write_manifest FL (
        open_new_segment (record stored {
          segments =
              s.segments
              ++ (record {
                start_time = s.video_seg_start_dts;
                duration = sub_u64 s.video_current_pts s.video_seg_start_dts;
              }
                  ∷ []);
        }))

  -- The writer is expected to be there.
  unfoldable pub close_with :
      Option Fmp4Writer → Segmenter Adapter F64 → Result (Segmenter Adapter F64)
  close_with none s = panic
  close_with (some writer) s = ok (close_segment writer s)

  unfoldable pub roll_segment : Segmenter Adapter F64 → Result (Segmenter Adapter F64)
  roll_segment s =
      if is_empty s.video_samples || is_none s.video_track_id
      then ok s
      else close_with s.fmp4_writer s

  unfoldable pub flush : Segmenter Adapter F64 → Result (Segmenter Adapter F64)
  flush s = do rolled ← roll_segment s; ok (roll_audio_segment FL true rolled)

  -- The last part of `push_video_frame`.
  unfoldable pub add_sample : Mp4Sample → Segmenter Adapter F64 → Segmenter Adapter F64
  unfolding new_rate
  add_sample sample s = refresh_video_metadata C (record s {
    video_samples = s.video_samples ++ (sample ∷ []);
    video_current_pts = u64 (s.video_current_pts + sample.duration);
    total_bytes = u64 (s.total_bytes + length sample.bytes);
    total_ticks = u64 (s.total_ticks + sample.duration);
    frame_rate = new_rate s.timescale sample.duration s.frame_rate;
  })

  -- The frame joins the track, which starts here if it can.
  unfoldable pub join_track :
      (can_start : Bool) → Mp4Sample → Segmenter Adapter F64 → Segmenter Adapter F64
  join_track can_start sample s =
      if is_none s.video_track_id
      then (if can_start then add_sample sample (init_writer (refresh_video_metadata C s)) else s)
      else add_sample sample s

  -- The end of `push_video_frame`: the segment before the frame, and the frame.
  unfoldable pub roll_and_join :
      (can_start : Bool) → Mp4Sample → Segmenter Adapter F64 → Result (Segmenter Adapter F64)
  roll_and_join can_start sample s =
      (if segment_is_over sample.is_sync s then roll_segment s else ok s) >>= λ rolled.
      ok (join_track can_start sample rolled)

  -- `push_video_frame` behind the adapter; `now` is the time.
  unfoldable pub push_sample :
      (now : ℕ)
      → (config_ready : Bool) → Mp4Sample
      → Segmenter Adapter F64
      → Result (Segmenter Adapter F64)
  push_sample now config_ready sample s =
      let refreshed = refresh_video_metadata C s in
      roll_and_join (config_ready || current_video_adapter_ready C refreshed) sample
        (note_keyframe now sample.is_sync refreshed)

  -- The same before the adapter, which is expected to be there.
  unfoldable pub push_with :
      (now : ℕ)
      → Option Adapter
      → (frame : Bytes) → (explicit_sync : Option Bool) → (duration_ticks : ℕ)
      → Segmenter Adapter F64
      → Result (Segmenter Adapter F64)
  push_with now none frame explicit_sync duration_ticks s = panic
  push_with now (some adapter) frame explicit_sync duration_ticks s =
      let (adapter', converted) = convert_frame adapter frame in
      push_sample now converted.config_ready (sample_of converted explicit_sync duration_ticks)
        (record s { video_adapter = some adapter' })

  unfoldable pub push_video_frame :
      (now : ℕ)
      → VideoCodec
      → (frame : Bytes) → (explicit_sync : Option Bool) → (duration_ticks : ℕ)
      → Segmenter Adapter F64
      → Result (Segmenter Adapter F64)
  push_video_frame now codec frame explicit_sync duration_ticks s =
      let ensured = ensure_video_adapter C codec s in
      push_with now ensured.video_adapter frame explicit_sync duration_ticks ensured

  abbrev pub push_h264 :
      (now : ℕ) → Bytes → ℕ → Segmenter Adapter F64 → Result (Segmenter Adapter F64)
  push_h264 now frame ticks s = push_video_frame now h264 frame none ticks s

  abbrev pub push_h265 :
      (now : ℕ) → Bytes → ℕ → Segmenter Adapter F64 → Result (Segmenter Adapter F64)
  push_h265 now frame ticks s = push_video_frame now h265 frame none ticks s

  abbrev pub push_vp9 :
      (now : ℕ) → Bytes → ℕ → Segmenter Adapter F64 → Result (Segmenter Adapter F64)
  push_vp9 now frame ticks s = push_video_frame now vp9 frame none ticks s

  abbrev pub push_av1 :
      (now : ℕ) → Bytes → ℕ → Segmenter Adapter F64 → Result (Segmenter Adapter F64)
  push_av1 now frame ticks s = push_video_frame now av1 frame none ticks s
