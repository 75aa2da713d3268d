-- ===== src/Recorder/Segmenter/Audio.antt =====
-- segmenter.rs: the audio track, `push_opus`, `init_audio_writer` and `roll_audio_segment`.
use live.Prelude.{
  ℕ, ◌+◌, ◌-◌, ◌*◌, Bool, true, false, ◌&&◌, ◌||◌, not, Bytes, [], ◌∷◌, ◌++◌, ltb, ◌==◌,
  if◌then◌else◌, Option, none, some, is_none, is_empty, codes, decimal_04, length, u32, u64,
}
use live.Recorder.Fmp4.Writer.{Fmp4Writer, new_audio, build_fragment}
use live.Recorder.Fmp4.Init.{build_init_segment}
use live.Recorder.Segmenter.Interface.{Floats}
use live.Recorder.Segmenter.State.{Segmenter, default_seg_duration, store_file}
use live.Recorder.Segmenter.Manifest.{write_manifest}

or_default : ℕ → ℕ → ℕ
or_default d n = if n == 0 then d else n

-- `format!("a_seg_{index:04}.m4s")`.
abbrev pub audio_segment_name : ℕ → Bytes
audio_segment_name index = codes "a_seg_" ++ (decimal_04 index ++ codes ".m4s")

module _ (FL : Floats) {A : Type 0} where
  open FL use {F64}

  -- The writer for the settings of the audio track.
  audio_writer_of : Segmenter A F64 → Fmp4Writer
  audio_writer_of s =
      let sample_rate = or_default 48000 s.audio_sample_rate in
      new_audio sample_rate 2 (or_default 2 s.audio_channels) sample_rate
        (if is_empty s.audio_codec then codes "opus" else s.audio_codec) []

  unfoldable pub init_audio_writer : Segmenter A F64 → Segmenter A F64
  unfolding or_default audio_writer_of
  init_audio_writer s =
      let writer = audio_writer_of s in
      let stored = store_file (codes "a_init.m4s") (build_init_segment writer) (record s {
        audio_sample_rate = writer.sample_rate;
        audio_channels = writer.channels;
        audio_codec = writer.codec_string;
      }) in
      write_manifest FL (record stored {
        audio_track_id = some 2;
        audio_writer = some writer;
        audio_seg_index = 0;
        audio_seg_start_pts = stored.audio_current_pts;
      })

  -- What `roll_audio_segment` does once the segment is to be closed.
  unfoldable pub close_audio_segment : Fmp4Writer → Segmenter A F64 → Segmenter A F64
  close_audio_segment writer s =
      let current_index = u32 (s.audio_seg_index + 1) in
      let fragment = build_fragment writer current_index s.audio_seg_start_pts s.audio_samples in
      let stored =
        store_file (audio_segment_name current_index) fragment
          (record s { audio_seg_index = current_index }) in
      write_manifest FL (record stored {
        audio_segments =
            s.audio_segments
            ++ (record {
              start_time = s.audio_seg_start_pts;
              duration = s.audio_current_pts - s.audio_seg_start_pts;
            }
                ∷ []);
        audio_samples = [];
        audio_seg_start_pts = s.audio_current_pts;
      })

  unfoldable pub roll_with : (force : Bool) → Option Fmp4Writer → Segmenter A F64 → Segmenter A F64
  roll_with force none s = s
  roll_with force (some writer) s =
      if is_empty s.audio_samples
        || (not force
            && ltb (s.audio_current_pts - s.audio_seg_start_pts)
                (u64 (writer.timescale * default_seg_duration)))
      then s
      else close_audio_segment writer s

  unfoldable pub roll_audio_segment : (force : Bool) → Segmenter A F64 → Segmenter A F64
  unfolding roll_with
  roll_audio_segment force s = roll_with force s.audio_writer s

  -- `push_opus` once there is a writer.
  push_sample : Bytes → ℕ → Segmenter A F64 → Segmenter A F64
  push_sample payload duration_ticks s = roll_audio_segment false (record s {
    audio_seg_start_pts =
        if is_empty s.audio_samples then s.audio_current_pts else s.audio_seg_start_pts;
    audio_samples =
        s.audio_samples
        ++ (record { duration = duration_ticks; is_sync = true; bytes = payload } ∷ []);
    audio_current_pts = u64 (s.audio_current_pts + duration_ticks);
    audio_total_bytes = u64 (s.audio_total_bytes + length payload);
    audio_total_ticks = u64 (s.audio_total_ticks + duration_ticks);
  })

  unfoldable pub push_opus :
      (payload : Bytes) → (duration_ticks : ℕ) → Segmenter A F64 → Segmenter A F64
  unfolding push_sample
  push_opus payload duration_ticks s =
      push_sample payload duration_ticks
        (if is_none s.audio_track_id then init_audio_writer s else s)
