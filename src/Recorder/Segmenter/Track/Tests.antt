-- ===== src/Recorder/Segmenter/Track/Tests.antt =====
-- Inputs for the theorems on the segmenter: the VP9 adapter, and thousandths in place of `f64`.
use live.Prelude.{
  ℕ, ◌*◌, ◌/◌, ◌≡◌, refl, true, false, Bytes, List, [], ◌∷◌, none, some, arith, codes, ltb, ◌==◌,
  max, decimal, ok, Bool, not, bytes_eq,
}
use live.Recorder.Vp9.Adapter as Vp9
use live.Recorder.H265.Adapter.{Rbsp}
use live.Recorder.Fmp4.Fragment.{Mp4Sample}
use live.Recorder.Fmp4.Writer as Writer
use live.Recorder.Segmenter.Interface.{CodecAdapters, Floats, vp9}
use live.Recorder.Segmenter.State.{Segmenter, StoredFile, new, ensure_video_adapter}
use live.Recorder.Segmenter.Adapters.{VideoAdapter, of_vp9, video_adapters}
use live.Recorder.Segmenter.AspectRatio.{ratio, IsReduced, ratio-IsReduced}
use live.Recorder.Segmenter.Video.{push_video_frame, flush, sample_of}
use live.Recorder.Segmenter.Track.{track_of, IsTrack}
use live.Recorder.Segmenter.Track.Playback.{Kept}
use live.Recorder.Segmenter.Track.Steps.{Taken}
use live.Recorder.Segmenter.Track.Recording.{
  push_video_frame-Pushed, push_video_frame-Kept, flush-Kept,
}

abbrev thousandths : Floats
thousandths = record {
  F64 = ℕ;
  from_u64 = λ n. n * 1000;
  divide = λ a b. a * 1000 / b;
  multiply = λ a b. a * b / 1000;
  maximum = max;
  is_zero = λ a. a == 0;
  is_positive = λ a. ltb 0 a;
  print_3 = decimal;
}

-- No parameter set is decoded for VP9.
abbrev adapters : CodecAdapters
adapters =
    video_adapters {I = Rbsp} (λ _. none) (λ _. none) (λ _. 0) (λ _. 0) (λ rbsp. rbsp) (λ _. none)

-- Eleven seconds in one segment, after a closed one of ten.
abbrev eleven_seconds : List Mp4Sample
eleven_seconds =
    record { duration = 450000; is_sync = true; bytes = 0x82 ∷ 0x49 ∷ [] }
    ∷ record { duration = 540000; is_sync = false; bytes = 0x86 ∷ 0 ∷ [] }
    ∷ []

abbrev running : Segmenter VideoAdapter ℕ
running = record (new 2000 (codes "live/stream")) {
  video_track_id = some 1;
  fmp4_writer = some (Writer.new 90000 1 640 480 (codes "vp09.00.10.08") []);
  video_seg_index = 2;
  video_seg_start_dts = 900000;
  video_current_pts = 1890000;
  video_samples = eleven_seconds;
  segments = record { start_time = 0; duration = 900000 } ∷ [];
  video_adapter = some (of_vp9 Vp9.new);
  video_codec_kind = some vp9;
}

running-IsTrack : IsTrack (track_of running)
running-IsTrack = record {
  has_writer = refl;
  numbered = refl;
  contiguous = (refl, refl);
  lasted = refl;
  start_fits = omega arith;
}

abbrev key_frame : Bytes
key_frame = 0x82 ∷ 0x49 ∷ 0x83 ∷ 0x42 ∷ 0 ∷ 0x27 ∷ 0xF0 ∷ 0x1D ∷ 0xF6 ∷ []

push_video_frame-Pushed_example :
    (a : VideoAdapter) × (s' : Segmenter VideoAdapter ℕ) × ((ensure_video_adapter adapters vp9
        running).video_adapter
      ≡ some a)
    × (push_video_frame adapters thousandths 7 vp9 key_frame none 3000 running ≡ ok s')
    × Taken
        (track_of (ensure_video_adapter adapters vp9 running))
        (sample_of (adapters.convert_frame a key_frame).1 none 3000)
        (track_of s')
    × IsTrack (track_of s')
push_video_frame-Pushed_example =
    push_video_frame-Pushed adapters thousandths 7 vp9 key_frame none 3000 running running-IsTrack

-- The write of the second segment fails.
abbrev lost_file : StoredFile → Bool
lost_file f = bytes_eq f.path (codes "live/stream/v_seg_0002.m4s")

push_video_frame-Kept_example :
    (s' : Segmenter VideoAdapter ℕ) × (push_video_frame adapters thousandths 7 vp9 key_frame none
        3000 running
      ≡ ok s')
    × Kept
        (λ f. not (lost_file f))
        (track_of running)
        (track_of s')
        (sample_of (adapters.convert_frame (of_vp9 Vp9.new) key_frame).1 none 3000 ∷ [])
push_video_frame-Kept_example =
    push_video_frame-Kept adapters thousandths (λ f. not (lost_file f)) 7 vp9 key_frame none 3000
      running (of_vp9 Vp9.new) 1 running-IsTrack (omega arith) (omega arith) refl refl refl

flush-Kept_example :
    (s' : Segmenter VideoAdapter ℕ) × (flush adapters thousandths running ≡ ok s')
    × (s'.video_samples ≡ [])
    × Kept (λ _. true) (track_of running) (track_of s') []
flush-Kept_example =
    flush-Kept adapters thousandths (λ _. true) running running-IsTrack (omega arith) (omega arith)

ratio-IsReduced_example : IsReduced 1920 1080 (ratio 1920 1080).0 (ratio 1920 1080).1
ratio-IsReduced_example = ratio-IsReduced 1920 1080 (omega arith) (omega arith)
