-- ===== src/Recorder/Segmenter/Track.antt =====
-- What the video part of the segmenter amounts to: an open segment, the closed ones, and their files.
-- The proofs below are about this view; `View` shows that the operations act on it.
pub mod View
pub mod Steps
pub mod Invariant
pub mod Playback
pub mod Ensured
pub mod Recording
mod Tests
use live.Prelude.{
  ℕ, zero, suc, ◌+◌, ◌≤◌, ◌<◌, ◌≡◌, ◌≢◌, refl, ap, ◌∙◌, Bool, true, false, Bytes, List, [], ◌∷◌,
  ◌++◌, if◌then◌else◌, ◌==◌, Option, none, some, codes, length, u32, u64, starts_with, strip_prefix,
  All, total_length, ◌*◌, ◌^◌,
}
use live.Recorder.Fmp4.Fragment.{Mp4Sample, sample_bytes}
use live.Recorder.Fmp4.Writer.{Fmp4Writer, build_fragment}
use live.Recorder.Fmp4.Fragment.Reader.{IsSample}
use live.Recorder.Segmenter.Video.{video_segment_name}
use live.Recorder.Segmenter.State.{Segmenter, SegmentInfo, StoredFile, sub_u64}

-- The video segments among the files of a recording.
unfoldable pub video_files : (prefix : Bytes) → List StoredFile → List StoredFile
video_files prefix [] = []
video_files prefix (f ∷ files) =
    let rest = video_files prefix files in
    if starts_with (prefix ++ codes "/v_seg_") f.path then f ∷ rest else rest

-- Where the video segment of a number is stored.
abbrev pub segment_path : (prefix : Bytes) → (index : ℕ) → Bytes
segment_path prefix index = prefix ++ (codes "/" ++ video_segment_name index)

pub record Track : Type 0 where
  pub track_id : Option ℕ
  pub writer : Option Fmp4Writer
  pub samples : List Mp4Sample
  pub seg_index : ℕ
  pub seg_start : ℕ
  pub current_pts : ℕ
  pub seg_duration : ℕ
  pub segments : List SegmentInfo
  pub prefix : Bytes
  pub files : List StoredFile

abbrev pub track_of : {A F : Type 0} → Segmenter A F → Track
track_of s = record {
  track_id = s.video_track_id;
  writer = s.fmp4_writer;
  samples = s.video_samples;
  seg_index = s.video_seg_index;
  seg_start = s.video_seg_start_dts;
  current_pts = s.video_current_pts;
  seg_duration = s.seg_duration_ticks;
  segments = s.segments;
  prefix = s.path_prefix;
  files = video_files s.path_prefix s.stored;
}

-- The operations on the view.
abbrev pub opened : Track → Track
opened t = record t { samples = []; seg_start = t.current_pts; seg_index = u32 (t.seg_index + 1) }

abbrev pub started : Fmp4Writer → Track → Track
started w t = opened (record t { track_id = some 1; writer = some w })

abbrev pub segment_file : Fmp4Writer → Track → StoredFile
segment_file w t = record {
  path = segment_path t.prefix t.seg_index;
  content = build_fragment w t.seg_index t.seg_start t.samples;
}

abbrev pub closed : Fmp4Writer → Track → Track
closed w t = opened (record t {
  segments =
      t.segments
      ++ (record { start_time = t.seg_start; duration = sub_u64 t.current_pts t.seg_start } ∷ []);
  files = t.files ++ (segment_file w t ∷ []);
})

abbrev pub added : Mp4Sample → Track → Track
added sample t = record t {
  samples = t.samples ++ (sample ∷ []);
  current_pts = u64 (t.current_pts + sample.duration);
}

-- What a frame does to a track. Before the track has started a frame may be left out, or start it.
-- After that its sample joins the open segment, or closes it: only a keyframe does, after the
-- duration of a segment, and then it is the first of the next one.
pub data Pushed (t : Track) (sample : Mp4Sample) (t' : Track) (taken : List Mp4Sample)
    : Type 0 where
  ignored : t.track_id ≡ none → t' ≡ t → taken ≡ [] → Pushed t sample t' taken
  starting :
      (w : Fmp4Writer)
      → t.track_id ≡ none
      → w.track_id ≡ 1
      → t' ≡ added sample (started w t)
      → taken ≡ sample ∷ []
      → Pushed t sample t' taken
  appended :
      (id : ℕ)
      → t.track_id ≡ some id
      → t' ≡ added sample t
      → taken ≡ sample ∷ []
      → Pushed t sample t' taken
  closing :
      (w : Fmp4Writer) (id : ℕ)
      → t.track_id ≡ some id
      → t.writer ≡ some w
      → t.samples ≢ []
      → sample.is_sync ≡ true
      → t.seg_duration ≤ sub_u64 t.current_pts t.seg_start
      → t' ≡ added sample (closed w t)
      → taken ≡ sample ∷ []
      → Pushed t sample t' taken

-- A track that has started has the writer for its number.
abbrev pub HasWriter : Option ℕ → Option Fmp4Writer → Type 0
HasWriter none writer = Unit
HasWriter (some id) none = ⊥
HasWriter (some id) (some w) = w.track_id ≡ 1

-- The segments follow one another without a gap, from one time to another.
abbrev pub Contiguous : ℕ → List SegmentInfo → ℕ → Type 0
Contiguous from [] to = from ≡ to
Contiguous from (g ∷ segments) to =
    (g.start_time ≡ from) × Contiguous (u64 (from + g.duration)) segments to

abbrev pub total_duration : List Mp4Sample → ℕ
total_duration [] = 0
total_duration (s ∷ samples) = s.duration + total_duration samples

-- A track that has not started is empty; one that has numbers its segments from 1.
abbrev pub IsNumbered : Option ℕ → List Mp4Sample → List SegmentInfo → ℕ → Type 0
IsNumbered none samples segments index = (samples ≡ []) × (segments ≡ []) × (index ≡ 0)
IsNumbered (some id) samples segments index = index ≡ u32 (length segments + 1)

pub record IsTrack (t : Track) : Type 0 where
  pub has_writer : HasWriter t.track_id t.writer
  pub numbered : IsNumbered t.track_id t.samples t.segments t.seg_index
  pub contiguous : Contiguous 0 t.segments t.seg_start
  pub lasted : t.current_pts ≡ u64 (t.seg_start + total_duration t.samples)
  pub start_fits : t.seg_start < 2 ^ 64

-- The open segment fits a fragment.
abbrev pub FitsFragment : List Mp4Sample → Type 0
FitsFragment samples =
    All IsSample samples
    × (12 * length samples + 96 < 2 ^ 32)
    × (8 + total_length (sample_bytes samples) < 2 ^ 32)
