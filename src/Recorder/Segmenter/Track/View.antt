-- ===== src/Recorder/Segmenter/Track/View.antt =====
-- The operations of the segmenter, seen on the track.
use live.Prelude.{
  ◌+◌, ◌≡◌, refl, ap, ◌∙◌, Bool, false, ◌||◌, Bytes, List, [], ◌∷◌, ◌++◌, if◌then◌else◌, Option,
  none, some, is_some, is_empty, not, ◌&&◌, ltb, ◌-◌, ◌*◌, codes, u32, u64, starts_with,
  strip_prefix, append-nil, arith, Bool-cases, inl, inr,
}
use live.Recorder.Fmp4.Fragment.{Mp4Sample}
use live.Recorder.Fmp4.Writer.{Fmp4Writer, build_fragment}
use live.Recorder.Segmenter.Interface.{Floats, CodecAdapters}
use live.Recorder.Segmenter.State.{
  Segmenter, StoredFile, store_file, open_new_segment, refresh_video_metadata, refresh_with,
  default_seg_duration,
}
use live.Recorder.Segmenter.Manifest.{write_manifest}
use live.Recorder.Segmenter.Audio.{
  roll_audio_segment, close_audio_segment, audio_segment_name, roll_with,
}
use live.Recorder.Segmenter.Video.{
  init_writer, close_segment, add_sample, video_segment_name, described, writer_of,
}
use live.Recorder.Fmp4.Init.{build_init_segment}
use live.Recorder.Segmenter.Track.{Track, track_of, video_files, opened, started, closed, added}

pub strip_prefix-append : (p q r : Bytes) → strip_prefix (p ++ q) (p ++ r) ≡ strip_prefix q r
unfolding strip_prefix
strip_prefix-append [] q r = refl
strip_prefix-append (c ∷ p) q r = ground (arith, strip_prefix-append p q r)

-- A file counts as a video segment by its name behind the prefix.
starts_with-append : (p q r : Bytes) → starts_with (p ++ q) (p ++ r) ≡ starts_with q r
unfolding starts_with
starts_with-append p q r = rw (strip_prefix-append p q r, starts_with)

video_files-append :
    (prefix : Bytes) (xs ys : List StoredFile)
    → video_files prefix (xs ++ ys) ≡ video_files prefix xs ++ video_files prefix ys
unfolding video_files
video_files-append prefix [] ys = refl
video_files-append prefix (f ∷ xs) ys =
    elim (Bool-cases (starts_with (prefix ++ codes "/v_seg_") f.path)) [
      | inl e ↦ rw (e, video_files-append prefix xs ys)
      | inr e ↦ rw (e, video_files-append prefix xs ys)
    ]

-- One file more: by its name it is a video segment, or it is not.
files-snoc :
    (prefix name content : Bytes) (stored : List StoredFile)
    → video_files prefix
        (stored ++ (record { path = prefix ++ (codes "/" ++ name); content = content } ∷ []))
      ≡ (if starts_with (codes "/v_seg_") (codes "/" ++ name)
          then video_files prefix stored
            ++ (record { path = prefix ++ (codes "/" ++ name); content = content } ∷ [])
          else video_files prefix stored)
unfolding video_files
files-snoc prefix name content stored =
    video_files-append prefix stored
      (record { path = prefix ++ (codes "/" ++ name); content = content } ∷ [])
    ∙ rw (starts_with-append prefix (codes "/v_seg_") (codes "/" ++ name))
        (elim (Bool-cases (starts_with (codes "/v_seg_") (codes "/" ++ name))) [
          | inl e ↦ rw e
          | inr e ↦ rw (e, append-nil)
        ])

module _ {A F : Type 0} (name content : Bytes) (s : Segmenter A F) where
  -- The track once a file is stored.
  abbrev with_files : List StoredFile → Track
  with_files files = record (track_of s) { files = files }

  store_other :
      starts_with (codes "/v_seg_") (codes "/" ++ name) ≡ false
      → track_of (store_file name content s) ≡ track_of s
  unfolding store_file
  store_other other = ap with_files (files-snoc s.path_prefix name content s.stored ∙ rw other)

module _ (FL : Floats) {A : Type 0} where
  open FL use {F64}

  -- The manifest is no video segment.
  track_of-write_manifest : (s : Segmenter A F64) → track_of (write_manifest FL s) ≡ track_of s
  unfolding write_manifest starts_with strip_prefix
  track_of-write_manifest s =
      elim (Bool-cases (is_some s.video_track_id || is_some s.audio_writer)) [
        | inl e ↦ rw e (store_other _ _ s refl)
        | inr e ↦ rw e
      ]

  track_of-close_audio :
      (w : Fmp4Writer) (s : Segmenter A F64) → track_of (close_audio_segment FL w s) ≡ track_of s
  unfolding close_audio_segment starts_with strip_prefix
  track_of-close_audio w s =
      track_of-write_manifest _
      ∙ store_other (audio_segment_name (u32 (s.audio_seg_index + 1)))
          (build_fragment w (u32 (s.audio_seg_index + 1)) s.audio_seg_start_pts s.audio_samples)
          (record s { audio_seg_index = u32 (s.audio_seg_index + 1) }) refl

  track_of-roll_with :
      (force : Bool) (writer : Option Fmp4Writer) (s : Segmenter A F64)
      → track_of (roll_with FL force writer s) ≡ track_of s
  unfolding roll_with
  track_of-roll_with force none s = refl
  track_of-roll_with force (some w) s = elim (Bool-cases stays) [
    | inl e ↦ rw e
    | inr e ↦ rw e (track_of-close_audio w s)
  ]
    where
      stays : Bool
      stays =
          is_empty s.audio_samples
          || (not force
              && ltb (s.audio_current_pts - s.audio_seg_start_pts)
                  (u64 (w.timescale * default_seg_duration)))

  pub track_of-roll_audio :
      (force : Bool) (s : Segmenter A F64) → track_of (roll_audio_segment FL force s) ≡ track_of s
  unfolding roll_audio_segment
  track_of-roll_audio force s = track_of-roll_with force s.audio_writer s

module _ (C : CodecAdapters) (FL : Floats) where
  open C use {Adapter}
  open FL use {F64}

  track_of-refresh_with :
      (adapter : Option Adapter) (s : Segmenter Adapter F64)
      → track_of (refresh_with C adapter s) ≡ track_of s
  unfolding refresh_with
  track_of-refresh_with none s = refl
  track_of-refresh_with (some a) s = refl

  pub track_of-refresh :
      (s : Segmenter Adapter F64) → track_of (refresh_video_metadata C s) ≡ track_of s
  unfolding refresh_video_metadata
  track_of-refresh s = track_of-refresh_with s.video_adapter s

  pub track_of-add_sample :
      (sample : Mp4Sample) (s : Segmenter Adapter F64)
      → track_of (add_sample C FL sample s) ≡ added sample (track_of s)
  unfolding add_sample
  track_of-add_sample sample s = track_of-refresh _

  pub track_of-close_segment :
      (w : Fmp4Writer) (s : Segmenter Adapter F64)
      → track_of (close_segment C FL w s) ≡ closed w (track_of s)
  unfolding close_segment open_new_segment store_file starts_with strip_prefix
  track_of-close_segment w s =
      track_of-write_manifest FL _
      ∙ ap (λ (files : List StoredFile). record (closed w (track_of s)) { files = files })
          (files-snoc s.path_prefix (video_segment_name s.video_seg_index)
            (build_fragment w s.video_seg_index s.video_seg_start_dts s.video_samples) s.stored)

  pub track_of-init_writer :
      (s : Segmenter Adapter F64)
      → (w : Fmp4Writer) × (w.track_id ≡ 1)
        × (track_of (init_writer C FL s) ≡ started w (track_of s))
  unfolding init_writer described writer_of open_new_segment starts_with strip_prefix
  track_of-init_writer s =
      let d = described C FL (refresh_video_metadata C s) in
      let w = writer_of C FL d in
      (
        w,
        refl,
        ap opened (
              track_of-write_manifest FL _
              ∙ store_other (codes "v_init.m4s") (build_init_segment w)
                  (record d { video_track_id = some 1; fmp4_writer = some w }) refl)
            ∙ ap (started w) (track_of-refresh s),
      )
