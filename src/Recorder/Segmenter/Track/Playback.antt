-- ===== src/Recorder/Segmenter/Track/Playback.antt =====
-- What a player finds of a recording. `store_file` of segmenter.rs hands each file over to a task of
-- its own, which may fail: `done` says which writes succeed. A write to a path replaces what was there.
-- The numbers of the segments are those that the manifest lists, so a player asks for their paths.
use live.Prelude.{
  ℕ, zero, suc, ◌+◌, ◌^◌, ◌<◌, ◌≡◌, refl, ap, ◌∙◌, sym, Bool, true, false, ◌&&◌, Bytes, List, [],
  ◌∷◌, ◌++◌, if◌then◌else◌, Option, none, some, arith, codes, length, length-append, append_assoc,
  append-nil, bytes_eq, bytes_eq_iff, Bool-cases, inl, inr, strip_prefix, digits_value,
  value-decimal_04,
}
use mathlib.Core.Path.{subst}
use live.Recorder.Fmp4.Fragment.{Mp4Sample}
use live.Recorder.Fmp4.Fragment.Reader.{MediaFragment, read_fragment}
use live.Recorder.Fmp4.Fragment.Reading.{read_fragment-build_fragment}
use live.Recorder.Fmp4.Writer.{Fmp4Writer}
use live.Recorder.Segmenter.State.{StoredFile}
use live.Recorder.Segmenter.Video.{video_segment_name}
use live.Recorder.Segmenter.Track.{
  Track, closed, segment_file, segment_path, Pushed, ignored, starting, appended, closing, IsTrack,
  FitsFragment,
}
use live.Recorder.Segmenter.Track.View.{strip_prefix-append}
use live.Recorder.Segmenter.Track.Invariant.{number_of, writer_number, no_samples}

samples_found : Option MediaFragment → List Mp4Sample
samples_found none = []
samples_found (some f) = f.samples

samples_in : Option Bytes → List Mp4Sample
samples_in none = []
samples_in (some content) = samples_found (read_fragment content)

module _ (done : StoredFile → Bool) where
  -- The file at a path, once the writes of these files are over: the last that succeeded.
  content_at : (path : Bytes) → List StoredFile → Option Bytes
  content_at path [] = none
  content_at path (f ∷ files) = elim (content_at path files) [
    | some content ↦ some content
    | none ↦ if bytes_eq f.path path && done f then some f.content else none
  ]

  -- The samples of a segment, none if there is no file for it.
  samples_at : (prefix : Bytes) → List StoredFile → (index : ℕ) → List Mp4Sample
  samples_at prefix files index = samples_in (content_at (segment_path prefix index) files)

  -- The samples of the segments from 1 to a number.
  pub played : (prefix : Bytes) → List StoredFile → (last : ℕ) → List Mp4Sample
  played prefix files zero = []
  played prefix files (suc n) = played prefix files n ++ samples_at prefix files (suc n)

  -- What is played back of the segments of the track, and what is still in memory.
  abbrev pub held : Track → List Mp4Sample
  held t = played t.prefix t.files (length t.segments) ++ t.samples

  -- What becomes of the samples: all are there, and the ones taken; or the write of the segment that
  -- was closed has failed. Then everything of the segments before it is still there, and the open
  -- segment is what was taken: the samples of that one segment are missing.
  pub data Kept (t t' : Track) (taken : List Mp4Sample) : Type 0 where
    complete : held t' ≡ held t ++ taken → Kept t t' taken
    lost :
        (w : Fmp4Writer)
        → t'.files ≡ t.files ++ (segment_file w t ∷ [])
        → done (segment_file w t) ≡ false
        → played t'.prefix t'.files (length t.segments)
          ≡ played t.prefix t.files (length t.segments)
        → t'.samples ≡ taken
        → Kept t t' taken

-- The number in the path of a segment.
number_in : Option Bytes → ℕ
number_in none = 0
number_in (some digits) = digits_value 0 digits

path_number : (prefix path : Bytes) → ℕ
path_number prefix path = number_in (strip_prefix (prefix ++ codes "/v_seg_") path)

number-segment_path :
    (prefix : Bytes) (index : ℕ) → path_number prefix (segment_path prefix index) ≡ index
unfolding path_number number_in strip_prefix digits_value
number-segment_path prefix index =
    ap number_in
      (strip_prefix-append prefix (codes "/v_seg_") (codes "/" ++ video_segment_name index))
    ∙ value-decimal_04 index (codes ".m4s")

other_path :
    (prefix : Bytes) (i j : ℕ)
    → j < i
    → bytes_eq (segment_path prefix i) (segment_path prefix j) ≡ false
other_path prefix i j h =
    elim (Bool-cases (bytes_eq (segment_path prefix i) (segment_path prefix j))) [
      | inr e ↦ e
      | inl e ↦
          let same = (bytes_eq_iff (segment_path prefix i) (segment_path prefix j)).0 e in
          absurd (
            omega (
              arith,
              sym (number-segment_path prefix i)
                  ∙ ap (path_number prefix) same
                  ∙ number-segment_path prefix j,
            ))
    ]

module _ (done : StoredFile → Bool) where
  content_at-other :
      (path : Bytes) (files : List StoredFile) (f : StoredFile)
      → bytes_eq f.path path ≡ false
      → content_at done path (files ++ (f ∷ [])) ≡ content_at done path files
  unfolding content_at
  content_at-other path [] f h = rw h
  content_at-other path (g ∷ files) f h = rw (content_at-other path files f h)

  content_at-last :
      (files : List StoredFile) (f : StoredFile)
      → done f ≡ true
      → content_at done f.path (files ++ (f ∷ [])) ≡ some f.content
  unfolding content_at
  content_at-last [] f h = rw (h, (bytes_eq_iff f.path f.path).1 refl)
  content_at-last (g ∷ files) f h = rw (content_at-last files f h)

  -- A segment does not change what is found of the segments before it.
  played-before :
      (w : Fmp4Writer) (t : Track) (n : ℕ)
      → n < t.seg_index
      → played done t.prefix (t.files ++ (segment_file w t ∷ [])) n ≡ played done t.prefix t.files n
  unfolding played samples_at
  played-before w t zero h = refl
  played-before w t (suc n) h = rw (played-before w t n (omega arith)) (
      ap (λ (found : Option Bytes). played done t.prefix t.files n ++ samples_in found)
        (content_at-other (segment_path t.prefix (suc n)) t.files (segment_file w t)
          (other_path t.prefix t.seg_index (suc n) h)))

  -- The file of a segment that is stored holds its samples.
  samples_at-stored :
      (w : Fmp4Writer) (t : Track)
      → w.track_id ≡ 1
      → t.seg_index < 2 ^ 32
      → t.seg_start < 2 ^ 64
      → FitsFragment t.samples
      → done (segment_file w t) ≡ true
      → samples_at done t.prefix (t.files ++ (segment_file w t ∷ [])) t.seg_index ≡ t.samples
  unfolding samples_at samples_in samples_found
  samples_at-stored w t one index start (each, moof, mdat) ok =
      ap samples_in (content_at-last t.files (segment_file w t) ok)
      ∙ ap samples_found (
          read_fragment-build_fragment w.track_id t.seg_index t.seg_start t.samples
            (omega (arith, one)) index start each moof mdat)

  module _ (w : Fmp4Writer) (t : Track) (id : ℕ) (has_id : t.track_id ≡ some id)
      (has_w : t.writer ≡ some w) (k : IsTrack t) (fits : FitsFragment t.samples)
      (few : length t.segments + 1 < 2 ^ 32) where
    index_is : t.seg_index ≡ suc (length t.segments)
    index_is =
        omega
          (arith, number_of t.track_id id t.samples t.segments t.seg_index has_id k.numbered, few)

    -- A segment that is closed and stored is played back.
    played-closed :
        done (segment_file w t) ≡ true
        → played done t.prefix (closed w t).files (suc (length t.segments)) ≡ held done t
    unfolding played
    played-closed ok =
        ap
          (λ (samples : List Mp4Sample).
            samples ++ samples_at done t.prefix (closed w t).files (suc (length t.segments)))
          (played-before w t (length t.segments) (omega (arith, index_is)))
        ∙ ap
            (λ (samples : List Mp4Sample).
              played done t.prefix t.files (length t.segments) ++ samples)
            (ap (samples_at done t.prefix (closed w t).files) (sym index_is)
              ∙ samples_at-stored w t
                  (writer_number t.track_id t.writer id w has_id has_w k.has_writer)
                  (omega (arith, index_is, few)) k.start_fits fits ok)

    -- Whatever is in the open segment then, and however long it is.
    pub closed-Kept :
        (xs : List Mp4Sample) (pts : ℕ)
        → Kept done t (record (closed w t) { samples = xs; current_pts = pts }) xs
    closed-Kept xs pts = elim (Bool-cases (done (segment_file w t))) [
      | inl ok ↦ complete (
          ap (λ (last : ℕ). played done t.prefix (closed w t).files last ++ xs)
            (length-append t.segments _ ∙ omega arith)
          ∙ ap (λ (samples : List Mp4Sample). samples ++ xs) (played-closed ok))
      | inr failed ↦
          lost w refl failed (played-before w t (length t.segments) (omega (arith, index_is))) refl
    ]

  -- Every step keeps the samples, and adds what it takes.
  pub Pushed-Kept :
      {t t' : Track} {sample : Mp4Sample} {taken : List Mp4Sample}
      → IsTrack t
      → FitsFragment t.samples
      → length t.segments + 1 < 2 ^ 32
      → Pushed t sample t' taken
      → Kept done t t' taken
  Pushed-Kept {t} k fits few (ignored missing same nothing) =
      complete (rw (same, nothing, append-nil))
  Pushed-Kept {t} {t'} {sample} k fits few (starting w missing one now it) = complete (
      rw (now, it, no_samples missing k)
        (sym (append_assoc (played done t.prefix t.files (length t.segments)) [] (sample ∷ []))))
  Pushed-Kept {t} {t'} {sample} k fits few (appended id e now it) = complete (
      rw (now, it)
        (sym (
          append_assoc (played done t.prefix t.files (length t.segments)) t.samples (sample ∷ []))))
  Pushed-Kept {t} {t'} {sample} k fits few (closing w id e has filled sync long now it) =
      subst (λ (r : List Mp4Sample). Kept done t t' r) (sym it)
        (subst (λ (r : Track). Kept done t r (sample ∷ [])) (sym now)
          (closed-Kept w t id e has k fits few (sample ∷ []) _))
