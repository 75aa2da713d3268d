-- ===== src/Recorder/Segmenter/Track/Recording.antt =====
-- `push_video_frame` and `flush` on a track that is well formed.
use live.Prelude.{
  ℕ, ◌+◌, ◌<◌, ◌^◌, length, ◌≡◌, refl, ap, ◌∙◌, sym, Bool, true, false, ◌||◌, Bytes, List, [], ◌∷◌,
  Option, some, inl, inr, ◌⊎◌, is_empty, ok, append-nil,
}
use live.Recorder.Fmp4.Fragment.{Mp4Sample}
use live.Recorder.Segmenter.Interface.{Floats, CodecAdapters, VideoCodec}
use live.Recorder.Segmenter.State.{Segmenter, StoredFile, ensure_video_adapter}
use live.Recorder.Segmenter.Audio.{roll_audio_segment}
use live.Recorder.Segmenter.Video.{push_video_frame, push_with, sample_of, flush}
use live.Recorder.Segmenter.Track.{
  Track, track_of, IsTrack, FitsFragment, Pushed, ignored, starting, appended, closing,
}
use live.Recorder.Segmenter.Track.View.{track_of-roll_audio}
use live.Recorder.Segmenter.Track.Steps.{
  Taken, push_sample-Pushed, roll_segment-Rolled, Rolled, kept, closed_it, missing_id,
}
use live.Recorder.Segmenter.Track.Invariant.{Pushed-IsTrack, no_samples}
use live.Recorder.Segmenter.Track.Ensured.{ensured-IsTrack, ensured_same}
use live.Recorder.Segmenter.Track.Playback.{Kept, complete, held, closed-Kept, Pushed-Kept}
use mathlib.Core.Path.{subst}

or_true : (a b : Bool) → (a || b) ≡ true → (a ≡ true) ⊎ (b ≡ true)
or_true true b e = inl refl
or_true false b e = inr e

empty_nil : (xs : List Mp4Sample) → is_empty xs ≡ true → xs ≡ []
empty_nil [] e = refl
empty_nil (x ∷ xs) e = cc

taken_started :
    {t t' : Track} {sample : Mp4Sample} {taken : List Mp4Sample} (id : ℕ)
    → t.track_id ≡ some id
    → Pushed t sample t' taken
    → taken ≡ sample ∷ []
taken_started id e (ignored missing _ _) = cc
taken_started id e (starting w missing _ _ it) = it
taken_started id e (appended _ _ _ it) = it
taken_started id e (closing w _ _ _ _ _ _ _ it) = it

module _ (C : CodecAdapters) (FL : Floats) where
  open C use {Adapter, create, timescale, convert_frame}
  open FL use {F64}

  abbrev S : Type 0
  S = Segmenter Adapter F64

  -- On a well-formed track `push_video_frame` returns, and never panics: the frame makes one of the
  -- steps of the track that is there for its codec, and leaves a track that is well formed: its closed
  -- segments follow one another without a gap, the open one starts where they end, and they are
  -- numbered from 1.
  pub push_video_frame-Pushed :
      (now : ℕ) (codec : VideoCodec) (frame : Bytes) (explicit_sync : Option Bool)
      (duration_ticks : ℕ) (s : S)
      → IsTrack (track_of s)
      → (a : Adapter) × (s' : S) × ((ensure_video_adapter C codec s).video_adapter ≡ some a)
        × (push_video_frame C FL now codec frame explicit_sync duration_ticks s ≡ ok s')
        × Taken
            (track_of (ensure_video_adapter C codec s))
            (sample_of (convert_frame a frame).1 explicit_sync duration_ticks)
            (track_of s')
        × IsTrack (track_of s')
  unfolding push_video_frame push_with
  push_video_frame-Pushed now codec frame explicit_sync duration_ticks s k =
      let e = ensure_video_adapter C codec s in
      let (a, has, k') = ensured-IsTrack C FL codec s k in
      let converted = (convert_frame a frame).1 in
      let (s', runs, taken) =
        push_sample-Pushed C FL now converted.config_ready
          (sample_of converted explicit_sync duration_ticks)
          (record e { video_adapter = some (convert_frame a frame).0 }) k'.has_writer in
      (
        a,
        s',
        has,
        ap (λ (o : Option Adapter). push_with C FL now o frame explicit_sync duration_ticks e) has
            ∙ runs,
        taken,
        Pushed-IsTrack k' taken.1,
      )

  -- What becomes of the samples of a track that has started, whatever writes to the storage succeed,
  -- those to one path in the order in which they were handed over: `push_video_frame` returns, and
  -- what a player finds of the closed
  -- segments, and the open one behind it, is after a frame what it was before, and the sample of the
  -- frame. Only if the frame closed a segment and its write failed, the samples of that segment are
  -- missing; then everything of the segments before it is still found, and the sample of the
  -- frame is the open segment. The track is well formed, the codec stays the same, the open segment
  -- fits a fragment, and the track has fewer than 2^32 - 1 closed segments.
  pub push_video_frame-Kept :
      (done : StoredFile → Bool) (now : ℕ) (codec : VideoCodec) (frame : Bytes)
      (explicit_sync : Option Bool) (duration_ticks : ℕ) (s : S) (a : Adapter) (id : ℕ)
      → IsTrack (track_of s)
      → FitsFragment s.video_samples
      → length s.segments + 1 < 2 ^ 32
      → s.video_adapter ≡ some a
      → s.video_codec_kind ≡ some codec
      → s.video_track_id ≡ some id
      → (s' : S) × (push_video_frame C FL now codec frame explicit_sync duration_ticks s ≡ ok s')
        × Kept done
            (track_of s)
            (track_of s')
            (sample_of (convert_frame a frame).1 explicit_sync duration_ticks ∷ [])
  unfolding push_video_frame push_with
  push_video_frame-Kept done now codec frame explicit_sync duration_ticks s a id k fits few has kind
        started =
      let converted = (convert_frame a frame).1 in
      let sample = sample_of converted explicit_sync duration_ticks in
      let (s', runs, (taken, pushed)) =
        push_sample-Pushed C FL now converted.config_ready sample
          (record s { video_adapter = some (convert_frame a frame).0 }) k.has_writer in
      (
        s',
        ap (λ (e : S). push_with C FL now e.video_adapter frame explicit_sync duration_ticks e)
              (ensured_same C FL codec a s has kind)
            ∙ ap (λ (o : Option Adapter). push_with C FL now o frame explicit_sync duration_ticks s)
                has
            ∙ runs,
        subst (Kept done (track_of s) (track_of s')) (taken_started id started pushed)
            (Pushed-Kept done k fits few pushed),
      )

  Rolled-Kept :
      (done : StoredFile → Bool) (s r : S)
      → IsTrack (track_of s)
      → FitsFragment s.video_samples
      → length s.segments + 1 < 2 ^ 32
      → Rolled C FL s r
      → Kept done (track_of s) (track_of r) []
  Rolled-Kept done s r k fits few (kept idle e) =
      complete (ap (held done) e ∙ sym (append-nil (held done (track_of s))))
  Rolled-Kept done s r k fits few (closed_it w id e f filled now) =
      subst (λ (t : Track). Kept done (track_of s) t []) (sym now)
        (closed-Kept done w (track_of s) id e f k fits few [] _)

  Rolled-empty : (s r : S) → IsTrack (track_of s) → Rolled C FL s r → r.video_samples ≡ []
  Rolled-empty s r k (kept idle e) = ap (λ (t : Track). t.samples) e ∙ elim (or_true _ _ idle) [
    | inl none_there ↦ empty_nil s.video_samples none_there
    | inr no_track ↦ no_samples (missing_id s.video_track_id no_track) k
  ]
  Rolled-empty s r k (closed_it w id e f filled now) = ap (λ (t : Track). t.samples) now

  -- On a well-formed track whose open segment fits a fragment, with fewer than 2^32 - 1 closed
  -- segments, `flush` returns, and no video sample is left in memory. Whatever writes succeed, those
  -- to one path in the order in which they were handed over: once they are over, a player finds in
  -- the closed segments every sample that was held, in order; or the write of the segment that `flush`
  -- closed has failed, and everything of the segments before it is still found.
  pub flush-Kept :
      (done : StoredFile → Bool) (s : S)
      → IsTrack (track_of s)
      → FitsFragment s.video_samples
      → length s.segments + 1 < 2 ^ 32
      → (s' : S) × (flush C FL s ≡ ok s')
        × (s'.video_samples ≡ [])
        × Kept done (track_of s) (track_of s') []
  unfolding flush
  flush-Kept done s k fits few =
      let (r, rolls, rolled) = roll_segment-Rolled C FL s k.has_writer in
      let now = track_of-roll_audio FL true r in
      (
        roll_audio_segment FL true r,
        rw rolls refl,
        ap (λ (t : Track). t.samples) now ∙ Rolled-empty s r k rolled,
        subst (λ (t : Track). Kept done (track_of s) t []) (sym now)
            (Rolled-Kept done s r k fits few rolled),
      )
