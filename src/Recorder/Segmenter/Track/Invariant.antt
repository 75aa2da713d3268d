-- ===== src/Recorder/Segmenter/Track/Invariant.antt =====
-- What the steps of a track keep: its numbering and its timeline.
use live.Prelude.{
  ℕ, ◌+◌, ◌^◌, ◌<◌, ◌≡◌, ◌≢◌, refl, ap, sym, List, [], ◌∷◌, ◌++◌, Option, none, some, arith, u32,
  u64, length, length-append,
}
use mathlib.Core.Path.{subst}
use live.Recorder.Fmp4.Fragment.{Mp4Sample}
use live.Recorder.Fmp4.Writer.{Fmp4Writer}
use live.Recorder.Segmenter.State.{SegmentInfo, sub_u64}
use live.Recorder.Segmenter.Track.{
  Track, opened, started, closed, segment_file, added, Pushed, ignored, starting, appended, closing,
  HasWriter, Contiguous, total_duration, IsNumbered, IsTrack,
}

none-ne-some : (id : ℕ) → none ≢ some id
none-ne-some id e = cc

Contiguous-snoc :
    (segments : List SegmentInfo) (from to end : ℕ)
    → Contiguous from segments to
    → to < 2 ^ 64
    → end < 2 ^ 64
    → Contiguous from (segments ++ (record { start_time = to; duration = sub_u64 end to } ∷ [])) end
Contiguous-snoc [] from to end c h k = (sym c, rw c (omega arith))
Contiguous-snoc (g ∷ segments) from to end c h k =
    (c.0, Contiguous-snoc segments (u64 (from + g.duration)) to end c.1 h k)

total_duration-append :
    (xs ys : List Mp4Sample) → total_duration (xs ++ ys) ≡ total_duration xs + total_duration ys
total_duration-append [] ys = omega arith
total_duration-append (x ∷ xs) ys = omega (arith, total_duration-append xs ys)

-- The numbering of a track that has started does not look at the open segment.
IsNumbered-started :
    (o : Option ℕ) (id : ℕ) (xs ys : List Mp4Sample) (segments : List SegmentInfo) (index : ℕ)
    → o ≡ some id
    → IsNumbered o xs segments index
    → IsNumbered o ys segments index
IsNumbered-started none id xs ys segments index e h = absurd (none-ne-some id e)
IsNumbered-started (some _) id xs ys segments index e h = h

pub number_of :
    (o : Option ℕ) (id : ℕ) (xs : List Mp4Sample) (segments : List SegmentInfo) (index : ℕ)
    → o ≡ some id
    → IsNumbered o xs segments index
    → index ≡ u32 (length segments + 1)
number_of none id xs segments index e h = absurd (none-ne-some id e)
number_of (some _) id xs segments index e h = h

added-IsTrack :
    (sample : Mp4Sample) (t : Track) (id : ℕ)
    → t.track_id ≡ some id
    → IsTrack t
    → IsTrack (added sample t)
added-IsTrack sample t id e k = record {
  has_writer = k.has_writer;
  numbered =
      IsNumbered-started t.track_id id t.samples (t.samples ++ (sample ∷ [])) t.segments t.seg_index
        e k.numbered;
  contiguous = k.contiguous;
  lasted = omega (arith, k.lasted, total_duration-append t.samples (sample ∷ []));
  start_fits = k.start_fits;
}

-- A track that opens a segment where the closed ones end.
opened-IsTrack :
    (t : Track) (id : ℕ)
    → t.track_id ≡ some id
    → HasWriter t.track_id t.writer
    → t.seg_index ≡ u32 (length t.segments)
    → Contiguous 0 t.segments t.current_pts
    → t.current_pts < 2 ^ 64
    → IsTrack (opened t)
opened-IsTrack t id e has index c fits = record {
  has_writer = has;
  numbered =
      subst (λ (o : Option ℕ). IsNumbered o [] t.segments (u32 (t.seg_index + 1))) (sym e)
        (omega (arith, index));
  contiguous = c;
  lasted = omega arith;
  start_fits = fits;
}

pts-lt : {t : Track} → IsTrack t → t.current_pts < 2 ^ 64
pts-lt k = omega (arith, k.lasted)

started-IsTrack :
    (w : Fmp4Writer) (t : Track)
    → w.track_id ≡ 1
    → t.track_id ≡ none
    → IsTrack t
    → IsTrack (started w t)
started-IsTrack w t one e k =
    let (no_samples, no_segments, zero_index) =
      subst (λ (o : Option ℕ). IsNumbered o t.samples t.segments t.seg_index) e k.numbered in
    opened-IsTrack (record t { track_id = some 1; writer = some w }) 1 refl one
      (omega (arith, zero_index, ap length no_segments)) (at_pts no_samples) (pts-lt k)
  where
    at_pts : t.samples ≡ [] → Contiguous 0 t.segments t.current_pts
    at_pts empty =
        subst (Contiguous 0 t.segments)
          (omega (arith, k.lasted, k.start_fits, ap total_duration empty)) k.contiguous

closed-IsTrack :
    (w : Fmp4Writer) (t : Track) (id : ℕ) → t.track_id ≡ some id → IsTrack t → IsTrack (closed w t)
closed-IsTrack w t id e k =
    let info : SegmentInfo = record {
      start_time = t.seg_start;
      duration = sub_u64 t.current_pts t.seg_start;
    } in
    opened-IsTrack
      (record t {
        segments = t.segments ++ (info ∷ []);
        files = t.files ++ (segment_file w t ∷ []);
      })
      id e k.has_writer
      (omega (
        arith,
        number_of t.track_id id t.samples t.segments t.seg_index e k.numbered,
        length-append t.segments (info ∷ []),
      ))
      (Contiguous-snoc t.segments 0 t.seg_start t.current_pts k.contiguous k.start_fits (pts-lt k))
      (pts-lt k)

-- Every step keeps the invariant.
pub Pushed-IsTrack :
    {t t' : Track} {sample : Mp4Sample} {taken : List Mp4Sample}
    → IsTrack t
    → Pushed t sample t' taken
    → IsTrack t'
Pushed-IsTrack {t} {t'} {sample} k (ignored missing same _) = subst IsTrack (sym same) k
Pushed-IsTrack {t} {t'} {sample} k (starting w missing one now _) =
    subst IsTrack (sym now)
      (added-IsTrack sample (started w t) 1 refl (started-IsTrack w t one missing k))
Pushed-IsTrack {t} {t'} {sample} k (appended id e now _) =
    subst IsTrack (sym now) (added-IsTrack sample t id e k)
Pushed-IsTrack {t} {t'} {sample} k (closing w id e has filled sync long now _) =
    subst IsTrack (sym now) (added-IsTrack sample (closed w t) id e (closed-IsTrack w t id e k))

pub writer_number :
    (o : Option ℕ) (writer : Option Fmp4Writer) (id : ℕ) (w : Fmp4Writer)
    → o ≡ some id
    → writer ≡ some w
    → HasWriter o writer
    → w.track_id ≡ 1
writer_number none writer id w e f h = absurd (none-ne-some id e)
writer_number (some _) none id w e f h = absurd h
writer_number (some _) (some v) id w e f h = cc

pub no_samples : {t : Track} → t.track_id ≡ none → IsTrack t → t.samples ≡ []
no_samples {t} e k =
    (subst (λ (o : Option ℕ). IsNumbered o t.samples t.segments t.seg_index) e k.numbered).0
