-- ===== src/Recorder/Segmenter/Track/Steps.antt =====
-- A frame makes one of the four steps of a track.
use live.Prelude.{
  ℕ, ◌≡◌, ◌≢◌, ◌≤◌, refl, ap, ◌∙◌, sym, Bool, true, false, ◌||◌, ◌&&◌, List, [], ◌∷◌, Option, none,
  some, is_none, is_empty, arith, Bool-cases, inl, inr, leb, ok,
}
use mathlib.Core.Path.{subst}
use live.Recorder.Fmp4.Fragment.{Mp4Sample}
use live.Recorder.Fmp4.Writer.{Fmp4Writer}
use live.Recorder.Segmenter.Interface.{Floats, CodecAdapters}
use live.Recorder.Segmenter.State.{
  Segmenter, refresh_video_metadata, sub_u64, current_video_adapter_ready,
}
use live.Recorder.Segmenter.Video.{
  close_segment, close_with, roll_segment, join_track, segment_is_over, note_keyframe,
  roll_and_join, push_sample,
}
use live.Recorder.Segmenter.Track.{
  Track, track_of, started, closed, added, Pushed, ignored, starting, appended, closing, HasWriter,
}
use live.Recorder.Segmenter.Track.View.{
  track_of-refresh, track_of-add_sample, track_of-close_segment, track_of-init_writer,
}

ne-nil : {A : Type 0} (xs : List A) → is_empty xs ≡ false → xs ≢ []
ne-nil [] e = λ _. cc
ne-nil (x ∷ xs) e = λ h. cc

started_id : {A : Type 0} (o : Option A) → is_none o ≡ false → (a : A) × (o ≡ some a)
started_id none e = cc
started_id (some a) e = (a, refl)

pub missing_id : {A : Type 0} (o : Option A) → is_none o ≡ true → o ≡ none
missing_id none e = refl
missing_id (some a) e = cc

writer_there :
    (o : Option ℕ) (writer : Option Fmp4Writer) {id : ℕ}
    → HasWriter o writer
    → o ≡ some id
    → (w : Fmp4Writer) × (writer ≡ some w) × (w.track_id ≡ 1)
writer_there none writer h e = cc
writer_there (some id) none h e = absurd h
writer_there (some id) (some w) h e = (w, refl, h)

or_false : (a b : Bool) → (a || b) ≡ false → (a ≡ false) × (b ≡ false)
or_false true b e = cc
or_false false b e = (refl, e)

and_true : (a b : Bool) → (a && b) ≡ true → (a ≡ true) × (b ≡ true)
and_true true b e = (refl, e)
and_true false b e = cc

leb_le : (a b : ℕ) → leb a b ≡ true → a ≤ b
leb_le a b e = ground arith

-- A step, and what it takes into the track.
abbrev pub Taken : Track → Mp4Sample → Track → Type 0
Taken t sample t' = (taken : List Mp4Sample) × Pushed t sample t' taken

module _ (C : CodecAdapters) (FL : Floats) where
  open C use {Adapter}
  open FL use {F64}

  abbrev pub S : Type 0
  S = Segmenter Adapter F64

  -- A segment that is over is closed, if there is anything in it and the track has started.
  pub data Rolled (s r : S) : Type 0 where
    kept :
        (is_empty s.video_samples || is_none s.video_track_id) ≡ true
        → track_of r ≡ track_of s
        → Rolled s r
    closed_it :
        (w : Fmp4Writer) (id : ℕ)
        → s.video_track_id ≡ some id
        → s.fmp4_writer ≡ some w
        → s.video_samples ≢ []
        → track_of r ≡ closed w (track_of s)
        → Rolled s r

  pub roll_segment-Rolled :
      (s : S)
      → HasWriter s.video_track_id s.fmp4_writer
      → (r : S) × (roll_segment C FL s ≡ ok r) × Rolled s r
  unfolding roll_segment close_with
  roll_segment-Rolled s has =
      elim (Bool-cases (is_empty s.video_samples || is_none s.video_track_id)) [
        | inl e ↦ rw e (s, refl, kept e refl)
        | inr e ↦
            let (some_samples, some_track) =
              or_false (is_empty s.video_samples) (is_none s.video_track_id) e in
            let (id, has_id) = started_id s.video_track_id some_track in
            let (w, has_w, _) = writer_there s.video_track_id s.fmp4_writer has has_id in
            rw e (
              close_segment C FL w s,
              ap (λ (o : Option Fmp4Writer). close_with C FL o s) has_w,
              closed_it w id has_id has_w (ne-nil s.video_samples some_samples)
                  (track_of-close_segment C FL w s),
            )
      ]

  -- In a track that has started the sample joins the open segment.
  join_started :
      (can_start : Bool) (sample : Mp4Sample) (r : S)
      → is_none r.video_track_id ≡ false
      → track_of (join_track C FL can_start sample r) ≡ added sample (track_of r)
  unfolding join_track
  join_started can_start sample r e = rw e (track_of-add_sample C FL sample r)

  join_missing :
      (can_start : Bool) (sample : Mp4Sample) (r : S)
      → is_none r.video_track_id ≡ true
      → Taken (track_of r) sample (track_of (join_track C FL can_start sample r))
  unfolding join_track
  join_missing false sample r e = rw e ([], ignored (missing_id r.video_track_id e) refl refl)
  join_missing true sample r e =
      let (w, one, init) = track_of-init_writer C FL (refresh_video_metadata C r) in
      rw e (
        sample ∷ [],
        starting w (missing_id r.video_track_id e) one
            (track_of-add_sample C FL sample _
              ∙ ap (added sample) (init ∙ ap (started w) (track_of-refresh C FL r)))
            refl,
      )

  join-Taken :
      (can_start : Bool) (sample : Mp4Sample) (r : S)
      → Taken (track_of r) sample (track_of (join_track C FL can_start sample r))
  join-Taken can_start sample r = elim (Bool-cases (is_none r.video_track_id)) [
    | inl e ↦ join_missing can_start sample r e
    | inr e ↦
        let (id, has_id) = started_id r.video_track_id e in
        (sample ∷ [], appended id has_id (join_started can_start sample r e) refl)
  ]

  -- The frame once the segment before it is closed.
  closed-Taken :
      (can_start : Bool) (sample : Mp4Sample) (n r : S)
      → segment_is_over sample.is_sync n ≡ true
      → Rolled n r
      → Taken (track_of n) sample (track_of (join_track C FL can_start sample r))
  unfolding segment_is_over
  closed-Taken can_start sample n r over (kept idle e) =
      subst (λ t. Taken t sample (track_of (join_track C FL can_start sample r))) e
        (join-Taken can_start sample r)
  closed-Taken can_start sample n r over (closed_it w id has_id has_w filled e) =
      let (sync, long) =
        and_true sample.is_sync
          (leb n.seg_duration_ticks (sub_u64 n.video_current_pts n.video_seg_start_dts)) over in
      (
        sample ∷ [],
        closing w id has_id has_w filled sync (leb_le _ _ long)
            (join_started can_start sample r (still_started id has_id e) ∙ ap (added sample) e)
            refl,
      )
    where
      still_started :
          (id : ℕ)
          → n.video_track_id ≡ some id
          → track_of r ≡ closed w (track_of n)
          → is_none r.video_track_id ≡ false
      still_started id h e = rw (ap (λ (t : Track). t.track_id) e ∙ h)

  roll_and_join-Pushed :
      (can_start : Bool) (sample : Mp4Sample) (n : S)
      → HasWriter n.video_track_id n.fmp4_writer
      → (s' : S) × (roll_and_join C FL can_start sample n ≡ ok s')
        × Taken (track_of n) sample (track_of s')
  unfolding roll_and_join
  roll_and_join-Pushed can_start sample n has =
      elim (Bool-cases (segment_is_over sample.is_sync n)) [
        | inr e ↦ rw e (join_track C FL can_start sample n, refl, join-Taken can_start sample n)
        | inl e ↦
            let (r, rolls, rolled) = roll_segment-Rolled n has in
            rw (e, rolls)
              (join_track C FL can_start sample r, refl, closed-Taken can_start sample n r e rolled)
      ]

  track_of-note :
      (now : ℕ) (is_sync : Bool) (s : S) → track_of (note_keyframe now is_sync s) ≡ track_of s
  unfolding note_keyframe
  track_of-note now true s = refl
  track_of-note now false s = refl

  -- `push_sample` returns, and has made a step.
  pub push_sample-Pushed :
      (now : ℕ) (config_ready : Bool) (sample : Mp4Sample) (s : S)
      → HasWriter s.video_track_id s.fmp4_writer
      → (s' : S) × (push_sample C FL now config_ready sample s ≡ ok s')
        × Taken (track_of s) sample (track_of s')
  unfolding push_sample
  push_sample-Pushed now config_ready sample s has =
      let n = note_keyframe now sample.is_sync (refresh_video_metadata C s) in
      let same =
        track_of-note now sample.is_sync (refresh_video_metadata C s) ∙ track_of-refresh C FL s in
      let can_start = config_ready || current_video_adapter_ready C (refresh_video_metadata C s) in
      let (s', runs, taken) =
        roll_and_join-Pushed can_start sample n
          (subst (λ (t : Track). HasWriter t.track_id t.writer) (sym same) has) in
      (s', runs, subst (λ t. Taken t sample (track_of s')) same taken)
