-- ===== src/Recorder/Segmenter/Track/Ensured.antt =====
-- `ensure_video_adapter` leaves a well-formed track: the one that is there, or a new one.
use live.Prelude.{
  ℕ, ◌≡◌, refl, ap, ◌∙◌, Bool, true, false, ◌||◌, not, Bytes, Option, none, some, arith, Bool-cases,
  inl, inr, ltb,
}
use live.Recorder.Segmenter.Interface.{Floats, CodecAdapters, VideoCodec, VideoCodec-discrete}
use live.Recorder.Segmenter.State.{
  Segmenter, new, ensure_video_adapter, same_codec, adapter_missing, set_timescale,
  reset_video_state,
}
use live.Recorder.Segmenter.Track.{track_of, IsTrack}

present : {A : Type 0} (o : Option A) → adapter_missing o ≡ false → (a : A) × (o ≡ some a)
unfolding adapter_missing
present none e = cc
present (some a) e = (a, refl)

same_codec_refl : (codec : VideoCodec) → same_codec codec (some codec) ≡ true
unfolding same_codec
same_codec_refl codec =
    elim (VideoCodec-discrete codec codec)
      as (λ d. elim d as (λ _. Bool) [ yes _ ↦ true | no _ ↦ false ] ≡ true) [
        | yes _ ↦ refl
        | no n ↦ absurd (n refl)
      ]

left_false : (a b : Bool) → (a || b) ≡ false → a ≡ false
left_false true b e = cc
left_false false b e = refl

module _ (C : CodecAdapters) (FL : Floats) where
  open C use {Adapter, create, timescale, convert_frame}
  open FL use {F64}

  abbrev S : Type 0
  S = Segmenter Adapter F64

  set_timescale-IsTrack :
      (t : ℕ) (a : Adapter) (s : S)
      → s.video_adapter ≡ some a
      → IsTrack (track_of s)
      → ((set_timescale C t s).video_adapter ≡ some a) × IsTrack (track_of (set_timescale C t s))
  unfolding set_timescale
  set_timescale-IsTrack t a s has k = elim (Bool-cases (ltb 0 t)) [
    | inl e ↦ rw e (
      has,
      record {
        has_writer = k.has_writer;
        numbered = k.numbered;
        contiguous = k.contiguous;
        lasted = k.lasted;
        start_fits = k.start_fits;
      },
    )
    | inr e ↦ rw e (has, k)
  ]

  reset-IsTrack : (s : S) → IsTrack (track_of (reset_video_state s))
  unfolding reset_video_state
  reset-IsTrack s = record {
    has_writer = tt;
    numbered = (refl, refl, refl);
    contiguous = refl;
    lasted = refl;
    start_fits = omega arith;
  }

  -- A new segmenter has a well-formed track.
  new-IsTrack :
      (two : F64) (root_prefix : Bytes) → IsTrack (track_of (new {A = Adapter} two root_prefix))
  new-IsTrack two root_prefix = record {
    has_writer = tt;
    numbered = (refl, refl, refl);
    contiguous = refl;
    lasted = refl;
    start_fits = omega arith;
  }

  -- There is an adapter for the codec, and a new one comes with an empty track.
  pub ensured-IsTrack :
      (codec : VideoCodec) (s : S)
      → IsTrack (track_of s)
      → (a : Adapter) × ((ensure_video_adapter C codec s).video_adapter ≡ some a)
        × IsTrack (track_of (ensure_video_adapter C codec s))
  unfolding ensure_video_adapter
  ensured-IsTrack codec s k =
      elim (Bool-cases
        (adapter_missing s.video_adapter || not (same_codec codec s.video_codec_kind))) [
          | inl e ↦
              let (has, k') =
                set_timescale-IsTrack (timescale (create codec)) (create codec)
                  (record (reset_video_state s) {
                    video_adapter = some (create codec);
                    video_codec_kind = some codec;
                  })
                  refl (reset-IsTrack s) in
              rw e (create codec, has, k')
          | inr e ↦ let (a, has) = present s.video_adapter (left_false _ _ e) in rw e (a, has, k)
        ]

  pub ensured_same :
      (codec : VideoCodec) (a : Adapter) (s : S)
      → s.video_adapter ≡ some a
      → s.video_codec_kind ≡ some codec
      → ensure_video_adapter C codec s ≡ s
  unfolding ensure_video_adapter adapter_missing
  ensured_same codec a s has kind =
      rw (ap adapter_missing has, ap (same_codec codec) kind ∙ same_codec_refl codec)
