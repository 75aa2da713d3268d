-- ===== src/Recorder/Fmp4/Init/Entry.antt =====
-- What a player reads of the sample entry that a writer builds is what it is to find.
use live.Prelude.{
  ℕ, ◌^◌, ◌<◌, ◌≡◌, refl, sym, ap, ◌||◌, Bytes, List, [], ◌∷◌, arith, codes, bytes_eq,
  to_ascii_lowercase, starts_with, Bool-cases, inl, inr,
}
use live.Recorder.Fmp4.Writer.{Fmp4Writer, is_video}
use live.Recorder.Fmp4.SampleEntry.{first_blob, dops_record}
use live.Recorder.Fmp4.Init.Config.{
  Config, opus, decoder_record, read_config, read_avcc, sets_of, one_record, entry_of,
  video_entry_of, SetsFit, read_avcc-avcc_record,
}
use live.Recorder.Fmp4.Init.Reading.{avcc_content, built_video_entry, built_entry}

first_record : (blobs : List Bytes) → one_record blobs ≡ decoder_record (first_blob blobs)
unfolding first_blob
first_record [] = refl
first_record (blob ∷ _) = refl

sets_read : (blobs : List Bytes) → SetsFit blobs → sets_of blobs ≡ read_avcc (avcc_content blobs)
unfolding read_avcc
sets_read [] fits = refl
sets_read (sps ∷ pps_list) fits = sym (read_avcc-avcc_record sps pps_list fits)

-- An entry with its configuration read.
abbrev pub entry_read : Bytes × Bytes × Bytes → Bytes × Bytes × Config
entry_read (type, config_type, config) = (type, config_type, read_config config_type config)

video_entry_read :
    (w : Fmp4Writer) (codec : Bytes)
    → ((video_entry_of w.codec_config codec).0 ≡ codes "avc1" → SetsFit w.codec_config)
    → video_entry_of w.codec_config codec ≡ entry_read (built_video_entry w codec)
unfolding read_config bytes_eq
video_entry_read w codec fit =
    elim (Bool-cases (starts_with (codes "hev1") codec || starts_with (codes "hvc1") codec)) [
      | inl h ↦
          rw h (ap (λ (c : Config). (codes "hev1", codes "hvcC", c)) (first_record w.codec_config))
      | inr h ↦ elim (Bool-cases (starts_with (codes "av01") codec)) [
        | inl a ↦
            rw (h, a)
              (ap (λ (c : Config). (codes "av01", codes "av1C", c)) (first_record w.codec_config))
        | inr a ↦ elim (Bool-cases (starts_with (codes "vp09") codec)) [
          | inl n ↦ rw (h, a, n) refl
          | inr n ↦ elim (Bool-cases (starts_with (codes "vp08") codec)) [
            | inl e ↦ rw (h, a, n, e) refl
            | inr e ↦
                let fits = fit (rw (h, a, n, e) refl) in
                rw (h, a, n, e)
                  (ap (λ (c : Config). (codes "avc1", codes "avcC", c))
                    (sets_read w.codec_config fits))
          ]
        ]
      ]
    ]

pub built_entry-read :
    (w : Fmp4Writer)
    → ((entry_of w).0 ≡ codes "avc1" → SetsFit w.codec_config)
    → w.channels < 2 ^ 8
    → w.sample_rate < 2 ^ 32
    → entry_of w ≡ entry_read (built_entry w)
unfolding read_config bytes_eq dops_record
built_entry-read w fit channels rate = elim (Bool-cases (is_video w.kind)) [
  | inl v ↦ rw v (video_entry_read w (to_ascii_lowercase w.codec_string) (λ avc1. fit (rw v avc1)))
  | inr v ↦ rw v (sound (omega arith) (omega arith))
]
  where
    sound :
        {c r c' r' : ℕ}
        → c ≡ c'
        → r ≡ r'
        → ◌≡◌ {A = Bytes × Bytes × Config}
            (codes "Opus", codes "dOps", opus c r)
            (codes "Opus", codes "dOps", opus c' r')
    sound p q = rw (p, q) refl
