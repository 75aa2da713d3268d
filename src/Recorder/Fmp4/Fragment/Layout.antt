-- ===== src/Recorder/Fmp4/Fragment/Layout.antt =====
-- The fragment that `_build_fragment_internal` patches together is a nesting of boxes.
use live.Prelude.{
  ℕ, ◌+◌, ◌*◌, ◌≡◌, refl, ◌∙◌, Bytes, List, [], ◌∷◌, ◌++◌, arith, length, codes, flatten,
  total_length, u32, length-flatten,
}
use live.Recorder.AnnexB.{be_u32}
use live.Recorder.Fmp4.Boxes.{be_u64, make_box}
use live.Recorder.Fmp4.Fragment.{Mp4Sample, sample_bytes, sample_entries, build_fragment_internal}

-- The payloads of the boxes.
abbrev pub mfhd : ℕ → Bytes
mfhd seq_number = be_u32 0 ++ be_u32 seq_number

abbrev pub tfhd : ℕ → Bytes
tfhd track_id = be_u32 0x000200 ++ be_u32 track_id

abbrev pub tfdt : ℕ → Bytes
tfdt base_time = be_u32 0x01000000 ++ be_u64 base_time

abbrev pub trun : (count data_offset : ℕ) → Bytes → Bytes
trun count data_offset entries =
    be_u32 0x000701 ++ (be_u32 (u32 count) ++ (be_u32 (u32 data_offset) ++ entries))

abbrev pub traf : (track_id base_time : ℕ) → Bytes → Bytes
traf track_id base_time run =
    make_box (codes "tfhd") (tfhd track_id)
    ++ (make_box (codes "tfdt") (tfdt base_time) ++ make_box (codes "trun") run)

abbrev pub moof : (seq_number : ℕ) → Bytes → Bytes
moof seq_number track = make_box (codes "mfhd") (mfhd seq_number) ++ make_box (codes "traf") track

abbrev pub styp : Bytes
styp = codes "msdh" ++ (be_u32 0 ++ (codes "msdh" ++ codes "dash"))

-- The fragment with its four sizes and the offset left open.
spine :
    (trun_size traf_size moof_size offset mdat_size : ℕ)
    → (track seq base count : ℕ) → (entries samples : Bytes) → Bytes
spine trun_size traf_size moof_size offset mdat_size track seq base count entries samples =
    be_u32 24
    ++ (codes "styp"
        ++ (styp
            ++ (be_u32 moof_size
                ++ (codes "moof"
                    ++ (be_u32 16
                        ++ (codes "mfhd"
                            ++ (mfhd seq
                                ++ (be_u32 traf_size
                                    ++ (codes "traf"
                                        ++ (be_u32 16
                                            ++ (codes "tfhd"
                                                ++ (tfhd track
                                                    ++ (be_u32 20
                                                        ++ (codes "tfdt"
                                                            ++ (tfdt base
                                                            ++ (be_u32 trun_size
                                                            ++ (codes "trun"
                                                            ++ (be_u32 0x000701
                                                            ++ (be_u32 (u32 count)
                                                            ++ (be_u32 offset
                                                            ++ (entries
                                                            ++ (be_u32 mdat_size
                                                            ++ (codes "mdat"
                                                            ++ samples)))))))))))))))))))))))

sizes :
    (a b c d e a' b' c' d' e' : ℕ) (track seq base count : ℕ) (entries samples : Bytes)
    → a ≡ a'
    → b ≡ b'
    → c ≡ c'
    → d ≡ d'
    → e ≡ e'
    → spine a b c d e track seq base count entries samples
      ≡ spine a' b' c' d' e' track seq base count entries samples
sizes a b c d e a' b' c' d' e' track seq base count entries samples p q r s t = rw (p, q, r, s, t)

patched :
    (track seq base : ℕ) (samples : List Mp4Sample)
    → let n = length (sample_entries samples) in
      build_fragment_internal track seq base samples
      ≡ spine
          (u32 (n + 20))
          (u32 (n + 64))
          (u32 (n + 88))
          (u32 (u32 (n + 88) + 8))
          (u32 (8 + total_length (sample_bytes samples)))
          track
          seq
          base
          (length samples)
          (sample_entries samples)
          (flatten (sample_bytes samples))
unfolding build_fragment_internal spine
patched track seq base samples =
    sizes _ _ _ _ _ _ _ _ _ _ track seq base (length samples) (sample_entries samples)
      (flatten (sample_bytes samples)) (omega arith) (omega arith) (omega arith) (omega arith) refl

nested :
    (track seq base count : ℕ) (entries samples : Bytes)
    → let n = length entries in
      spine
        (u32 (n + 20))
        (u32 (n + 64))
        (u32 (n + 88))
        (u32 (u32 (n + 88) + 8))
        (u32 (8 + length samples))
        track
        seq
        base
        count
        entries
        samples
      ≡ make_box (codes "styp") styp
        ++ (make_box (codes "moof") (moof seq (traf track base (trun count (n + 96) entries)))
            ++ make_box (codes "mdat") samples)
unfolding make_box spine
nested track seq base count entries samples =
    sizes _ _ _ _ _ _ _ _ _ _ track seq base count entries samples (omega arith) (omega arith)
      (omega arith) (omega arith) refl

-- The boxes of a fragment, the data offset being the distance from `moof` to the samples.
pub build_fragment-eq-boxes :
    (track seq base : ℕ) (samples : List Mp4Sample)
    → let entries = sample_entries samples in
      build_fragment_internal track seq base samples
      ≡ make_box (codes "styp") styp
        ++ (make_box
              (codes "moof")
              (moof seq (traf track base (trun (length samples) (length entries + 96) entries)))
            ++ make_box (codes "mdat") (flatten (sample_bytes samples)))
build_fragment-eq-boxes track seq base samples =
    patched track seq base samples
    ∙ rw (← length-flatten (sample_bytes samples)) (
        nested track seq base (length samples) (sample_entries samples)
          (flatten (sample_bytes samples)))

pub length-sample_entries :
    (samples : List Mp4Sample) → length (sample_entries samples) ≡ 12 * length samples
unfolding sample_entries
length-sample_entries [] = refl
length-sample_entries (s ∷ samples) = omega (arith, length-sample_entries samples)
