-- ===== src/Recorder/Fmp4/Fragment/Reading.antt =====
-- The reader of fragments finds in a fragment of the recorder what was put in.
use live.Prelude.{
  ℕ, suc, ◌+◌, ◌*◌, ◌/◌, ◌%◌, ◌^◌, ◌<◌, ◌≡◌, refl, ◌∙◌, false, Bytes, List, [], ◌∷◌, ◌++◌, arith,
  ltb, ◌==◌, some, length, drop, codes, flatten, total_length, bytes_eq, All, length-append,
  append-nil, take-append, drop-append, u32, length-flatten, append_assoc,
}
use live.Recorder.Fmp4.Boxes.{
  read_u32, read_boxes, make_box, length-make_box, find_box, read_boxes-one, read_boxes-more,
}
use live.Recorder.Fmp4.Boxes.{read_u32-be_u32}
use live.Recorder.AnnexB.{be_u32}
use live.Recorder.Fmp4.Fragment.{
  Mp4Sample, sample_bytes, sample_entry, sample_entries, build_fragment_internal,
}
use live.Recorder.Fmp4.Fragment.Layout.{
  styp, moof, traf, trun, tfhd, tfdt, mfhd, build_fragment-eq-boxes, length-sample_entries,
}
use live.Recorder.Fmp4.Fragment.Reader.{with_sample, read_entries, read_fragment, IsSample}

-- One entry of twelve bytes, with the size `length bytes` in the middle.
read_entries-entry :
    (n : ℕ) (a b c d e f g h i j k l : ℕ) (entries bytes rest : Bytes)
    → read_u32 (e ∷ f ∷ g ∷ h ∷ []) ≡ length bytes
    → read_entries (suc n) (a ∷ b ∷ c ∷ d ∷ e ∷ f ∷ g ∷ h ∷ i ∷ j ∷ k ∷ l ∷ entries) (bytes ++ rest)
      ≡ with_sample
          (record {
            duration = read_u32 (a ∷ b ∷ c ∷ d ∷ []);
            is_sync = read_u32 (i ∷ j ∷ k ∷ l ∷ []) / 2 ^ 16 % 2 == 0;
            bytes = bytes;
          })
          (read_entries n entries rest)
unfolding read_entries
read_entries-entry n a b c d e f g h i j k l entries bytes rest size =
    rw (size, within, take-append bytes rest, drop-append bytes rest)
  where
    within : ltb (length (bytes ++ rest)) (length bytes) ≡ false
    within = ground (arith, length-append bytes rest)

sample_entry_lem :
    (s : Mp4Sample) (samples : List Mp4Sample) (entries : Bytes) (rest : Bytes)
    → IsSample s
    → read_entries (length samples) entries rest ≡ some samples
    → read_entries (suc (length samples)) (sample_entry s ++ entries) (s.bytes ++ rest)
      ≡ some (s ∷ samples)
sample_entry_lem s samples entries rest h ih =
    read_entries-entry (length samples) _ _ _ _ _ _ _ _ _ _ _ _ entries s.bytes rest (omega arith)
    ∙ rw ih (ground arith)

read_entries-sample_entries :
    (samples : List Mp4Sample) (rest : Bytes)
    → All IsSample samples
    → read_entries
        (length samples)
        (sample_entries samples)
        (flatten (sample_bytes samples) ++ rest)
      ≡ some samples
unfolding sample_entries read_entries
read_entries-sample_entries [] rest h = refl
read_entries-sample_entries (s ∷ samples) rest h =
    rw (append_assoc s.bytes (flatten (sample_bytes samples)) rest) (
      sample_entry_lem s samples (sample_entries samples) (flatten (sample_bytes samples) ++ rest)
        h.0 (read_entries-sample_entries samples rest h.1))

-- What is behind a prefix of a known length.
drop_prefix : (n : ℕ) (xs ys : Bytes) → n ≡ length xs → drop n (xs ++ ys) ≡ ys
drop_prefix n xs ys e = rw e (drop-append xs ys)

apart : (s m h c : Bytes) → s ++ (m ++ (h ++ c)) ≡ (s ++ (m ++ h)) ++ c
apart s m h c = rw (append_assoc s (m ++ h) c, append_assoc m h c)

module _ (track_id sequence_number base_time : ℕ) (samples : List Mp4Sample) where
  abbrev entries : Bytes
  entries = sample_entries samples

  abbrev run : Bytes
  run = trun (length samples) (length entries + 96) entries

  abbrev track : Bytes
  track = traf track_id base_time run

  abbrev content : Bytes
  content = flatten (sample_bytes samples)

  abbrev boxes : List (Bytes × Bytes)
  boxes =
      (codes "styp", styp)
      ∷ (codes "moof", moof sequence_number track)
      ∷ (codes "mdat", content)
      ∷ []

  abbrev track_boxes : List (Bytes × Bytes)
  track_boxes =
      (codes "tfhd", tfhd track_id) ∷ (codes "tfdt", tfdt base_time) ∷ (codes "trun", run) ∷ []

  -- Where the samples lie in the fragment.
  abbrev laid_out : Bytes
  laid_out =
      make_box (codes "styp") styp
      ++ (make_box (codes "moof") (moof sequence_number track) ++ make_box (codes "mdat") content)

  before_content : Bytes
  before_content =
      make_box (codes "styp") styp
      ++ (make_box (codes "moof") (moof sequence_number track)
          ++ (be_u32 (u32 (8 + length content)) ++ codes "mdat"))

  laid_out_apart : laid_out ≡ before_content ++ content
  unfolding before_content make_box
  laid_out_apart =
      apart (make_box (codes "styp") styp) (make_box (codes "moof") (moof sequence_number track))
        (be_u32 (u32 (8 + length content)) ++ codes "mdat") content

  length-traf : length track ≡ length entries + 56
  length-traf = omega (
    arith,
    length-append (make_box (codes "tfhd") (tfhd track_id))
        (make_box (codes "tfdt") (tfdt base_time) ++ make_box (codes "trun") run),
    length-append (make_box (codes "tfdt") (tfdt base_time)) (make_box (codes "trun") run),
    length-make_box (codes "tfhd") (tfhd track_id),
    length-make_box (codes "tfdt") (tfdt base_time),
    length-make_box (codes "trun") run,
  )

  length-moof : length (moof sequence_number track) ≡ length entries + 80
  length-moof = omega (
    arith,
    length-append (make_box (codes "mfhd") (mfhd sequence_number)) (make_box (codes "traf") track),
    length-make_box (codes "mfhd") (mfhd sequence_number),
    length-make_box (codes "traf") track,
    length-traf,
  )

  length-before_content : length before_content ≡ length entries + 120
  unfolding before_content
  length-before_content = omega (
    arith,
    length-append (make_box (codes "styp") styp) (
        make_box (codes "moof") (moof sequence_number track)
        ++ (be_u32 (u32 (8 + length content)) ++ codes "mdat")),
    length-append (make_box (codes "moof") (moof sequence_number track))
        (be_u32 (u32 (8 + length content)) ++ codes "mdat"),
    length-make_box (codes "styp") styp,
    length-make_box (codes "moof") (moof sequence_number track),
    length-moof,
  )

  content_found : drop (24 + (length entries + 96)) laid_out ≡ content
  content_found = rw laid_out_apart (
      drop_prefix (24 + (length entries + 96)) before_content content
        (omega (arith, length-before_content)))

module _ (track_id sequence_number base_time : ℕ) (samples : List Mp4Sample)
    (moof_fits : 12 * length samples + 96 < 2 ^ 32)
    (mdat_fits : 8 + total_length (sample_bytes samples) < 2 ^ 32) where
  read_track :
      read_boxes 3 (track track_id sequence_number base_time samples)
      ≡ some (track_boxes track_id sequence_number base_time samples)
  read_track =
      read_boxes-more 2 (codes "tfhd") (tfhd track_id) (refl, omega arith) _
        (read_boxes-more 1 (codes "tfdt") (tfdt base_time) (refl, omega arith) _
          (read_boxes-one 0 (codes "trun") (run track_id sequence_number base_time samples)
            (refl, omega (arith, length-sample_entries samples))))

  read_moof :
      read_boxes 2 (moof sequence_number (track track_id sequence_number base_time samples))
      ≡ some (
          (codes "mfhd", mfhd sequence_number)
          ∷ (codes "traf", track track_id sequence_number base_time samples)
          ∷ [])
  read_moof =
      read_boxes-more 1 (codes "mfhd") (mfhd sequence_number) (refl, omega arith) _
        (read_boxes-one 0 (codes "traf") (track track_id sequence_number base_time samples) (
          refl,
          omega (
            arith,
            length-traf track_id sequence_number base_time samples,
            length-sample_entries samples,
          ),
        ))

  read_laid_out :
      read_boxes 3 (laid_out track_id sequence_number base_time samples)
      ≡ some (boxes track_id sequence_number base_time samples)
  read_laid_out =
      read_boxes-more 2 (codes "styp") styp (refl, omega arith) _
        (read_boxes-more 1 (codes "moof")
          (moof sequence_number (track track_id sequence_number base_time samples))
          (
            refl,
            omega (
              arith,
              length-moof track_id sequence_number base_time samples,
              length-sample_entries samples,
            ),
          )
          _
          (read_boxes-one 0 (codes "mdat") (content track_id sequence_number base_time samples)
            (refl, omega (arith, length-flatten (sample_bytes samples)))))

  data_offset :
      read_u32 (drop 8 (run track_id sequence_number base_time samples))
      ≡ length (sample_entries samples) + 96
  data_offset =
      read_u32-be_u32 (u32 (length (sample_entries samples) + 96)) (sample_entries samples)
        (omega arith)
      ∙ omega (arith, length-sample_entries samples)

  sample_count : read_u32 (drop 4 (run track_id sequence_number base_time samples)) ≡ length samples
  sample_count = omega arith

  read_samples :
      All IsSample samples
      → read_entries
          (read_u32 (drop 4 (run track_id sequence_number base_time samples)))
          (sample_entries samples)
          (drop
            (24 + read_u32 (drop 8 (run track_id sequence_number base_time samples)))
            (laid_out track_id sequence_number base_time samples))
        ≡ some samples
  read_samples each =
      rw (data_offset, sample_count, content_found track_id sequence_number base_time samples)
        (rw append-nil at (read_entries-sample_entries samples [] each))

-- A player reads back from a fragment the track, the sequence number, the base time, and every
-- sample with its duration, its sync flag and its bytes, for numbers that fit their fields and a
-- fragment whose boxes fit 32 bits. The player reads only a fragment whose flags say that the
-- entries have these fields, and that no base of the data or default is given in `tfhd`, and
-- whose base time has 64 bits.
pub read_fragment-build_fragment :
    (track_id sequence_number base_time : ℕ) (samples : List Mp4Sample)
    → track_id < 2 ^ 32
    → sequence_number < 2 ^ 32
    → base_time < 2 ^ 64
    → All IsSample samples
    → 12 * length samples + 96 < 2 ^ 32
    → 8 + total_length (sample_bytes samples) < 2 ^ 32
    → read_fragment (build_fragment_internal track_id sequence_number base_time samples)
      ≡ some (record {
        track_id = track_id;
        sequence_number = sequence_number;
        base_time = base_time;
        samples = samples;
      })
unfolding read_fragment bytes_eq find_box
read_fragment-build_fragment t q b samples ht hq hb each moof_fits mdat_fits =
    rw
      (
        build_fragment-eq-boxes t q b samples,
        read_laid_out t q b samples moof_fits mdat_fits,
        read_moof t q b samples moof_fits mdat_fits,
        read_track t q b samples moof_fits mdat_fits,
        read_samples t q b samples moof_fits mdat_fits each,
      )
      (ground arith)
