-- ===== src/Recorder/Fmp4/Fragment/Reader.antt =====
-- How a player reads a fragment whose samples all have their duration, size and flags, and whose data
-- offset counts from the start of the `moof` box, as it does in the first track where no other base is
-- given. It refuses any other.
use live.Prelude.{
  ℕ, zero, suc, ◌+◌, ◌/◌, ◌%◌, ◌^◌, ◌<◌, Bytes, List, [], ◌∷◌, ltb, ◌==◌, ◌!=◌, Bool, true, false,
  bit_and, if◌then◌else◌, Option, none, some, length, take, drop, codes, bytes_eq,
}
use live.Recorder.Fmp4.Boxes.{read_u32, read_u64, read_boxes, find_box, ◌>>=◌}
use live.Recorder.Fmp4.Fragment.{Mp4Sample}

-- Where the first box of a type starts.
unfoldable pub offset_of : Bytes → List (Bytes × Bytes) → ℕ
offset_of type [] = 0
offset_of type ((t, payload) ∷ boxes) =
    if bytes_eq t type then 0 else 8 + length payload + offset_of type boxes

abbrev pub with_sample : Mp4Sample → Option (List Mp4Sample) → Option (List Mp4Sample)
with_sample s none = none
with_sample s (some samples) = some (s ∷ samples)

-- The entries of a `trun` box with duration, size and flags, and the bytes that they cut off the
-- data. Bit 16 of the flags marks a sample that is no sync sample.
unfoldable pub read_entries : ℕ → Bytes → Bytes → Option (List Mp4Sample)
read_entries zero entries content = some []
read_entries (suc n) entries content =
    let size = read_u32 (drop 4 entries) in
    let rest = read_entries n (drop 12 entries) (drop size content) in
    let sample : Mp4Sample = record {
      duration = read_u32 entries;
      is_sync = read_u32 (drop 8 entries) / 2 ^ 16 % 2 == 0;
      bytes = take size content;
    } in
    if ltb (length content) size then none else with_sample sample rest

unless : Bool → Option (Unit {0})
unless true = none
unless false = some tt

-- What a fragment says.
pub record MediaFragment : Type 0 where
  pub track_id : ℕ
  pub sequence_number : ℕ
  pub base_time : ℕ
  pub samples : List Mp4Sample

unfoldable pub read_fragment : Bytes → Option MediaFragment
unfolding offset_of read_entries unless
read_fragment bytes = do
  boxes ← read_boxes 3 bytes
  moof_payload ← find_box (codes "moof") boxes
  moof_boxes ← read_boxes 2 moof_payload
  header ← find_box (codes "mfhd") moof_boxes
  track ← find_box (codes "traf") moof_boxes
  track_boxes ← read_boxes 3 track
  track_header ← find_box (codes "tfhd") track_boxes
  time ← find_box (codes "tfdt") track_boxes
  run ← find_box (codes "trun") track_boxes
  _ ← unless (bit_and (read_u32 track_header) 0x3b != 0)
  _ ← unless (read_u32 time / 2 ^ 24 != 1)
  _ ← unless (read_u32 run != 0x701)
  let content = drop (offset_of (codes "moof") boxes + read_u32 (drop 8 run)) bytes
  samples ← read_entries (read_u32 (drop 4 run)) (drop 12 run) content
  some (record {
    track_id = read_u32 (drop 4 track_header);
    sequence_number = read_u32 (drop 4 header);
    base_time = read_u64 (drop 4 time);
    samples = samples;
  })

-- A sample whose numbers fit their fields.
abbrev pub IsSample : Mp4Sample → Type 0
IsSample s = (s.duration < 2 ^ 32) × (length s.bytes < 2 ^ 32)
