-- ===== src/Recorder/Fmp4/Fragment.antt =====
-- fmp4.rs, `_build_fragment_internal`: a media fragment (`styp`, `moof`, `mdat`). The buffer is a
-- value that each statement replaces; sizes are patched into it once they are known.
pub mod Layout
pub mod Reader
pub mod Reading
use live.Prelude.{
  ℕ, zero, suc, ◌+◌, ◌-◌, Bool, Bytes, List, [], ◌∷◌, ◌++◌, if◌then◌else◌, length, take, drop,
  codes, map, flatten, total_length, u32,
}
use live.Recorder.AnnexB.{be_u32}
use live.Recorder.Fmp4.Boxes.{be_u64, zeroes}

pub record Mp4Sample : Type 0 where
  pub duration : ℕ
  pub is_sync : Bool
  pub bytes : Bytes

-- The bytes of samples, one after the other.
abbrev pub sample_bytes : List Mp4Sample → List Bytes
sample_bytes [] = []
sample_bytes (s ∷ samples) = s.bytes ∷ sample_bytes samples

-- What the loop over the samples writes into `trun`.
abbrev pub sample_entry : Mp4Sample → Bytes
sample_entry s =
    be_u32 s.duration
    ++ (be_u32 (u32 (length s.bytes)) ++ be_u32 (if s.is_sync then 0x0200_0000 else 0x0101_0000))

unfoldable pub sample_entries : List Mp4Sample → Bytes
sample_entries [] = []
sample_entries (s ∷ samples) = sample_entry s ++ sample_entries samples

-- `BigEndian::write_u32` and `copy_from_slice` into the buffer at a position.
abbrev pub write_at : ℕ → Bytes → Bytes → Bytes
write_at pos new buf = take pos buf ++ (new ++ drop (pos + length new) buf)

unfoldable pub build_fragment_internal :
    (track_id seq_number base_time : ℕ) → List Mp4Sample → Bytes
unfolding sample_entries
build_fragment_internal track_id seq_number base_time samples =
    let total_data = total_length (sample_bytes samples) in
    let styp =
      be_u32 24
      ++ (codes "styp" ++ (codes "msdh" ++ (be_u32 0 ++ (codes "msdh" ++ codes "dash")))) in
    let moof_start = length styp in
    let with_mfhd =
      styp ++ (zeroes 8 ++ (be_u32 16 ++ (codes "mfhd" ++ (be_u32 0 ++ be_u32 seq_number)))) in
    let traf_start = length with_mfhd in
    let with_tfhd =
      with_mfhd
      ++ (zeroes 8 ++ (be_u32 16 ++ (codes "tfhd" ++ (be_u32 0x000200 ++ be_u32 track_id)))) in
    let with_tfdt =
      with_tfhd ++ (be_u32 20 ++ (codes "tfdt" ++ (be_u32 0x01000000 ++ be_u64 base_time))) in
    let trun_start = length with_tfdt in
    let with_trun =
      with_tfdt
      ++ (zeroes 4 ++ (codes "trun" ++ (be_u32 0x000701 ++ be_u32 (u32 (length samples))))) in
    let data_offset_pos = length with_trun in
    let unpatched = with_trun ++ (zeroes 4 ++ sample_entries samples) in
    let trun_patched =
      write_at trun_start (be_u32 (u32 (length unpatched - trun_start))) unpatched in
    let traf_size = u32 (length trun_patched - traf_start) in
    let traf_patched =
      write_at (traf_start + 4) (codes "traf")
        (write_at traf_start (be_u32 traf_size) trun_patched) in
    let moof_size = u32 (length traf_patched - moof_start) in
    let moof_patched =
      write_at (moof_start + 4) (codes "moof")
        (write_at moof_start (be_u32 moof_size) traf_patched) in
    let fragment = write_at data_offset_pos (be_u32 (u32 (moof_size + 8))) moof_patched in
    fragment ++ (be_u32 (u32 (8 + total_data)) ++ (codes "mdat" ++ flatten (sample_bytes samples)))
