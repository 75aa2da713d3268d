-- ===== src/Recorder/Av1/Obu.antt =====
-- av1.rs, `pack_temporal_unit`, `parse_temporal_unit` and `marshal_bitstream`: a temporal unit as
-- a list of OBUs without size fields, and as one byte string in which every OBU has its size.
-- The capacities that the source computes beforehand cannot be observed and are left out.
pub mod RoundTrip
pub mod Parsed
use mathlib.Core.WellFounded.{Acc}
use live.Prelude.{
  ℕ, suc, ◌+◌, ◌≡◌, refl, Bytes, List, [], ◌∷◌, ◌++◌, arith, ltb, ◌==◌, ◌!=◌, if◌then◌else◌, length,
  take, drop, drop-Shorter, Shorter, shorter_wf, bit_and, bit_or, ok, err, panic, ◌>>=◌,
}
use live.Recorder.Av1.Error.{Result, forbidden_bit, size_field_missing, not_enough_bytes}
use live.Recorder.Av1.Leb128.{read_leb128, write_leb128}

-- One OBU with its size: the header with the size bit, the size of the payload, the payload.
unfoldable pub with_size : ℕ → Bytes → Bytes
with_size header payload = bit_or header 0x02 ∷ (write_leb128 [] (length payload) ++ payload)

unfoldable pub pack_temporal_unit : List Bytes → Bytes
unfolding with_size
pack_temporal_unit [] = []
pack_temporal_unit ([] ∷ obus) = pack_temporal_unit obus
pack_temporal_unit ((header ∷ payload) ∷ obus) = with_size header payload ++ pack_temporal_unit obus

-- `obu[0]` panics on an empty OBU.
marshal_loop : Bytes → List Bytes → Result Bytes
marshal_loop buf [] = ok buf
marshal_loop buf ([] ∷ obus) = panic
marshal_loop buf ((header ∷ payload) ∷ obus) =
    marshal_loop
      (buf ++ (if bit_and header 0x02 == 0 then with_size header payload else header ∷ payload))
      obus

unfoldable pub marshal_bitstream : List Bytes → Result Bytes
unfolding marshal_loop with_size
marshal_bitstream obus = marshal_loop [] obus

parse_loop : List Bytes → (cursor : Bytes) → Acc Shorter cursor → Result (List Bytes)
parse_loop result [] _ = ok result
parse_loop result (header ∷ tail) (Acc.intro _ smaller) =
    if bit_and header 0x80 != 0
    then err forbidden_bit
    else if bit_and header 0x02 == 0
    then err size_field_missing
    else (do
      (payload_len, leb_len) ← read_leb128 tail
      let next = λ (obu : Bytes).
          parse_loop (result ++ (obu ∷ [])) (drop (leb_len + payload_len) tail) (
            smaller (drop (leb_len + payload_len) tail)
              (drop-Shorter (leb_len + payload_len) header tail))
      if ltb (length tail + 1) (1 + leb_len + payload_len)
          then err not_enough_bytes
          else next (bit_and header 0xfd ∷ take payload_len (drop leb_len tail)))

unfoldable pub parse_temporal_unit : Bytes → Result (List Bytes)
unfolding parse_loop shorter_wf
parse_temporal_unit bytes = parse_loop [] bytes (shorter_wf.apply bytes)

abbrev pub sample_unit : List Bytes
sample_unit = (0x08 ∷ 7 ∷ 8 ∷ []) ∷ (0x30 ∷ []) ∷ []

pack_sample : pack_temporal_unit sample_unit ≡ 0x0a ∷ 2 ∷ 7 ∷ 8 ∷ 0x32 ∷ 0 ∷ []
unfolding pack_temporal_unit write_leb128
pack_sample = refl

parse_sample : parse_temporal_unit (0x0a ∷ 2 ∷ 7 ∷ 8 ∷ 0x32 ∷ 0 ∷ []) ≡ ok sample_unit
unfolding parse_temporal_unit read_leb128
parse_sample = refl
