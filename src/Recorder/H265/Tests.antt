-- ===== src/Recorder/H265/Tests.antt =====
-- The H.265 adapter and parser at concrete frames. The depacketizer knows fragmentation units only:
-- its state is what it found last.
use live.Prelude.{
  ℕ, ◌+◌, ◌*◌, ◌/◌, ◌≡◌, refl, Bool, true, false, Bytes, List, [], ◌∷◌, ◌++◌, arith, All, Option,
  some, none, Outcome, ok, err, flatten, ◌||◌, ◌==◌, bit_and, bytes_eq, shorter_wf,
}
use live.Recorder.Codec.{Packet, push_all}
use live.Recorder.AnnexB.{
  long_code, annex_b, nalu_to_avcc, to_next_code, starts_short, starts_long, starts_code,
  scan_units,
}
use live.Recorder.H265.NalUnit.{is_random_access}
use live.Recorder.H265.Adapter
use live.Recorder.H265.Adapter.{
  H265Adapter, is_stored, convert_frame, scan_frame, update_codec_info, codec_config, build_hvcc,
  hevc_config, Rbsp, NaluArray, HevcConfig,
}
use live.Recorder.H265.Adapter.Conversion.{
  HasHeader, IsH265Converted, convert_frame-IsH265Converted,
}
use live.Recorder.H265.Rtp
use live.Recorder.H265.Rtp.{
  H265Payload, single, fragmentation, paci, H265RtpParser, be_u16, reconstructed, push_packet,
}
use live.Recorder.H265.Rtp.Fragments.{
  IsFragment, Continues, last_piece, next_piece, IsFrameOut, push_all-Continues,
}

abbrev parse : Bytes → Option ℕ
parse sps = some 720

abbrev cropped_width : ℕ → ℕ
cropped_width parsed = 1280

abbrev cropped_height : ℕ → ℕ
cropped_height parsed = parsed

abbrev some_rbsp : Rbsp
some_rbsp = record {
  profile_space = 0;
  tier_flag = false;
  profile_idc = 1;
  profile_compatibility_flag = 0x60000000;
  level_idc = none;
  chroma_format_idc = 1;
  bit_depth_luma_minus8 = 0;
  bit_depth_chroma_minus8 = 0;
  sps_max_sub_layers_minus1 = 0;
  sps_temporal_id_nesting_flag = true;
}

abbrev all_nalus : List NaluArray → Bytes
all_nalus [] = []
all_nalus (a ∷ arrays) = flatten a.nalus ++ all_nalus arrays

abbrev mux : HevcConfig → Option Bytes
mux config = some (config.length_size_minus_one ∷ all_nalus config.arrays)

-- The three parameter sets and a slice of an IDR picture.
abbrev units : List Bytes
units = (0x40 ∷ 1 ∷ 12 ∷ []) ∷ (0x42 ∷ 1 ∷ []) ∷ (0x44 ∷ 1 ∷ []) ∷ (0x26 ∷ 1 ∷ 0xaf ∷ []) ∷ []

units-HasHeader : All HasHeader units
unfolding starts_code starts_short starts_long
units-HasHeader = (
  ((omega arith, (refl, (refl, (refl, tt)))), omega arith),
  (
    ((omega arith, (refl, (refl, tt))), omega arith),
    (
      ((omega arith, (refl, (refl, tt))), omega arith),
      (((omega arith, (refl, (refl, (refl, tt)))), omega arith), tt),
    ),
  ),
)

units_converted :
    codec_config parse
      (λ _. some_rbsp)
      mux
      (convert_frame parse cropped_width cropped_height Adapter.new (annex_b units)).0
    ≡ some ((3 ∷ 0x40 ∷ 1 ∷ 12 ∷ 0x42 ∷ 1 ∷ 0x44 ∷ 1 ∷ []) ∷ [])
unfolding codec_config build_hvcc hevc_config convert_frame Adapter.new annex_b scan_frame
    scan_units to_next_code starts_code starts_short starts_long update_codec_info nalu_to_avcc
    is_stored bytes_eq shorter_wf
units_converted = refl

convert_frame-IsH265Converted_example :
    IsH265Converted Adapter.new units
      (convert_frame parse cropped_width cropped_height Adapter.new (annex_b units))
convert_frame-IsH265Converted_example =
    convert_frame-IsH265Converted parse cropped_width cropped_height Adapter.new units
      units-HasHeader

-- A fragmentation unit: two bytes of payload header, the byte with the flags and the type, a piece.
abbrev depacketize : H265Payload → Bytes → H265Payload × Outcome ℕ (Unit {0})
depacketize d (high ∷ low ∷ fu ∷ piece) =
    (fragmentation (high * 256 + low) (fu / 128 == 1) (bit_and fu 0x3f) piece, ok tt)
depacketize d _ = (d, err 0)

abbrev found : H265Payload → H265Payload
found d = d

abbrev packet : Bool → Bytes → Packet
packet marker payload = record {
  payload = payload;
  marker = marker;
  sequence_number = 0;
  timestamp = 0;
}

abbrev fresh : H265RtpParser H265Payload
fresh = record { depacketizer = paci; buffer = []; keyframe = false }

abbrev first : Packet
first = packet false (0x62 ∷ 1 ∷ 0x93 ∷ 7 ∷ [])

abbrev others : List Packet
others = packet false (0x62 ∷ 1 ∷ 0x13 ∷ 8 ∷ []) ∷ packet true (0x62 ∷ 1 ∷ 0x53 ∷ 9 ∷ []) ∷ []

fragments_joined :
    (push_all (push_packet depacketize found) (Rtp.new paci) (first ∷ others)).1
    ≡ (0 ∷ 0 ∷ 0 ∷ 1 ∷ 0x26 ∷ 1 ∷ 7 ∷ 8 ∷ 9 ∷ [], true) ∷ []
unfolding push_all push_packet Rtp.new
fragments_joined = refl

-- What the depacketizer finds in a packet of type 19.
abbrev unit_19 : Bool → Bytes → H265Payload
unit_19 starts piece = fragmentation 0x6201 starts 19 piece

first-IsFragment :
    IsFragment depacketize found paci (unit_19 true (7 ∷ [])) first 0x6201 true 19 (7 ∷ [])
first-IsFragment = record {
  not_empty = (0x62, 1 ∷ 0x93 ∷ 7 ∷ [], refl);
  answers = refl;
  finds = refl;
}

others-Continues :
    Continues depacketize found (unit_19 true (7 ∷ [])) others ((8 ∷ []) ∷ (9 ∷ []) ∷ [])
others-Continues =
    next_piece {d' = unit_19 false (8 ∷ [])} {header = 0x6201} {fu_type = 19}
      (record { not_empty = (0x62, 1 ∷ 0x13 ∷ 8 ∷ [], refl); answers = refl; finds = refl }) refl
      (last_piece {d' = unit_19 false (9 ∷ [])} {header = 0x6201} {fu_type = 19}
        (record { not_empty = (0x62, 1 ∷ 0x53 ∷ 9 ∷ [], refl); answers = refl; finds = refl }) refl)

push_all-Continues_example :
    IsFrameOut depacketize found
      ([]
        ++ (long_code
            ++ (be_u16 (reconstructed 0x6201 19)
                ++ ((7 ∷ []) ++ flatten ((8 ∷ []) ∷ (9 ∷ []) ∷ [])))))
      (false || is_random_access 19)
      (push_all (push_packet depacketize found) fresh (first ∷ others))
push_all-Continues_example =
    push_all-Continues depacketize found fresh first (unit_19 true (7 ∷ [])) 0x6201 19 (7 ∷ [])
      others ((8 ∷ []) ∷ (9 ∷ []) ∷ []) first-IsFragment refl others-Continues
