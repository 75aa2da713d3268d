-- ===== src/Recorder/Av1/Tests.antt =====
-- av1.rs at concrete inputs, the vectors of its own tests among them.
use live.Prelude.{
  ◌≡◌, refl, true, false, Bytes, [], ◌∷◌, ◌++◌, arith, All, IsBytes, codes, ok, err, Returns, leb,
  if◌then◌else◌,
}
use live.Recorder.BitString.{field}
use live.Recorder.Av1.Error.{not_enough_bits}
use live.Recorder.Av1.Leb128.{read_leb128, write_leb128, leb128_size}
use live.Recorder.Av1.Leb128.RoundTrip.{read_leb128-write_leb128}
use live.Recorder.Av1.Obu.{pack_temporal_unit, parse_temporal_unit, marshal_bitstream, sample_unit}
use live.Recorder.Av1.Obu.RoundTrip.{IsObu, parse-pack}
use live.Recorder.Av1.Obu.Parsed.{parse-IsObu, parse-marshal-parse}
use live.Recorder.Reader
use live.Recorder.Reader.{BitReader, return}
use live.Recorder.Av1.BitReader.{read_bits, read_flag, ensure, skip_bits}
use live.Recorder.Reader.{◌>>=◌, ◌>>◌, fail}
use live.Recorder.Reader.Reads.{IsReader, Reads, advance}
use live.Recorder.Av1.BitReader.Reads.{read_bits-field}
use live.Recorder.Av1.ColorConfig.{parse_color_config}
use live.Recorder.Av1.ColorConfig.Bounds.{IsColorConfig, parse_color_config-Reads}
use live.Recorder.Av1.SequenceHeader
use live.Recorder.Av1.SequenceHeader.{SequenceHeader, hd_header}
use live.Recorder.Av1.SequenceHeader.Bounds.{IsHeader, parse-IsHeader}
use live.Recorder.Av1.ConfigRecord.{build_codec_string, build_av1c_record}
use live.Recorder.Av1.ConfigRecord.Layout.{IsLaidOut, build_av1c_record-IsLaidOut}
use live.Recorder.Av1.Adapter
use live.Recorder.Av1.Adapter.{convert_frame}
use live.Recorder.Av1.Adapter.Laws.{IsConverted, new-IsAdapter, convert_frame-IsConverted}

-- `leb128_decoding_examples` of the source.
leb128_vectors :
    (read_leb128 (0x00 ∷ []) ≡ ok (0, 1))
    × (read_leb128 (0x80 ∷ 0x01 ∷ []) ≡ ok (128, 2))
    × (read_leb128 (0xff ∷ 0x01 ∷ []) ≡ ok (255, 2))
unfolding read_leb128
leb128_vectors = (refl, refl, refl)

read_leb128-write_leb128_example :
    read_leb128 (write_leb128 [] 300 ++ (9 ∷ [])) ≡ ok (300, leb128_size 300)
read_leb128-write_leb128_example = read_leb128-write_leb128 300 (9 ∷ []) (omega arith)

sample_unit-IsObu : All IsObu sample_unit
sample_unit-IsObu = ((omega arith, refl, omega arith), ((omega arith, refl, omega arith), tt))

abbrev sample_bytes : Bytes
sample_bytes = 0x0a ∷ 2 ∷ 7 ∷ 8 ∷ 0x32 ∷ 0 ∷ []

sample_bytes-IsBytes : IsBytes sample_bytes
sample_bytes-IsBytes = omega arith

sample_parsed : parse_temporal_unit sample_bytes ≡ ok sample_unit
unfolding parse_temporal_unit read_leb128
sample_parsed = refl

parse-pack_example : parse_temporal_unit (pack_temporal_unit sample_unit) ≡ ok sample_unit
parse-pack_example = parse-pack sample_unit sample_unit-IsObu

parse-IsObu_example : Returns (All IsObu) (parse_temporal_unit sample_bytes)
parse-IsObu_example = parse-IsObu sample_bytes sample_bytes-IsBytes

parse-marshal-parse_example :
    (out : Bytes) × (marshal_bitstream sample_unit ≡ ok out)
    × (parse_temporal_unit out ≡ ok sample_unit)
parse-marshal-parse_example =
    parse-marshal-parse sample_bytes sample_unit sample_bytes-IsBytes sample_parsed

abbrev two_bytes : BitReader
two_bytes = record { data_bytes = 0xab ∷ 0xcd ∷ []; bit_len = 16; bit_pos = 3 }

two_bytes-IsReader : IsReader two_bytes
two_bytes-IsReader = omega arith

read_bits-field_example : read_bits 12 two_bytes ≡ (
    if leb 15 16
    then ok (field (0xab ∷ 0xcd ∷ []) 3 12, advance 12 two_bytes)
    else err not_enough_bits)
read_bits-field_example = read_bits-field 12 two_bytes two_bytes-IsReader (omega arith)

parse_color_config-Reads_example : Reads (IsColorConfig 2) (parse_color_config 2)
parse_color_config-Reads_example = parse_color_config-Reads 2

parse-IsHeader_example : Returns IsHeader (SequenceHeader.parse hd_header)
parse-IsHeader_example = parse-IsHeader hd_header

-- The sequence header of the source's RTP tests: 1920 by 1080, profile 0, level 9, eight bits.
abbrev hd_info : SequenceHeader
hd_info = record {
  seq_profile = 0;
  seq_level_idx = 9 ∷ [];
  seq_tier = false ∷ [];
  max_frame_width_minus1 = 1919;
  max_frame_height_minus1 = 1079;
  color_config = record {
    high_bit_depth = false;
    twelve_bit = false;
    bit_depth = 8;
    mono_chrome = false;
    color_primaries = 1;
    transfer_characteristics = 1;
    matrix_coefficients = 1;
    color_range = false;
    subsampling_x = true;
    subsampling_y = true;
    chroma_sample_position = 0;
  };
}

hd_parsed : SequenceHeader.parse hd_header ≡ ok hd_info
unfolding SequenceHeader.parse parse_color_config read_bits read_flag ensure skip_bits return fail
    ◌>>=◌ ◌>>◌ Reader.new
hd_parsed = refl

hd_codec_string : build_codec_string hd_info ≡ codes "av01.0.M09.08.1.0.0"
unfolding build_codec_string
hd_codec_string = refl

build_av1c_record-IsLaidOut_example : IsLaidOut hd_info (build_av1c_record hd_info hd_header)
build_av1c_record-IsLaidOut_example =
    build_av1c_record-IsLaidOut hd_info hd_header (omega arith) (omega arith) (omega arith)

convert_frame-IsConverted_example :
    IsConverted sample_bytes (convert_frame Adapter.new sample_bytes)
convert_frame-IsConverted_example =
    convert_frame-IsConverted Adapter.new sample_bytes new-IsAdapter sample_bytes-IsBytes
