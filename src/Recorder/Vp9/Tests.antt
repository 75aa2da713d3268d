-- ===== src/Recorder/Vp9/Tests.antt =====
-- The VP9 reader, header and adapter at concrete inputs.
use live.Prelude.{
  ◌≡◌, refl, true, false, Bytes, [], ◌∷◌, arith, codes, decimal_02, none, some, ok, Returns, lt_wf,
}
use live.Recorder.Reader
use live.Recorder.Reader.{BitReader, ◌>>=◌, ◌>>◌, return, fail}
use live.Recorder.Reader.Reads.{IsReader}
use live.Recorder.Vp9.BitReader.{read_bits, read_flag, ensure, skip_bits}
use live.Recorder.Vp9.Header
use live.Recorder.Vp9.Header.{Vp9FrameHeader, parse_color_config, parse_frame_size, chroma_sampling}
use live.Recorder.Vp9.Header.Bounds.{IsHeader, parse-IsVp9Header}
use live.Recorder.Vp9.Adapter
use live.Recorder.Vp9.Adapter.{convert_frame, codec_string}
use live.Recorder.Vp9.Adapter.Laws.{IsVp9Frame, convert_frame-IsVp9Frame}

abbrev two_bytes : BitReader
two_bytes = record { data_bytes = 0xab ∷ 0xcd ∷ []; bit_len = 16; bit_pos = 3 }

two_bytes-IsReader : IsReader two_bytes
two_bytes-IsReader = omega arith

-- A key frame of profile 0, 640 by 480, in BT.601 with the studio range.
abbrev key_frame : Bytes
key_frame = 0x82 ∷ 0x49 ∷ 0x83 ∷ 0x42 ∷ 0x20 ∷ 0x27 ∷ 0xf0 ∷ 0x1d ∷ 0xf0 ∷ []

abbrev key_header : Vp9FrameHeader
key_header = record {
  profile = 0;
  show_existing_frame = false;
  frame_to_show_map_idx = none;
  non_key_frame = false;
  show_frame = true;
  error_resilient_mode = false;
  color_config = some (record {
    ten_or_twelve_bit = false;
    bit_depth = 8;
    color_space = 1;
    color_range = false;
    subsampling_x = true;
    subsampling_y = true;
  });
  frame_size = some (record { frame_width_minus_one = 639; frame_height_minus_one = 479 });
}

key_parsed : Header.parse key_frame ≡ ok key_header
unfolding Header.parse parse_color_config parse_frame_size read_bits read_flag ensure skip_bits
    return fail ◌>>=◌ ◌>>◌ Reader.new lt_wf
key_parsed = refl

parse-IsVp9Header_example : Returns IsHeader (Header.parse key_frame)
parse-IsVp9Header_example = parse-IsVp9Header key_frame

new_string : codec_string Adapter.new ≡ codes "vp09.00.10.08.01.02.02.02.00"
unfolding codec_string Adapter.new decimal_02
new_string = refl

convert_frame-IsVp9Frame_example :
    IsVp9Frame key_frame Adapter.new (convert_frame Adapter.new key_frame)
convert_frame-IsVp9Frame_example = convert_frame-IsVp9Frame Adapter.new key_frame
