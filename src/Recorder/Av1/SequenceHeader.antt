-- ===== src/Recorder/Av1/SequenceHeader.antt =====
-- av1.rs, `SequenceHeader` and `SequenceHeader::parse`. A flag that the source
-- binds to a name with an underscore is read and dropped.
pub mod Bounds
use live.Prelude.{
  ℕ, zero, suc, ◌+◌, ◌≡◌, refl, Bool, true, false, ◌&&◌, not, Bytes, List, [], ◌∷◌, ◌++◌, ltb, ◌==◌,
  ◌!=◌, if◌then◌else◌, bit_and, ◌>>>◌, u8, u32, Outcome, ok, err, panic,
}
use live.Recorder.Av1.Error.{
  Result, empty_obu, not_a_sequence_header, decoder_model_unsupported, display_delay_unsupported,
}
use live.Recorder.Reader
use live.Recorder.Reader.{BitReader, ◌>>=◌, ◌>>◌, return, fail}
use live.Recorder.Av1.BitReader.{Read, read_bits, read_flag, skip_bits}
use live.Recorder.Av1.ColorConfig.{ColorConfig, parse_color_config}

pub record SequenceHeader : Type 0 where
  pub seq_profile : ℕ
  pub seq_level_idx : List ℕ
  pub seq_tier : List Bool
  pub max_frame_width_minus1 : ℕ
  pub max_frame_height_minus1 : ℕ
  pub color_config : ColorConfig

abbrev pub obu_type_sequence_header : ℕ
obu_type_sequence_header = 1

abbrev pub obu_type : ℕ → ℕ
obu_type header = bit_and (header >>> 3) 0x0f

-- The timing information; a decoder model is refused.
parse_timing : Read (Unit {0})
parse_timing = do
  timing_info_present ← read_flag
  if timing_info_present
      then (do
        skip_bits 32
        skip_bits 32
        decoder_model_info_present ← read_flag
        if decoder_model_info_present then fail decoder_model_unsupported else return tt)
      else return tt

parse_display_delay : Bool → Read (Unit {0})
parse_display_delay initial_display_delay_present =
    if initial_display_delay_present
    then (do
      present ← read_flag
      if present then (do _ ← read_bits 4; fail display_delay_unsupported) else return tt)
    else return tt

pub record Points : Type 0 where
  pub levels : List ℕ
  pub tiers : List Bool

-- The loop over the operating points, with `count` of them left.
parse_points : ℕ → Bool → Points → Read Points
parse_points zero delay points = return points
parse_points (suc count) delay points = do
  skip_bits 12
  level ← read_bits 5
  tier ← if ltb 7 (u8 level) then read_flag else return false
  let points' = record points {
    levels = points.levels ++ (u8 level ∷ []);
    tiers = points.tiers ++ (tier ∷ []);
  }
  parse_display_delay delay
  parse_points count delay points'

parse_levels : Bool → Read Points
parse_levels reduced =
    if reduced
    then (do level ← read_bits 5; return (record { levels = u8 level ∷ []; tiers = false ∷ [] }))
    else (do
      parse_timing
      delay ← read_flag
      operating_points_cnt_minus1 ← read_bits 5
      parse_points (u8 operating_points_cnt_minus1 + 1) delay (record { levels = []; tiers = [] }))

parse_frame_ids : Bool → Read (Unit {0})
parse_frame_ids reduced = do
  present ← if reduced then return false else read_flag
  if present then (do _ ← read_bits 4; _ ← read_bits 3; return tt) else return tt

parse_screen_content : Read (Unit {0})
parse_screen_content = do
  choose ← read_flag
  force ← if choose then return 2 else read_bits 1
  if ltb 0 (u8 force)
      then (do
        choose_integer_mv ← read_flag
        if choose_integer_mv then return tt else (do _ ← read_bits 1; return tt))
      else return tt

parse_tools : Bool → Read (Unit {0})
parse_tools reduced = if reduced then return tt else (do
  _ ← read_flag
  _ ← read_flag
  _ ← read_flag
  _ ← read_flag
  enable_order_hint ← read_flag
  _ ← if enable_order_hint then (do _ ← read_flag; read_flag) else return false
  parse_screen_content
  if enable_order_hint then (do _ ← read_bits 3; return tt) else return tt)

parse_payload : Read SequenceHeader
parse_payload = do
  seq_profile ← read_bits 3
  _ ← read_flag
  reduced ← read_flag
  points ← parse_levels reduced
  width_bits_minus1 ← read_bits 4
  height_bits_minus1 ← read_bits 4
  width_minus1 ← read_bits (width_bits_minus1 + 1)
  height_minus1 ← read_bits (height_bits_minus1 + 1)
  parse_frame_ids reduced
  _ ← read_flag
  _ ← read_flag
  _ ← read_flag
  parse_tools reduced
  _ ← read_flag
  _ ← read_flag
  _ ← read_flag
  color_config ← parse_color_config (u8 seq_profile)
  _ ← read_flag
  return (record {
    seq_profile = u8 seq_profile;
    seq_level_idx = points.levels;
    seq_tier = points.tiers;
    max_frame_width_minus1 = u32 width_minus1;
    max_frame_height_minus1 = u32 height_minus1;
    color_config = color_config;
  })

forget_reader : Result (SequenceHeader × BitReader) → Result SequenceHeader
forget_reader (ok (info, br)) = ok info
forget_reader (err e) = err e
forget_reader panic = panic

unfoldable pub parse : Bytes → Result SequenceHeader
unfolding parse_timing parse_display_delay parse_points parse_levels parse_frame_ids
    parse_screen_content parse_tools parse_payload forget_reader
parse [] = err empty_obu
parse (header ∷ payload) =
    if obu_type header != obu_type_sequence_header
    then err not_a_sequence_header
    else forget_reader (parse_payload (Reader.new payload))

abbrev pub hd_header : Bytes
hd_header =
    0x08 ∷ 0 ∷ 0 ∷ 0 ∷ 0x4a ∷ 0xab ∷ 0xbf ∷ 0xc3 ∷ 0x77 ∷ 0x6b ∷ 0xe4 ∷ 0x40 ∷ 0x40 ∷ 0x40 ∷ 0x41
    ∷ []
