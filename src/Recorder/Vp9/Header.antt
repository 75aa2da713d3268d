-- ===== src/Recorder/Vp9/Header.antt =====
-- vp9.rs, `Vp9FrameHeader`, `Vp9ColorConfig` and `Vp9FrameSize`.
pub mod Bounds
use live.Prelude.{
  ℕ, ◌+◌, Bool, true, false, ◌&&◌, ◌||◌, not, Bytes, leb, ◌==◌, ◌!=◌, if◌then◌else◌, Option, none,
  some, u8, u16, bit_or, ◌<<<◌, ok, err, panic, Outcome,
}
use live.Recorder.Reader
use live.Recorder.Reader.{BitReader, ◌>>=◌, ◌>>◌, return, fail}
use live.Recorder.Vp9.BitReader.{Read, Result, missing, ensure, read_bits, read_flag, skip_bits}

pub record Vp9FrameSize : Type 0 where
  pub frame_width_minus_one : ℕ
  pub frame_height_minus_one : ℕ

-- A `u32` holds the sum of a `u16` and one.
abbrev pub frame_width : Vp9FrameSize → ℕ
frame_width size = size.frame_width_minus_one + 1

abbrev pub frame_height : Vp9FrameSize → ℕ
frame_height size = size.frame_height_minus_one + 1

pub record Vp9ColorConfig : Type 0 where
  pub ten_or_twelve_bit : Bool
  pub bit_depth : ℕ
  pub color_space : ℕ
  pub color_range : Bool
  pub subsampling_x : Bool
  pub subsampling_y : Bool

pub record Vp9FrameHeader : Type 0 where
  pub profile : ℕ
  pub show_existing_frame : Bool
  pub frame_to_show_map_idx : Option ℕ
  pub non_key_frame : Bool
  pub show_frame : Bool
  pub error_resilient_mode : Bool
  pub color_config : Option Vp9ColorConfig
  pub frame_size : Option Vp9FrameSize

abbrev pub is_keyframe : Vp9FrameHeader → Bool
is_keyframe header = not header.show_existing_frame && not header.non_key_frame

unfoldable pub chroma_sampling : Vp9ColorConfig → ℕ
chroma_sampling color =
    if color.subsampling_x
    then (if color.subsampling_y then 1 else 2)
    else (if color.subsampling_y then 1 else 3)

-- `ten_or_twelve_bit` and the bit depth.
read_depth : ℕ → Read (Bool × ℕ)
read_depth profile =
    if leb 2 profile
    then (do
      ten_or_twelve_bit ← read_flag
      return (ten_or_twelve_bit, if ten_or_twelve_bit then 12 else 10))
    else return (false, 8)

-- The colour range and the two subsampling flags.
pub record Sampling : Type 0 where
  pub range : Bool
  pub x : Bool
  pub y : Bool

abbrev pub has_sampling : ℕ → Bool
has_sampling profile = profile == 1 || profile == 3

read_sampling : ℕ → ℕ → Read Sampling
read_sampling profile color_space =
    if color_space != 7
    then (do
      cr ← read_flag
      if has_sampling profile
          then (do
            x ← read_flag
            y ← read_flag
            skip_bits 1
            return (record { range = cr; x = x; y = y }))
          else return (record { range = cr; x = true; y = true }))
    else if has_sampling profile
    then (do skip_bits 1; return (record { range = true; x = false; y = false }))
    else return (record { range = true; x = true; y = true })

unfoldable pub parse_color_config : ℕ → Read Vp9ColorConfig
unfolding read_depth read_sampling
parse_color_config profile = do
  depth ← read_depth profile
  color_space ← read_bits 3
  sampling ← read_sampling profile (u8 color_space)
  return (record {
    ten_or_twelve_bit = depth.0;
    bit_depth = depth.1;
    color_space = u8 color_space;
    color_range = sampling.range;
    subsampling_x = sampling.x;
    subsampling_y = sampling.y;
  })

unfoldable pub parse_frame_size : Read Vp9FrameSize
parse_frame_size = do
  ensure 32
  width ← read_bits 16
  height ← read_bits 16
  return (record { frame_width_minus_one = u16 width; frame_height_minus_one = u16 height })

skip_reserved : ℕ → Read (Unit {0})
skip_reserved profile = if profile == 3 then (do ensure 1; skip_bits 1) else return tt

-- The rest of a header that shows a frame decoded before.
shown_existing : ℕ → Read Vp9FrameHeader
shown_existing profile = do
  idx ← read_bits 3
  return (record {
    profile = profile;
    show_existing_frame = true;
    frame_to_show_map_idx = some (u8 idx);
    non_key_frame = true;
    show_frame = true;
    error_resilient_mode = false;
    color_config = none;
    frame_size = none;
  })

-- The part under `if !non_key_frame`: the sync code, the colour configuration, the frame size.
key_parts : ℕ → Bool → Read (Option Vp9ColorConfig × Option Vp9FrameSize)
key_parts profile non_key_frame =
    if not non_key_frame
    then (do
      ensure 24
      sync0 ← read_bits 8
      sync1 ← read_bits 8
      sync2 ← read_bits 8
      if u8 sync0 != 0x49 || u8 sync1 != 0x83 || u8 sync2 != 0x42 then fail missing else (do
        color ← parse_color_config profile
        size ← parse_frame_size
        return (some color, some size)))
    else return (none, none)

decoded_frame : ℕ → Read Vp9FrameHeader
decoded_frame profile = do
  ensure 3
  non_key_frame ← read_flag
  show_frame ← read_flag
  error_resilient_mode ← read_flag
  parts ← key_parts profile non_key_frame
  return (record {
    profile = profile;
    show_existing_frame = false;
    frame_to_show_map_idx = none;
    non_key_frame = non_key_frame;
    show_frame = show_frame;
    error_resilient_mode = error_resilient_mode;
    color_config = parts.0;
    frame_size = parts.1;
  })

read_header : Read Vp9FrameHeader
read_header = do
  ensure 4
  frame_marker ← read_bits 2
  if frame_marker != 2 then fail missing else (do
    profile_low_bit ← read_bits 1
    profile_high_bit ← read_bits 1
    let profile = bit_or (u8 (u8 profile_high_bit <<< 1)) (u8 profile_low_bit)
    skip_reserved profile
    show_existing_frame ← read_flag
    if show_existing_frame then shown_existing profile else decoded_frame profile)

forget_reader : Result (Vp9FrameHeader × BitReader) → Result Vp9FrameHeader
forget_reader (ok (header, br)) = ok header
forget_reader (err e) = err e
forget_reader panic = panic

-- `None` is `err missing`.
unfoldable pub parse : Bytes → Result Vp9FrameHeader
unfolding skip_reserved shown_existing key_parts decoded_frame read_header forget_reader
parse bytes = forget_reader (read_header (Reader.new bytes))
