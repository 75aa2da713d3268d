-- ===== src/Recorder/Av1/ColorConfig.antt =====
-- av1.rs, `ColorConfig` and `ColorConfig::parse`.
pub mod Bounds
use live.Prelude.{
  ℕ, zero, suc, ◌+◌, ◌≡◌, refl, Bool, true, false, ◌&&◌, not, Bytes, List, [], ◌∷◌, ◌++◌, ltb, ◌==◌,
  ◌!=◌, if◌then◌else◌, bit_and, ◌>>>◌, u8, u32, Outcome, ok, err, panic,
}
use live.Recorder.Reader.{BitReader, ◌>>=◌, ◌>>◌, return, fail}
use live.Recorder.Av1.BitReader.{Read, read_bits, read_flag, skip_bits}

pub record ColorConfig : Type 0 where
  pub high_bit_depth : Bool
  pub twelve_bit : Bool
  pub bit_depth : ℕ
  pub mono_chrome : Bool
  pub color_primaries : ℕ
  pub transfer_characteristics : ℕ
  pub matrix_coefficients : ℕ
  pub color_range : Bool
  pub subsampling_x : Bool
  pub subsampling_y : Bool
  pub chroma_sample_position : ℕ

-- The parts of `ColorConfig::parse`, in the source's order. First `twelve_bit` and `bit_depth`.
parse_bit_depth : ℕ → Bool → Read (Bool × ℕ)
parse_bit_depth seq_profile high_bit_depth =
    if seq_profile == 2 && high_bit_depth
    then (do twelve_bit ← read_flag; return (twelve_bit, if twelve_bit then 12 else 10))
    else return (false, if high_bit_depth then 10 else 8)

parse_mono_chrome : ℕ → Read Bool
parse_mono_chrome seq_profile = if seq_profile == 1 then return false else read_flag

pub record Description : Type 0 where
  pub primaries : ℕ
  pub transfer : ℕ
  pub matrix : ℕ

parse_description : Bool → Read Description
parse_description present =
    if present
    then (do
      primaries ← read_bits 8
      transfer ← read_bits 8
      matrix ← read_bits 8
      return (record { primaries = u8 primaries; transfer = u8 transfer; matrix = u8 matrix }))
    else return (record { primaries = 2; transfer = 2; matrix = 2 })

pub record Sampling : Type 0 where
  pub range : Bool
  pub x : Bool
  pub y : Bool
  pub position : ℕ

-- `match seq_profile { 0 => …, 1 => …, _ => … }`, as the pair of the two subsamplings.
parse_subsampling : ℕ → ℕ → Read (Bool × Bool)
parse_subsampling seq_profile bit_depth =
    if seq_profile == 0
    then return (true, true)
    else if seq_profile == 1
    then return (false, false)
    else if bit_depth == 12
    then (do
      x ← read_flag
      if x then (do y ← read_flag; return (true, y)) else return (false, false))
    else return (true, false)

parse_position : Bool → Bool → Read ℕ
parse_position x y = if x && y then (do v ← read_bits 2; return (u8 v)) else return 0

is_srgb : Bool → Description → Bool
is_srgb present d = present && (d.primaries == 1 && (d.transfer == 13 && d.matrix == 0))

parse_sampling : ℕ → ℕ → Bool → Bool → Description → Read Sampling
parse_sampling seq_profile bit_depth mono_chrome present d =
    if mono_chrome
    then (do range ← read_flag; return (record { range = range; x = true; y = true; position = 0 }))
    else if is_srgb present d
    then return (record { range = true; x = false; y = false; position = 0 })
    else (do
      range ← read_flag
      xy ← parse_subsampling seq_profile bit_depth
      position ← parse_position xy.0 xy.1
      return (record { range = range; x = xy.0; y = xy.1; position = position }))

unfoldable pub parse_color_config : ℕ → Read ColorConfig
unfolding parse_bit_depth parse_mono_chrome parse_description parse_subsampling parse_position
    is_srgb parse_sampling
parse_color_config seq_profile = do
  high_bit_depth ← read_flag
  depth ← parse_bit_depth seq_profile high_bit_depth
  mono_chrome ← parse_mono_chrome seq_profile
  present ← read_flag
  d ← parse_description present
  sampling ← parse_sampling seq_profile depth.1 mono_chrome present d
  return (record {
    high_bit_depth = high_bit_depth;
    twelve_bit = depth.0;
    bit_depth = depth.1;
    mono_chrome = mono_chrome;
    color_primaries = d.primaries;
    transfer_characteristics = d.transfer;
    matrix_coefficients = d.matrix;
    color_range = sampling.range;
    subsampling_x = sampling.x;
    subsampling_y = sampling.y;
    chroma_sample_position = sampling.position;
  })
