-- ===== src/Recorder/Vp9/Adapter.antt =====
-- vp9.rs, `Vp9Adapter`: a frame is passed on as it is, and its header is read for the codec string.
pub mod Laws
use live.Prelude.{
  ℕ, Bool, true, false, ◌&&◌, ◌||◌, not, Bytes, List, [], ◌∷◌, ◌++◌, ltb, ◌==◌, ◌!=◌, if◌then◌else◌,
  Option, none, some, codes, decimal_02, ok, err, panic,
}
use live.Recorder.Codec.{Converted}
use live.Recorder.Vp9.BitReader.{Result}
use live.Recorder.Vp9.Header
use live.Recorder.Vp9.Header.{
  Vp9FrameHeader, Vp9FrameSize, Vp9ColorConfig, frame_width, frame_height, is_keyframe,
  chroma_sampling,
}

pub record Vp9Adapter : Type 0 where
  pub width : ℕ
  pub height : ℕ
  pub profile : ℕ
  pub bit_depth : ℕ
  pub chroma_subsampling : ℕ
  pub color_range : Bool
  pub colour_primaries : ℕ
  pub transfer_characteristics : ℕ
  pub matrix_coefficients : ℕ

unfoldable pub new : Vp9Adapter
new = record {
  width = 0;
  height = 0;
  profile = 0;
  bit_depth = 8;
  chroma_subsampling = 1;
  color_range = false;
  colour_primaries = 2;
  transfer_characteristics = 2;
  matrix_coefficients = 2;
}

abbrev pub ready : Vp9Adapter → Bool
ready a = ltb 0 a.width && ltb 0 a.height

-- Two flags are the same, the `==` of `bool`.
same_flag : Bool → Bool → Bool
same_flag a b = if a then b else not b

-- Each of the blocks of `apply_header`: the adapter, and whether it was updated.
set_profile : ℕ → Vp9Adapter × Bool → Vp9Adapter × Bool
set_profile profile (a, updated) =
    if a.profile != profile then (record a { profile = profile }, true) else (a, updated)

set_bit_depth : ℕ → Vp9Adapter × Bool → Vp9Adapter × Bool
set_bit_depth depth (a, updated) =
    if a.bit_depth != depth then (record a { bit_depth = depth }, true) else (a, updated)

set_chroma : ℕ → Vp9Adapter × Bool → Vp9Adapter × Bool
set_chroma chroma (a, updated) =
    if a.chroma_subsampling != chroma
    then (record a { chroma_subsampling = chroma }, true)
    else (a, updated)

set_range : Bool → Vp9Adapter × Bool → Vp9Adapter × Bool
set_range range (a, updated) =
    if same_flag a.color_range range then (a, updated) else (record a { color_range = range }, true)

set_color : Option Vp9ColorConfig → Vp9Adapter × Bool → Vp9Adapter × Bool
set_color none r = r
set_color (some color) r =
    set_range color.color_range
      (set_chroma (chroma_sampling color) (set_bit_depth color.bit_depth r))

unfoldable pub apply_header : Vp9FrameHeader → Vp9Adapter → Vp9Adapter × Bool
unfolding same_flag set_profile set_bit_depth set_chroma set_range set_color
apply_header header a = set_color header.color_config (set_profile header.profile (a, false))

unfoldable pub update_dimensions : ℕ → ℕ → Vp9Adapter → Vp9Adapter × Bool
update_dimensions width height a =
    let resized = record a { width = width; height = height } in
    let dims_changed = a.width != width || a.height != height in
    if width == 0 || height == 0
    then (a, false)
    else (resized, (not (ready a) && ready resized) || (ready a && dims_changed))

-- The part under `if let Some(size)`.
set_size : Option Vp9FrameSize → Vp9Adapter → Vp9Adapter × Bool
set_size none a = (a, false)
set_size (some size) a = update_dimensions (frame_width size) (frame_height size) a

unfoldable pub convert_header : Vp9FrameHeader → Bytes → Vp9Adapter → Vp9Adapter × Converted
unfolding set_size
convert_header header frame a =
    let (described, metadata_updated) = apply_header header a in
    let (sized, cfg_updated) = set_size header.frame_size described in
    (
      sized,
      record {
        payload = frame;
        is_sync = is_keyframe header;
        config_ready = cfg_updated || metadata_updated;
      },
    )

unfoldable pub convert_frame : Vp9Adapter → Bytes → Result (Vp9Adapter × Converted)
convert_frame a frame = elim (Header.parse frame) [
  | ok header ↦ ok (convert_header header frame a)
  | err _ ↦ ok (a, record { payload = frame; is_sync = false; config_ready = false })
  | panic ↦ panic
]

dot : Bytes
dot = codes "."

-- Level 1 is written as 10.
unfoldable pub codec_string : Vp9Adapter → Bytes
unfolding dot
codec_string a =
    codes "vp09."
    ++ decimal_02 a.profile
    ++ dot
    ++ decimal_02 10
    ++ dot
    ++ decimal_02 a.bit_depth
    ++ dot
    ++ decimal_02 a.chroma_subsampling
    ++ dot
    ++ decimal_02 a.colour_primaries
    ++ dot
    ++ decimal_02 a.transfer_characteristics
    ++ dot
    ++ decimal_02 a.matrix_coefficients
    ++ dot
    ++ decimal_02 (if a.color_range then 1 else 0)
