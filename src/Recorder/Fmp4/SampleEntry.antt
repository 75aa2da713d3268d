-- ===== src/Recorder/Fmp4/SampleEntry.antt =====
-- fmp4.rs: the sample entries of `Fmp4Writer`, one for each kind of codec.
pub mod Depth
use live.Prelude.{
  ℕ, zero, suc, ◌+◌, Bool, true, false, Bytes, List, [], ◌∷◌, ◌++◌, Option, none, some, length,
  take, codes, get_elem?, ltb, leb, ◌==◌, ◌!=◌, if◌then◌else◌, bytes_eq, bit_and, bit_or, ◌<<<◌, u8,
  u16, u32, min, flatten, to_ascii_lowercase, split_on, parse_unsigned,
}
use live.Recorder.AnnexB.{be_u32}
use live.Recorder.Fmp4.Boxes.{be_u16, zeroes, make_box}
use live.Recorder.Fmp4.Tables.{build_avcc}
use live.Recorder.Fmp4.Writer.{Fmp4Writer}

-- The 78 bytes before the configuration box of a video sample entry.
unfoldable pub visual_header : Fmp4Writer → Bytes
visual_header w =
    zeroes 6
    ++ (be_u16 1
        ++ (be_u16 0
            ++ (be_u16 0
                ++ (be_u32 0
                    ++ (be_u32 0
                        ++ (be_u32 0
                            ++ (be_u16 (u16 w.width)
                                ++ (be_u16 (u16 w.height)
                                    ++ (be_u32 0x0048_0000
                                        ++ (be_u32 0x0048_0000
                                            ++ (be_u32 0
                                                ++ (be_u16 1
                                                    ++ (zeroes 32
                                                        ++ (be_u16 0x0018
                                                            ++ be_u16 0xFFFF))))))))))))))

-- `codec_config.first()`, or nothing.
unfoldable pub first_blob : List Bytes → Bytes
first_blob [] = []
first_blob (blob ∷ _) = blob

unfoldable pub build_avc1_sample_entry : Fmp4Writer → Bytes
build_avc1_sample_entry w = make_box (codes "avc1") (visual_header w ++ build_avcc w.codec_config)

unfoldable pub build_hev1_sample_entry : Fmp4Writer → Bytes
build_hev1_sample_entry w =
    make_box (codes "hev1") (visual_header w ++ make_box (codes "hvcC") (first_blob w.codec_config))

unfoldable pub build_av01_sample_entry : Fmp4Writer → Bytes
build_av01_sample_entry w =
    make_box (codes "av01") (visual_header w ++ make_box (codes "av1C") (first_blob w.codec_config))

-- The variables of `build_vpcc`.
pub record VpCodec : Type 0 where
  pub profile : ℕ
  pub level : ℕ
  pub bit_depth : ℕ
  pub chroma_sampling : ℕ
  pub full_range : ℕ
  pub colour_primaries : ℕ
  pub transfer_characteristics : ℕ
  pub matrix_coefficients : ℕ

-- `parts.get(i).and_then(parse_component)`.
component : List Bytes → ℕ → Option ℕ
component parts i = elim (get_elem? parts i) [ none ↦ none | some s ↦ parse_unsigned 255 s ]

or_default : ℕ → Option ℕ → ℕ
or_default d none = d
or_default d (some v) = v

clamp : ℕ → ℕ → ℕ → ℕ
clamp lo hi v = if ltb v lo then lo else if ltb hi v then hi else v

depth_of : Option ℕ → ℕ
depth_of none = 8
depth_of (some v) = clamp 1 15 v

chroma_of : Option ℕ → ℕ
chroma_of none = 1
chroma_of (some v) = if leb v 4 then v else 1

range_of : Option ℕ → ℕ
range_of none = 0
range_of (some v) = if v != 0 then 1 else 0

unfoldable pub parse_codec : (is_vp9 : Bool) → (codec_string : Bytes) → VpCodec
unfolding component or_default clamp depth_of chroma_of range_of
parse_codec is_vp9 codec_string =
    let parts = split_on b'.' (to_ascii_lowercase codec_string) in
    record {
      profile = or_default 0 (component parts 1);
      level = or_default (if is_vp9 then 10 else 0) (component parts 2);
      bit_depth = depth_of (component parts 3);
      chroma_sampling = chroma_of (component parts 4);
      colour_primaries = or_default 2 (component parts 5);
      transfer_characteristics = or_default 2 (component parts 6);
      matrix_coefficients = or_default 2 (component parts 7);
      full_range = range_of (component parts 8);
    }

unfoldable pub pack : VpCodec → ℕ
pack c =
    let chroma_field = bit_and c.chroma_sampling 0x07 in
    bit_or (bit_or (bit_and c.bit_depth 0x0F <<< 3) (bit_and chroma_field 0x07 <<< 1))
      (bit_and c.full_range 0x01)

-- The payload for a codec, `init_bytes` its initialization data.
unfoldable pub vpcc_record : VpCodec → Bytes → Bytes
vpcc_record c init_bytes =
    let init_len = min (length init_bytes) 0xFFFF in
    (1
      ∷ 0
      ∷ 0
      ∷ 0
      ∷ c.profile
      ∷ c.level
      ∷ pack c
      ∷ c.colour_primaries
      ∷ c.transfer_characteristics
      ∷ c.matrix_coefficients
      ∷ [])
    ++ (be_u16 init_len ++ take init_len init_bytes)

unfoldable pub build_vpcc : Fmp4Writer → (is_vp9 : Bool) → Bytes
build_vpcc w is_vp9 =
    make_box (codes "vpcC")
      (vpcc_record (parse_codec is_vp9 w.codec_string) (flatten w.codec_config))

unfoldable pub build_vpx_visual_sample_entry : Fmp4Writer → (fourcc : Bytes) → Bytes
build_vpx_visual_sample_entry w fourcc =
    make_box fourcc (visual_header w ++ build_vpcc w (bytes_eq fourcc (codes "vp09")))

unfoldable pub build_vp09_sample_entry : Fmp4Writer → Bytes
build_vp09_sample_entry w = build_vpx_visual_sample_entry w (codes "vp09")

unfoldable pub build_vp08_sample_entry : Fmp4Writer → Bytes
build_vp08_sample_entry w = build_vpx_visual_sample_entry w (codes "vp08")

-- The 28 bytes before the configuration box of an Opus sample entry.
unfoldable pub audio_header : Fmp4Writer → Bytes
audio_header w =
    zeroes 6
    ++ (be_u16 1
        ++ (be_u32 0
            ++ (be_u32 0
                ++ (be_u16 w.channels
                    ++ (be_u16 16
                        ++ (be_u16 0 ++ (be_u16 0 ++ be_u32 (u32 (w.sample_rate <<< 16)))))))))

unfoldable pub dops_record : Fmp4Writer → Bytes
dops_record w =
    (0 ∷ u8 w.channels ∷ []) ++ (be_u16 0 ++ (be_u32 w.sample_rate ++ (be_u16 0 ++ (0 ∷ []))))

unfoldable pub build_opus_sample_entry : Fmp4Writer → Bytes
build_opus_sample_entry w =
    make_box (codes "Opus") (audio_header w ++ make_box (codes "dOps") (dops_record w))
