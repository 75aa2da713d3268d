-- ===== src/Recorder/H265/Adapter.antt =====
-- h265.rs, `H265Adapter`. The scuffle_h265 crate is a parameter: `parse` is `SpsNALUnit::parse` with
-- `I` for what it finds, `cropped_width`, `cropped_height` and `rbsp` are read off that, and `mux` is
-- `HEVCDecoderConfigurationRecord::mux`.
pub mod Conversion
use live.Prelude.{
  ℕ, zero, suc, ◌+◌, Bool, true, false, ◌&&◌, ◌||◌, not, Bytes, List, [], ◌∷◌, ◌++◌, ltb, leb, ◌==◌,
  if◌then◌else◌, Option, none, some, is_some, length, bytes_eq, bit_or, ◌<<<◌, u32, codes,
  get_elem?,
}
use live.Recorder.Codec.{Converted}
use live.Recorder.AnnexB.{starts_short, starts_long, nalu_to_avcc, scan_units}
use live.Recorder.H265.NalUnit.{nal_type, is_random_access}

pub record H265Adapter : Type 0 where
  pub vps : Option Bytes
  pub sps : Option Bytes
  pub pps : Option Bytes
  pub codec_string : Option Bytes
  pub width : ℕ
  pub height : ℕ

unfoldable pub new : H265Adapter
new = record { vps = none; sps = none; pps = none; codec_string = none; width = 0; height = 0 }

abbrev pub ready : H265Adapter → Bool
ready a = is_some a.vps && is_some a.sps && is_some a.pps

-- `target.as_deref() == Some(data)`.
unfoldable pub is_stored : Option Bytes → Bytes → Bool
is_stored none data_bytes = false
is_stored (some stored) data_bytes = bytes_eq stored data_bytes

-- The variables of the loop over the NAL units.
pub record Scan : Type 0 where
  pub adapter : H265Adapter
  pub avcc_payload : Bytes
  pub random_access : Bool
  pub cfg_updated : Bool

-- `store_nalu` and the flag that its answer sets, for each of the three parameter sets.
store_vps : Bytes → Scan → Scan
store_vps body s =
    if is_stored s.adapter.vps body
    then s
    else record s { adapter = record s.adapter { vps = some body }; cfg_updated = true }

store_sps : Bytes → Scan → Scan
store_sps body s =
    if is_stored s.adapter.sps body
    then s
    else record s { adapter = record s.adapter { sps = some body }; cfg_updated = true }

store_pps : Bytes → Scan → Scan
store_pps body s =
    if is_stored s.adapter.pps body
    then s
    else record s { adapter = record s.adapter { pps = some body }; cfg_updated = true }

-- The `match` on the type of a NAL unit.
keep_unit : ℕ → Bytes → Scan → Scan
keep_unit type body s =
    if type == 32
    then store_vps body s
    else if type == 33
    then store_sps body s
    else if type == 34
    then store_pps body s
    else if is_random_access type
    then record s { random_access = true }
    else s

-- One round at a NAL unit, `code` its start code; a unit has a header of two bytes.
add_unit : Bytes → Bytes → Scan → Scan
add_unit code (header ∷ second ∷ rest) s =
    let body = header ∷ second ∷ rest in
    let kept = keep_unit (nal_type header) body s in
    record kept { avcc_payload = kept.avcc_payload ++ nalu_to_avcc (code ++ body) }
add_unit code _ s = s

-- One less than the length of the start code here.
code_at : Bytes → Option ℕ
code_at bytes = if starts_long bytes then some 3 else if starts_short bytes then some 2 else none

unfoldable pub scan_frame : Bytes → Scan → Scan
unfolding is_stored store_vps store_sps store_pps keep_unit add_unit code_at
scan_frame frame s = scan_units code_at add_unit frame s

-- The bytes 7 to 12 of the sequence parameter set.
abbrev pub constraint_flags : Bytes → ℕ
constraint_flags (_ ∷ _ ∷ _ ∷ _ ∷ _ ∷ _ ∷ _ ∷ a ∷ b ∷ c ∷ d ∷ e ∷ f ∷ _) =
    bit_or (bit_or (bit_or (bit_or (bit_or (a <<< 40) (b <<< 32)) (c <<< 24)) (d <<< 16)) (e <<< 8))
      f
constraint_flags _ = 0

module _ {I : Type 0} (parse : Bytes → Option I) (cropped_width cropped_height : I → ℕ) where
  -- What a parsed sequence parameter set says.
  describe : I → H265Adapter → H265Adapter
  describe parsed a = record a {
    width = u32 (cropped_width parsed);
    height = u32 (cropped_height parsed);
    codec_string = if is_some a.codec_string then a.codec_string else some (codes "hev1");
  }

  unfoldable pub update_codec_info : H265Adapter → H265Adapter
  unfolding describe
  update_codec_info a = elim a.sps [
    | none ↦ a
    | some sps ↦ elim (parse sps) [ none ↦ a | some parsed ↦ describe parsed a ]
  ]

  unfoldable pub convert_frame : H265Adapter → Bytes → H265Adapter × Converted
  convert_frame a frame =
      let s =
        scan_frame frame
          (record { adapter = a; avcc_payload = []; random_access = false; cfg_updated = false }) in
      let a' = if s.cfg_updated then update_codec_info s.adapter else s.adapter in
      (
        a',
        record {
          payload = s.avcc_payload;
          is_sync = s.random_access;
          config_ready = s.cfg_updated && ready a';
        },
      )

-- What `build_hvcc` reads of a parsed sequence parameter set.
pub record Rbsp : Type 0 where
  pub profile_space : ℕ
  pub tier_flag : Bool
  pub profile_idc : ℕ
  pub profile_compatibility_flag : ℕ
  pub level_idc : Option ℕ
  pub chroma_format_idc : ℕ
  pub bit_depth_luma_minus8 : ℕ
  pub bit_depth_chroma_minus8 : ℕ
  pub sps_max_sub_layers_minus1 : ℕ
  pub sps_temporal_id_nesting_flag : Bool

-- `NaluArray` of the crate, with the number of the NAL unit type.
pub record NaluArray : Type 0 where
  pub array_completeness : Bool
  pub nal_unit_type : ℕ
  pub nalus : List Bytes

-- `HEVCDecoderConfigurationRecord` of the crate.
pub record HevcConfig : Type 0 where
  pub general_profile_space : ℕ
  pub general_tier_flag : Bool
  pub general_profile_idc : ℕ
  pub general_profile_compatibility_flags : ℕ
  pub general_constraint_indicator_flags : ℕ
  pub general_level_idc : ℕ
  pub min_spatial_segmentation_idc : ℕ
  pub parallelism_type : ℕ
  pub chroma_format_idc : ℕ
  pub bit_depth_luma_minus8 : ℕ
  pub bit_depth_chroma_minus8 : ℕ
  pub avg_frame_rate : ℕ
  pub constant_frame_rate : ℕ
  pub num_temporal_layers : ℕ
  pub temporal_id_nested : Bool
  pub length_size_minus_one : ℕ
  pub arrays : List NaluArray

nalu_array : (type : ℕ) → Bytes → NaluArray
nalu_array type nalu = record { array_completeness = true; nal_unit_type = type; nalus = nalu ∷ [] }

-- `level_idc.unwrap_or_default()`.
level_or_zero : Option ℕ → ℕ
level_or_zero none = 0
level_or_zero (some level) = level

unfoldable pub hevc_config : Rbsp → (vps sps pps : Bytes) → HevcConfig
unfolding nalu_array level_or_zero
hevc_config rbsp vps sps pps = record {
  general_profile_space = rbsp.profile_space;
  general_tier_flag = rbsp.tier_flag;
  general_profile_idc = rbsp.profile_idc;
  general_profile_compatibility_flags = rbsp.profile_compatibility_flag;
  general_constraint_indicator_flags = constraint_flags sps;
  general_level_idc = level_or_zero rbsp.level_idc;
  min_spatial_segmentation_idc = 0;
  parallelism_type = 0;
  chroma_format_idc = rbsp.chroma_format_idc;
  bit_depth_luma_minus8 = rbsp.bit_depth_luma_minus8;
  bit_depth_chroma_minus8 = rbsp.bit_depth_chroma_minus8;
  avg_frame_rate = 0;
  constant_frame_rate = 0;
  num_temporal_layers = rbsp.sps_max_sub_layers_minus1 + 1;
  temporal_id_nested = rbsp.sps_temporal_id_nesting_flag;
  length_size_minus_one = 3;
  arrays = nalu_array 32 vps ∷ nalu_array 33 sps ∷ nalu_array 34 pps ∷ [];
}

module _ {I : Type 0} (parse : Bytes → Option I) (rbsp : I → Rbsp)
    (mux : HevcConfig → Option Bytes) where
  -- The record of the three sets, if all are there.
  hvcc_of : Option Bytes → Option Bytes → Option Bytes → Option Bytes
  hvcc_of (some vps) (some sps) (some pps) = elim (parse sps) [
    | none ↦ none
    | some parsed ↦ mux (hevc_config (rbsp parsed) vps sps pps)
  ]
  hvcc_of _ _ _ = none

  unfoldable pub build_hvcc : H265Adapter → Option Bytes
  unfolding hvcc_of
  build_hvcc a = hvcc_of a.vps a.sps a.pps

  unfoldable pub codec_config : H265Adapter → Option (List Bytes)
  codec_config a =
      if ready a then elim (build_hvcc a) [ none ↦ none | some hvcc ↦ some (hvcc ∷ []) ] else none
