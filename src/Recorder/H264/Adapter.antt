-- ===== src/Recorder/H264/Adapter.antt =====
-- h264.rs, `H264Adapter`: an Annex B frame becomes length-prefixed NAL units, and the parameter sets
-- in it are kept. `dimensions` is the decoding of a sequence parameter set by the h264_reader crate:
-- width and height, `none` where any of its steps fails.
pub mod Conversion
pub mod Spaced
use mathlib.Core.WellFounded.{Acc}
use live.Prelude.{
  ℕ, zero, suc, ◌+◌, ◌<◌, ◌≡◌, refl, Bool, true, false, ◌&&◌, ◌||◌, not, Bytes, List, [], ◌∷◌, ◌++◌,
  leb, ◌==◌, if◌then◌else◌, Option, none, some, is_some, length, take, drop, Shorter, shorter_wf,
  bit_and, codes, hex_02, arith,
}
use live.Recorder.Codec.{Converted}
use live.Recorder.AnnexB.{starts_short, starts_long, nalu_to_avcc, scan_units}
use live.Recorder.H264.NalUnit.{nal_type}

pub record H264Adapter : Type 0 where
  pub sps : Option Bytes
  pub pps : Option Bytes
  pub codec_string : Option Bytes
  pub width : ℕ
  pub height : ℕ

unfoldable pub new : H264Adapter
new = record { sps = none; pps = none; codec_string = none; width = 0; height = 0 }

abbrev pub ready : H264Adapter → Bool
ready a = is_some a.sps && is_some a.pps

-- The codec string of a sequence parameter set.
codec_string_of : Bytes → Bytes
codec_string_of (header ∷ profile_idc ∷ constraints ∷ level_idc ∷ _) =
    codes "avc1." ++ hex_02 profile_idc ++ hex_02 constraints ++ hex_02 level_idc
codec_string_of _ = codes "avc1"

unfoldable pub update_codec_string : H264Adapter → H264Adapter
unfolding codec_string_of
update_codec_string a =
    if is_some a.codec_string
    then a
    else elim a.sps [ none ↦ a | some sps ↦ record a { codec_string = some (codec_string_of sps) } ]

-- The variables of the loop over the NAL units.
pub record Scan : Type 0 where
  pub adapter : H264Adapter
  pub avcc_payload : Bytes
  pub is_idr : Bool
  pub cfg_updated : Bool

-- One less than the length of the start code here.
code_at : Bytes → Option ℕ
code_at bytes = if starts_short bytes then some 2 else if starts_long bytes then some 3 else none

module _ (dimensions : Bytes → Option (ℕ × ℕ)) where
  unfoldable pub parse_dimensions : Bytes → H264Adapter → H264Adapter
  parse_dimensions sps a = elim (dimensions sps) [
    | none ↦ a
    | some (w, h) ↦ record a { width = w; height = h }
  ]

  -- The `match` on the type of a NAL unit without its start code.
  keep_unit : ℕ → Bytes → Scan → Scan
  keep_unit type unit s =
      if type == 7
      then (if is_some s.adapter.sps then s else record s {
        adapter = parse_dimensions unit (record s.adapter { sps = some unit });
        cfg_updated = true;
      })
      else if type == 8
      then (if is_some s.adapter.pps
          then s
          else record s { adapter = record s.adapter { pps = some unit }; cfg_updated = true })
      else if type == 5
      then record s { is_idr = true }
      else s

  -- One round at a NAL unit, `code` its start code.
  add_unit : Bytes → Bytes → Scan → Scan
  add_unit code [] s = s
  add_unit code (header ∷ rest) s =
      let kept = keep_unit (nal_type header) (header ∷ rest) s in
      record kept { avcc_payload = kept.avcc_payload ++ nalu_to_avcc (code ++ (header ∷ rest)) }

  unfoldable pub scan_frame : Bytes → Scan → Scan
  unfolding code_at keep_unit add_unit
  scan_frame frame s = scan_units code_at add_unit frame s

  unfoldable pub convert_frame : H264Adapter → Bytes → H264Adapter × Converted
  convert_frame a frame =
      let s =
        scan_frame frame
          (record { adapter = a; avcc_payload = []; is_idr = false; cfg_updated = false }) in
      let a' = if s.cfg_updated then update_codec_string s.adapter else s.adapter in
      (
        a',
        record {
          payload = s.avcc_payload;
          is_sync = s.is_idr;
          config_ready = s.cfg_updated && ready a';
        },
      )

unfoldable pub codec_config : H264Adapter → Option (List Bytes)
codec_config a = elim a.sps [
  | none ↦ none
  | some sps ↦ elim a.pps [ none ↦ none | some pps ↦ some (sps ∷ pps ∷ []) ]
]
