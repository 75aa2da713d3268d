-- ===== src/Recorder/Av1/Adapter.antt =====
-- av1.rs, `Av1Adapter`.
pub mod Laws
use live.Prelude.{
  ℕ, ◌+◌, ◌≡◌, refl, Bool, true, false, ◌&&◌, ◌||◌, Bytes, List, [], ◌∷◌, ltb, ◌==◌, if◌then◌else◌,
  Option, none, some, is_some, bytes_eq, length, u32, Outcome, ok, err, panic, ◌>>=◌,
}
use live.Recorder.Codec.{Converted}
use live.Recorder.Av1.Error.{Error, Result}
use live.Recorder.Av1.Obu.{with_size, parse_temporal_unit, marshal_bitstream}
use live.Recorder.Av1.SequenceHeader
use live.Recorder.Av1.SequenceHeader.{SequenceHeader, obu_type, obu_type_sequence_header}
use live.Recorder.Av1.ConfigRecord.{build_codec_string, build_av1c_record}

pub record Av1Adapter : Type 0 where
  pub sequence_header : Option Bytes
  pub av1c_record : Option Bytes
  pub codec_string : Option Bytes
  pub width : ℕ
  pub height : ℕ

unfoldable pub new : Av1Adapter
new = record {
  sequence_header = none;
  av1c_record = none;
  codec_string = none;
  width = 0;
  height = 0;
}

abbrev pub ready : Av1Adapter → Bool
ready a = is_some a.sequence_header

same_header : Option Bytes → Bytes → Bool
same_header none obu = false
same_header (some existing) obu = bytes_eq existing obu

-- The OBU with its size field. `SequenceHeader::parse` has refused an empty one before.
obu_with_size : Bytes → Bytes
obu_with_size [] = []
obu_with_size (header ∷ payload) = with_size header payload

-- The adapter once `info` was read from `obu`.
remember : Av1Adapter → Bytes → SequenceHeader → Av1Adapter
unfolding obu_with_size
remember a obu info = record {
  sequence_header = some obu;
  av1c_record = some (build_av1c_record info (obu_with_size obu));
  codec_string = some (build_codec_string info);
  width = u32 (info.max_frame_width_minus1 + 1);
  height = u32 (info.max_frame_height_minus1 + 1);
}

unfoldable pub update_sequence_header_from_obu : Av1Adapter → Bytes → Av1Adapter × Result Bool
unfolding same_header remember
update_sequence_header_from_obu a obu =
    if same_header a.sequence_header obu then (a, ok false) else elim (SequenceHeader.parse obu) [
      | ok info ↦ (remember a obu info, ok true)
      | err e ↦ (a, err e)
      | panic ↦ (a, panic)
    ]

-- The variables of the loop over the OBUs of a frame.
pub record Scan : Type 0 where
  pub adapter : Av1Adapter
  pub config_updated : Bool
  pub is_random_access : Bool

-- A failed update is logged, and the loop goes on.
after_update : Scan → Av1Adapter × Result Bool → Result Scan
after_update s (a, ok updated) = ok (record s {
  adapter = a;
  config_updated = if updated then true else s.config_updated;
  is_random_access = true;
})
after_update s (a, err e) = ok (record s { adapter = a; is_random_access = true })
after_update s (a, panic) = panic

scan_obu : Bytes → Scan → Result Scan
scan_obu [] s = panic
scan_obu (header ∷ payload) s =
    if obu_type header == obu_type_sequence_header
    then after_update s (update_sequence_header_from_obu s.adapter (header ∷ payload))
    else ok s

scan_obus : List Bytes → Scan → Result Scan
scan_obus [] s = ok s
scan_obus (obu ∷ obus) s = scan_obu obu s >>= scan_obus obus

-- What the frame becomes once its OBUs are known.
convert_obus : Av1Adapter → List Bytes → Result (Av1Adapter × Converted)
convert_obus a obus = do
  s ← scan_obus obus (record { adapter = a; config_updated = false; is_random_access = false })
  marshalled ← marshal_bitstream obus
  ok (
    s.adapter,
    record {
      payload = marshalled;
      is_sync = s.is_random_access;
      config_ready = s.config_updated && ready s.adapter;
    },
  )

-- A frame that is no temporal unit is passed on as it is.
unfoldable pub convert_frame : Av1Adapter → Bytes → Result (Av1Adapter × Converted)
unfolding after_update scan_obu scan_obus convert_obus
convert_frame a frame = elim (parse_temporal_unit frame) [
  | ok obus ↦ convert_obus a obus
  | err e ↦ ok (a, record { payload = frame; is_sync = false; config_ready = false })
  | panic ↦ panic
]

unfoldable pub codec_config : Av1Adapter → Option (List Bytes)
codec_config a = elim a.av1c_record [ none ↦ none | some r ↦ some (r ∷ []) ]
