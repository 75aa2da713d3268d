-- ===== src/Recorder/H264/Tests.antt =====
-- The H.264 adapter and parser at concrete frames, with a decoder of parameter sets that always finds
-- 640 by 480.
use live.Prelude.{
  ℕ, zero, suc, ◌+◌, ◌*◌, ◌≡◌, refl, Bool, true, false, Bytes, List, [], ◌∷◌, ◌++◌, arith, All,
  codes, hex_02, Option, some, Outcome, ok, err, shorter_wf, take, drop, length, ltb, ◌==◌, bit_and,
  bit_or, if◌then◌else◌,
}
use live.Recorder.Codec.{Packet, push_all}
use live.Recorder.AnnexB.{
  long_code, any_unit, all_units, annex_b, nalu_to_avcc, to_next_code, starts_short, starts_long,
  starts_code,
}
use live.Recorder.H264.Adapter
use live.Recorder.H264.Adapter.{
  H264Adapter, convert_frame, scan_frame, parse_dimensions, update_codec_string, codec_config,
}
use live.Recorder.AnnexB.{scan_units}
use live.Recorder.AnnexB.Scan.{IsUnit}
use live.Recorder.H264.Adapter.Conversion.{IsH264Converted, convert_frame-IsH264Converted}
use live.Recorder.H264.Rtp
use live.Recorder.H264.Rtp.{H264RtpParser, push_packet}
use live.Recorder.H264.Adapter.Spaced.{frames_of}
use live.Recorder.H264.NalUnit.{nal_type, has_type}
use live.Recorder.H264.Rtp.Frames.{Depacketized, last_one, one_more, payloads}
use live.Recorder.H264.Pipeline.{IsRecorded, push_all-IsRecorded}

abbrev dimensions : Bytes → Option (ℕ × ℕ)
dimensions sps = some (640, 480)

-- A sequence parameter set, a picture parameter set, and a slice of an IDR picture.
abbrev units : List Bytes
units = (0x67 ∷ 0x42 ∷ 0xe0 ∷ 0x1f ∷ []) ∷ (0x68 ∷ 0xce ∷ []) ∷ (0x65 ∷ 0xaa ∷ 0xbb ∷ []) ∷ []

units-IsUnit : All IsUnit units
unfolding starts_code starts_short starts_long
units-IsUnit = (
  (omega arith, (refl, (refl, (refl, (refl, tt))))),
  ((omega arith, (refl, (refl, tt))), ((omega arith, (refl, (refl, (refl, tt)))), tt)),
)

units_converted :
    (convert_frame dimensions Adapter.new (annex_b units)).0.codec_string
    ≡ some (codes "avc1.42e01f")
unfolding convert_frame Adapter.new annex_b scan_frame scan_units to_next_code starts_code
    starts_short starts_long parse_dimensions update_codec_string hex_02 nalu_to_avcc shorter_wf
units_converted = refl

sets_configured :
    codec_config (convert_frame dimensions Adapter.new (annex_b units)).0
    ≡ some ((0x67 ∷ 0x42 ∷ 0xe0 ∷ 0x1f ∷ []) ∷ (0x68 ∷ 0xce ∷ []) ∷ [])
unfolding codec_config convert_frame Adapter.new annex_b scan_frame scan_units to_next_code
    starts_code starts_short starts_long parse_dimensions update_codec_string hex_02 nalu_to_avcc
    shorter_wf
sets_configured = refl

convert_frame-IsH264Converted_example :
    IsH264Converted Adapter.new units (convert_frame dimensions Adapter.new (annex_b units))
convert_frame-IsH264Converted_example =
    convert_frame-IsH264Converted dimensions Adapter.new units units-IsUnit

-- The units of an aggregation packet, each behind its length in two bytes; as many as `fuel` at most.
abbrev aggregated : (fuel : ℕ) → Bytes → Bytes
aggregated zero bytes = []
aggregated (suc fuel) (high ∷ low ∷ rest) =
    let size = high * 256 + low in long_code ++ (take size rest ++ aggregated fuel (drop size rest))
aggregated (suc fuel) bytes = []

-- A fragment, and the first header byte of its packet: nothing comes out before the last one.
abbrev fragment : Bytes → ℕ → Bytes → Bytes × Outcome ℕ Bytes
fragment collected first [] = (collected, err 1)
fragment collected first (second ∷ rest) =
    let unit = collected ++ rest in
    if bit_and second 0x40 == 0
    then (unit, ok [])
    else ([], ok (long_code ++ (bit_or (bit_and first 0x60) (bit_and second 0x1f) ∷ unit)))

-- A depacketizer that behaves like the one of the crate: a packet is a NAL unit (types up to 23), an
-- aggregation of NAL units (24), or a fragment of one (28), which its state collects. It puts a
-- start code before every unit.
abbrev depacketize : Bytes → Bytes → Bytes × Outcome ℕ Bytes
depacketize d [] = (d, err 0)
depacketize d (header ∷ rest) =
    if ltb (nal_type header) 24
    then (d, ok (long_code ++ (header ∷ rest)))
    else if nal_type header == 24
    then (d, ok (aggregated (length rest) rest))
    else if nal_type header == 28
    then fragment d header rest
    else (d, err 2)

abbrev packet : Bool → Bytes → Packet
packet marker payload = record {
  payload = payload;
  marker = marker;
  sequence_number = 0;
  timestamp = 0;
}

-- The packet of `test_single_nalu_idr_detection`.
idr_packet :
    (push_packet depacketize (Rtp.new []) (packet true (0x65 ∷ 0xaa ∷ 0xbb ∷ 0xcc ∷ []))).1
    ≡ ok (some (long_code ++ (long_code ++ (0x65 ∷ 0xaa ∷ 0xbb ∷ 0xcc ∷ [])), true))
unfolding push_packet Rtp.new
idr_packet = refl

-- Both parameter sets in one packet, then the slice in two fragments.
abbrev packets : List Packet
packets =
    packet false (0x78 ∷ 0 ∷ 4 ∷ 0x67 ∷ 0x42 ∷ 0xe0 ∷ 0x1f ∷ 0 ∷ 2 ∷ 0x68 ∷ 0xce ∷ [])
    ∷ packet false (0x7c ∷ 0x85 ∷ 0xaa ∷ [])
    ∷ packet true (0x7c ∷ 0x45 ∷ 0xbb ∷ [])
    ∷ []

abbrev units_found : List (List Bytes)
units_found =
    ((0x67 ∷ 0x42 ∷ 0xe0 ∷ 0x1f ∷ []) ∷ (0x68 ∷ 0xce ∷ []) ∷ [])
    ∷ []
    ∷ ((0x65 ∷ 0xaa ∷ 0xbb ∷ []) ∷ [])
    ∷ []

units_found-IsUnit : All (All IsUnit) units_found
unfolding starts_code starts_short starts_long
units_found-IsUnit =
    ((units-IsUnit.0, (units-IsUnit.1.0, tt)), (tt, ((units-IsUnit.1.1.0, tt), tt)))

packets_found : Depacketized depacketize [] packets (frames_of units_found)
unfolding frames_of annex_b
packets_found = one_more refl refl (one_more refl refl (last_one refl refl))

abbrev fresh : H264RtpParser Bytes
fresh = record { depacketizer = []; buffer = []; idr = false }

push_all-IsRecorded_example :
    IsRecorded dimensions Adapter.new
      (any_unit (has_type 5) (payloads depacketize packets))
      (all_units units_found)
      (push_all (push_packet depacketize) fresh packets)
push_all-IsRecorded_example =
    push_all-IsRecorded depacketize dimensions fresh Adapter.new packets units_found refl refl
      packets_found units_found-IsUnit

-- The fragments hold an IDR slice, but the parser does not see it.
fragments_unseen : any_unit (has_type 5) (payloads depacketize packets) ≡ false
unfolding any_unit has_type payloads
fragments_unseen = refl
