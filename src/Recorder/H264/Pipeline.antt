-- ===== src/Recorder/H264/Pipeline.antt =====
-- The parser of h264.rs and the adapter behind it: from RTP packets to length-prefixed NAL units.
use live.Prelude.{
  ℕ, ◌≡◌, refl, ◌∙◌, Bytes, List, [], ◌∷◌, Bool, false, ◌||◌, Option, Outcome, All, arith,
}
use live.Recorder.Codec.{Packet, push_all}
use live.Recorder.AnnexB.{annex_b, any_unit, all_units}
use live.Recorder.AnnexB.Scan.{IsUnit}
use live.Recorder.H264.NalUnit.{has_type}
use live.Recorder.H264.Adapter.{H264Adapter, convert_frame}
use live.Recorder.H264.Adapter.Conversion.{IsH264Converted, convert_frame-IsH264Converted}
use live.Recorder.H264.Adapter.Spaced.{frames_of, no_key, all_units-IsUnit, convert_frame-spaced}
use live.Recorder.H264.Rtp.{H264RtpParser, push_packet}
use live.Recorder.H264.Rtp.Frames.{Depacketized, push_all-Depacketized, payloads}

or_false : (b : Bool) → (false || b || false) ≡ b
or_false b = ground arith

-- One frame comes out of the parser, and the adapter takes it apart into these NAL units.
pub record IsRecorded {D : Type 0} (dimensions : Bytes → Option (ℕ × ℕ)) (a : H264Adapter)
    (idr : Bool) (nalus : List Bytes) (r : H264RtpParser D × List (Bytes × Bool)) : Type 0 where
  pub frame : Bytes
  pub outs : r.1 ≡ (frame, idr) ∷ []
  pub converted : IsH264Converted a nalus (convert_frame dimensions a frame)

-- From the packets of a frame, the last of them with the marker, to what is recorded. The depacketizer
-- returns for each packet some NAL units, each behind a start code of four bytes: one, several of an
-- aggregation packet, or none for a fragment that others follow. The units are not empty and free of
-- start codes, and the parser has nothing collected before them, nor its flag set. Then it puts
-- out one frame, and although it writes one more start code for each packet, the adapter makes of that
-- frame exactly those NAL units, each with its length, and takes the keyframe flag and the parameter
-- sets from them. The parser's own flag is set exactly if the payload of a packet has type 5 in its
-- first byte, whatever the units are.
pub push_all-IsRecorded :
    {D E : Type 0} (depacketize : D → Bytes → D × Outcome E Bytes)
    (dimensions : Bytes → Option (ℕ × ℕ)) (p : H264RtpParser D) (a : H264Adapter)
    (pkts : List Packet) (uss : List (List Bytes))
    → p.buffer ≡ []
    → p.idr ≡ false
    → Depacketized depacketize p.depacketizer pkts (frames_of uss)
    → All (All IsUnit) uss
    → IsRecorded dimensions a
        (any_unit (has_type 5) (payloads depacketize pkts))
        (all_units uss)
        (push_all (push_packet depacketize) p pkts)
push_all-IsRecorded depacketize dimensions p a pkts uss empty fresh found units =
    let out = push_all-Depacketized depacketize p p.depacketizer pkts (frames_of uss) refl found in
    let same = convert_frame-spaced dimensions a uss units in
    record {
      frame = annex_b (frames_of uss);
      outs =
          out.outs
          ∙ rw
              (
                empty,
                fresh,
                no_key uss,
                or_false (any_unit (has_type 5) (payloads depacketize pkts)),
              )
              refl;
      converted =
          rw same (
            convert_frame-IsH264Converted dimensions a (all_units uss)
              (all_units-IsUnit uss units));
    }
