-- ===== src/Recorder/H264/Rtp.antt =====
-- h264.rs, `H264RtpParser`: Annex B frames out of RTP payloads. The depacketizer is the webrtc crate's
-- `H264Packet`: its state `D` and its method.
pub mod Frames
use live.Prelude.{
  ℕ, ◌+◌, Bool, true, false, ◌||◌, Bytes, List, [], ◌∷◌, ◌++◌, ◌==◌, if◌then◌else◌, Option, none,
  some, Outcome, ok, err, panic,
}
use live.Recorder.Codec.{Packet}
use live.Recorder.AnnexB.{long_code}
use live.Recorder.H264.NalUnit.{has_type}

pub record H264RtpParser (D : Type 0) : Type 0 where
  pub depacketizer : D
  pub buffer : Bytes
  pub idr : Bool

unfoldable pub new : {D : Type 0} → D → H264RtpParser D
new d = record { depacketizer = d; buffer = []; idr = false }

module _ {D E : Type 0} (depacketize : D → Bytes → D × Outcome E Bytes) where
  -- The method, once the depacketizer has answered.
  after_depacketize :
      H264RtpParser D
      → Packet
      → D × Outcome E Bytes
      → H264RtpParser D × Outcome E (Option (Bytes × Bool))
  after_depacketize p pkt (d, ok nalu) =
      let buffer = p.buffer ++ (long_code ++ nalu) in
      let idr = if has_type 5 nalu then true else p.idr in
      if pkt.marker
      then (record { depacketizer = d; buffer = []; idr = false }, ok (some (buffer, idr)))
      else (record { depacketizer = d; buffer = buffer; idr = idr }, ok none)
  after_depacketize p pkt (d, err e) = (record p { depacketizer = d }, err e)
  after_depacketize p pkt (d, panic) = (record p { depacketizer = d }, panic)

  unfoldable pub push_packet :
      H264RtpParser D → Packet → H264RtpParser D × Outcome E (Option (Bytes × Bool))
  unfolding after_depacketize has_type
  push_packet p pkt =
      let seen = record p { idr = if has_type 5 pkt.payload then true else p.idr } in
      after_depacketize seen pkt (depacketize p.depacketizer pkt.payload)
