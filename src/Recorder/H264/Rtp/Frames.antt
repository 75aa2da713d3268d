-- ===== src/Recorder/H264/Rtp/Frames.antt =====
-- The frame that the H.264 parser puts together from packets.
use live.Prelude.{
  ◌≡◌, refl, ap, Bool, true, false, ◌||◌, Bytes, List, [], ◌∷◌, ◌++◌, append_assoc, append-nil,
  if◌then◌else◌, none, some, Outcome, ok, arith,
}
use live.Recorder.Codec.{Packet, push_all}
use live.Recorder.AnnexB.{long_code, annex_b, any_unit}
use live.Recorder.H264.NalUnit.{has_type}
use live.Recorder.H264.Rtp.{H264RtpParser, push_packet}

seen_either :
    (before payload nalu : Bool)
    → (if nalu then true else (if payload then true else before)) ≡ (before || payload || nalu)
seen_either before payload nalu = ground arith

-- A key unit in one of the packets so far, or in one of the others.
seen_anywhere :
    (before payload nalu payloads nalus : Bool)
    → ((before || payload || nalu) || payloads || nalus)
      ≡ (before || (payload || payloads) || (nalu || nalus))
seen_anywhere before payload nalu payloads nalus = ground arith

seen_once :
    (before payload nalu : Bool)
    → (before || payload || nalu) ≡ (before || (payload || false) || (nalu || false))
seen_once before payload nalu = ground arith

module _ {D E : Type 0} (depacketize : D → Bytes → D × Outcome E Bytes) where
  -- The packets of one frame, the last of them with the marker, and what the depacketizer, starting
  -- from `d`, finds in each.
  pub data Depacketized : D → List Packet → List Bytes → Type 0 where
    last_one :
        {d d' : D} {pkt : Packet} {nalu : Bytes}
        → depacketize d pkt.payload ≡ (d', ok nalu)
        → pkt.marker ≡ true
        → Depacketized d (pkt ∷ []) (nalu ∷ [])
    one_more :
        {d d' : D} {pkt : Packet} {nalu : Bytes} {pkts : List Packet} {nalus : List Bytes}
        → depacketize d pkt.payload ≡ (d', ok nalu)
        → pkt.marker ≡ false
        → Depacketized d' pkts nalus
        → Depacketized d (pkt ∷ pkts) (nalu ∷ nalus)

  -- The payloads of the packets.
  unfoldable pub payloads : List Packet → List Bytes
  payloads [] = []
  payloads (pkt ∷ pkts) = pkt.payload ∷ payloads pkts

  push_one :
      (p : H264RtpParser D) (pkt : Packet) (d' : D) (nalu : Bytes)
      → depacketize p.depacketizer pkt.payload ≡ (d', ok nalu)
      → pkt.marker ≡ false
      → push_packet depacketize p pkt ≡ (
        record {
          depacketizer = d';
          buffer = p.buffer ++ (long_code ++ nalu);
          idr = p.idr || has_type 5 pkt.payload || has_type 5 nalu;
        },
        ok none,
      )
  unfolding push_packet
  push_one p pkt d' nalu e m =
      rw (e, m, seen_either p.idr (has_type 5 pkt.payload) (has_type 5 nalu)) refl

  push_end :
      (p : H264RtpParser D) (pkt : Packet) (d' : D) (nalu : Bytes)
      → depacketize p.depacketizer pkt.payload ≡ (d', ok nalu)
      → pkt.marker ≡ true
      → push_packet depacketize p pkt ≡ (
        record { depacketizer = d'; buffer = []; idr = false },
        ok (
            some (
              p.buffer ++ (long_code ++ nalu),
              p.idr || has_type 5 pkt.payload || has_type 5 nalu,
            )),
      )
  unfolding push_packet
  push_end p pkt d' nalu e m =
      rw (e, m, seen_either p.idr (has_type 5 pkt.payload) (has_type 5 nalu)) refl

  -- One frame comes out, and nothing is left of it.
  pub record IsFrameOut (frame : Bytes) (idr : Bool) (r : H264RtpParser D × List (Bytes × Bool))
      : Type 0 where
    pub outs : r.1 ≡ (frame, idr) ∷ []
    pub empty : r.0.buffer ≡ []
    pub fresh : r.0.idr ≡ false

  -- The packets of a frame, up to the one with the marker, come out as one frame: what the parser had
  -- collected, and the NAL units that the depacketizer found, each behind a start code, in order.
  -- The frame counts as a keyframe if one of the payloads or of those NAL units has type 5 in its
  -- first byte, or the parser had seen one before; and nothing is left for the next frame.
  pub push_all-Depacketized :
      (p : H264RtpParser D) (d : D) (pkts : List Packet) (nalus : List Bytes)
      → p.depacketizer ≡ d
      → Depacketized d pkts nalus
      → IsFrameOut
          (p.buffer ++ annex_b nalus)
          (p.idr || any_unit (has_type 5) (payloads pkts) || any_unit (has_type 5) nalus)
          (push_all (push_packet depacketize) p pkts)
  unfolding push_all payloads annex_b any_unit
  push_all-Depacketized p d _ _ same (last_one {d' = d'} {pkt = pkt} {nalu = nalu} e m) =
      rw (push_end p pkt d' nalu (rw same e) m) (record {
        outs = rw (append-nil nalu) (
            ap (λ (idr : Bool). (p.buffer ++ (long_code ++ nalu), idr) ∷ [])
              (seen_once p.idr (has_type 5 pkt.payload) (has_type 5 nalu)));
        empty = refl;
        fresh = refl;
      })
  push_all-Depacketized p d _ _ same
        (one_more {d' = d'} {pkt = pkt} {nalu = nalu} {pkts = pkts} {nalus = nalus} e m more) =
      rw (push_one p pkt d' nalu (rw same e) m) (
        rw
          (
            append_assoc p.buffer (long_code ++ nalu) (annex_b nalus),
            seen_anywhere p.idr (has_type 5 pkt.payload) (has_type 5 nalu)
                (any_unit (has_type 5) (payloads pkts)) (any_unit (has_type 5) nalus),
          )
          at
          (push_all-Depacketized
            (record {
              depacketizer = d';
              buffer = p.buffer ++ (long_code ++ nalu);
              idr = p.idr || has_type 5 pkt.payload || has_type 5 nalu;
            })
            d' pkts nalus refl more))
