-- ===== src/Recorder/H265/Rtp/Fragments.antt =====
-- A NAL unit that comes in fragmentation units, and the frame that the H.265 parser makes of it.
use live.Prelude.{
  ℕ, ◌≡◌, refl, Bool, true, false, ◌||◌, Bytes, List, [], ◌∷◌, ◌++◌, append_assoc, append-nil, none,
  some, Outcome, ok, arith, flatten,
}
use live.Recorder.Codec.{Packet, push_all}
use live.Recorder.AnnexB.{long_code}
use live.Recorder.H265.NalUnit.{is_random_access}
use live.Recorder.H265.Rtp.{
  H265Payload, fragmentation, H265RtpParser, be_u16, reconstructed, push_packet,
}

module _ {D E : Type 0} (depacketize : D → Bytes → D × Outcome E (Unit {0}))
    (payload : D → H265Payload) where
  -- The depacketizer finds a fragmentation unit in this packet.
  pub record IsFragment (d d' : D) (pkt : Packet) (header : ℕ) (starts : Bool) (fu_type : ℕ)
      (piece : Bytes) : Type 0 where
    pub not_empty : (b : ℕ) × (bs : Bytes) × (pkt.payload ≡ b ∷ bs)
    pub answers : depacketize d pkt.payload ≡ (d', ok tt)
    pub finds : payload d' ≡ fragmentation header starts fu_type piece

  -- Packets that go on with a NAL unit, up to the one with the marker, and the pieces in them.
  pub data Continues : D → List Packet → List Bytes → Type 0 where
    last_piece :
        {d d' : D} {pkt : Packet} {header fu_type : ℕ} {piece : Bytes}
        → IsFragment d d' pkt header false fu_type piece
        → pkt.marker ≡ true
        → Continues d (pkt ∷ []) (piece ∷ [])
    next_piece :
        {d d' : D} {pkt : Packet} {header fu_type : ℕ} {piece : Bytes} {pkts : List Packet}
        {pieces : List Bytes}
        → IsFragment d d' pkt header false fu_type piece
        → pkt.marker ≡ false
        → Continues d' pkts pieces
        → Continues d (pkt ∷ pkts) (piece ∷ pieces)

  push_next :
      (p : H265RtpParser D) (pkt : Packet) (d' : D) (header fu_type : ℕ) (piece : Bytes)
      → IsFragment p.depacketizer d' pkt header false fu_type piece
      → pkt.marker ≡ false
      → push_packet depacketize payload p pkt
        ≡ (record p { depacketizer = d'; buffer = p.buffer ++ piece }, ok none)
  unfolding push_packet
  push_next p pkt d' header fu_type piece h m =
      let (b, bs, e) = h.not_empty in rw (e, rw e at h.answers, h.finds, m) refl

  push_last :
      (p : H265RtpParser D) (pkt : Packet) (d' : D) (header fu_type : ℕ) (piece : Bytes)
      → IsFragment p.depacketizer d' pkt header false fu_type piece
      → pkt.marker ≡ true
      → push_packet depacketize payload p pkt ≡ (
        record { depacketizer = d'; buffer = []; keyframe = false },
        ok (some (p.buffer ++ piece, p.keyframe)),
      )
  unfolding push_packet
  push_last p pkt d' header fu_type piece h m =
      let (b, bs, e) = h.not_empty in rw (e, rw e at h.answers, h.finds, m) refl

  push_start :
      (p : H265RtpParser D) (pkt : Packet) (d' : D) (header fu_type : ℕ) (piece : Bytes)
      → IsFragment p.depacketizer d' pkt header true fu_type piece
      → pkt.marker ≡ false
      → push_packet depacketize payload p pkt ≡ (
        record {
          depacketizer = d';
          buffer = ((p.buffer ++ long_code) ++ be_u16 (reconstructed header fu_type)) ++ piece;
          keyframe = p.keyframe || is_random_access fu_type;
        },
        ok none,
      )
  unfolding push_packet
  push_start p pkt d' header fu_type piece h m =
      let (b, bs, e) = h.not_empty in rw (e, rw e at h.answers, h.finds, m) (ground arith)

  -- One frame comes out, and nothing is left of it.
  pub record IsFrameOut (frame : Bytes) (keyframe : Bool)
      (r : H265RtpParser D × List (Bytes × Bool)) : Type 0 where
    pub outs : r.1 ≡ (frame, keyframe) ∷ []
    pub empty : r.0.buffer ≡ []
    pub fresh : r.0.keyframe ≡ false

  push_rest :
      (p : H265RtpParser D) (d : D) (pkts : List Packet) (pieces : List Bytes)
      → p.depacketizer ≡ d
      → Continues d pkts pieces
      → IsFrameOut
          (p.buffer ++ flatten pieces)
          p.keyframe
          (push_all (push_packet depacketize payload) p pkts)
  unfolding push_all
  push_rest p d _ _ same
        (last_piece {d' = d'} {pkt = pkt} {header = header} {fu_type = fu_type} {piece = piece} h
          m) =
      rw (push_last p pkt d' header fu_type piece (rw same h) m)
        (record { outs = rw (append-nil piece) refl; empty = refl; fresh = refl })
  push_rest p d _ _ same
        (next_piece {d' = d'} {pkt = pkt} {header = header} {fu_type = fu_type} {piece = piece}
          {pkts = pkts} {pieces = pieces} h m more) =
      rw (push_next p pkt d' header fu_type piece (rw same h) m) (
        rw (append_assoc p.buffer piece (flatten pieces)) at (
          push_rest (record p { depacketizer = d'; buffer = p.buffer ++ piece }) d' pkts pieces refl
            more))

  -- A NAL unit in fragmentation units, the last of them with the marker, comes out as one frame: what
  -- the parser had collected, a start code, the header with the type of the unit put in place, and
  -- the pieces in order. The frame counts as a keyframe if the type is from 16 to 21, or the parser
  -- had seen such a type before; and nothing is left for the next frame.
  pub push_all-Continues :
      (p : H265RtpParser D) (first : Packet) (d' : D) (header fu_type : ℕ) (piece : Bytes)
      (pkts : List Packet) (pieces : List Bytes)
      → IsFragment p.depacketizer d' first header true fu_type piece
      → first.marker ≡ false
      → Continues d' pkts pieces
      → IsFrameOut
          (p.buffer
            ++ (long_code ++ (be_u16 (reconstructed header fu_type) ++ (piece ++ flatten pieces))))
          (p.keyframe || is_random_access fu_type)
          (push_all (push_packet depacketize payload) p (first ∷ pkts))
  unfolding push_all
  push_all-Continues p first d' header fu_type piece pkts pieces h m more =
      let rest =
        push_rest
          (record {
            depacketizer = d';
            buffer = ((p.buffer ++ long_code) ++ be_u16 (reconstructed header fu_type)) ++ piece;
            keyframe = p.keyframe || is_random_access fu_type;
          })
          d' pkts pieces refl more in
      rw (push_start p first d' header fu_type piece h m) (
        rw
          (
            append_assoc ((p.buffer ++ long_code) ++ be_u16 (reconstructed header fu_type)) piece
                (flatten pieces),
            append_assoc (p.buffer ++ long_code) (be_u16 (reconstructed header fu_type))
                (piece ++ flatten pieces),
            append_assoc p.buffer long_code
                (be_u16 (reconstructed header fu_type) ++ (piece ++ flatten pieces)),
          )
          at rest)
