-- ===== src/Recorder/Vp9/Rtp/Reassembly.antt =====
-- A VP9 frame cut into packets, and what the parser makes of them. Of the depacketizer it is asked
-- that it takes apart what `encode` puts together: the piece of the frame, and the flags that say
-- whether the packet begins and whether it ends a frame.
use live.Prelude.{
  ℕ, ◌+◌, ◌≤◌, ◌<◌, ◌≡◌, refl, Bool, true, false, Bytes, List, [], ◌∷◌, ◌++◌, append_assoc, arith,
  none, some, length, flatten, total_length, flatten-snoc, u16, Outcome, ok, err, panic,
}
use live.Recorder.Codec.{Packet, push_all}
use live.Recorder.Vp9.Rtp.{Vp9RtpParser, push_packet, after_depacketize, max_frame_size}

-- The depacketizer has found this piece, and these flags.
pub record Unpacked {D E : Type 0} (b e : D → Bool) (begin end : Bool) (piece : Bytes)
    (r : D × Outcome E Bytes) : Type 0 where
  pub payload : r.1 ≡ ok piece
  pub begins : b r.0 ≡ begin
  pub ends : e r.0 ≡ end

-- The parser holds these fragments, `size` bytes, and waits for packet `seq`.
record Holds {D : Type 0} (p : Vp9RtpParser D) (frags : List Bytes) (size seq : ℕ) : Type 0 where
  fragments : p.fragments ≡ frags
  total : p.fragments_size ≡ size
  next : p.fragment_next_seq ≡ some seq

module _ {D E : Type 0} (depacketize : D → Bytes → D × Outcome E Bytes) (b e : D → Bool) where
  begun :
      (p : Vp9RtpParser D) (pkt : Packet) (piece : Bytes) (r : D × Outcome E Bytes)
      → Unpacked b e true false piece r
      → ((after_depacketize depacketize b e p pkt r).1 ≡ ok none)
        × Holds
            (after_depacketize depacketize b e p pkt r).0
            (piece ∷ [])
            (length piece)
            (u16 (pkt.sequence_number + 1))
  unfolding push_packet
  begun p pkt piece (d, ok x) h = ground (arith, h.payload, h.begins, h.ends)
  begun p pkt piece (d, err x) h = absurd (ground (arith, h.payload))
  begun p pkt piece (d, panic) h = absurd (ground (arith, h.payload))

  continued :
      (p : Vp9RtpParser D) (pkt : Packet) (piece : Bytes) (r : D × Outcome E Bytes)
      (frags : List Bytes) (size : ℕ)
      → Unpacked b e false false piece r
      → Holds p frags size pkt.sequence_number
      → 0 < size
      → size + length piece ≤ max_frame_size
      → ((after_depacketize depacketize b e p pkt r).1 ≡ ok none)
        × Holds
            (after_depacketize depacketize b e p pkt r).0
            (frags ++ (piece ∷ []))
            (size + length piece)
            (u16 (pkt.sequence_number + 1))
  unfolding push_packet
  continued p pkt piece (d, ok x) frags size h held some_there fits =
      ground (arith, h.payload, h.begins, h.ends, held.fragments, held.total, held.next)
  continued p pkt piece (d, err x) frags size h held some_there fits =
      absurd (ground (arith, h.payload))
  continued p pkt piece (d, panic) frags size h held some_there fits =
      absurd (ground (arith, h.payload))

  ended :
      (p : Vp9RtpParser D) (pkt : Packet) (piece : Bytes) (r : D × Outcome E Bytes)
      (frags : List Bytes) (size : ℕ)
      → Unpacked b e false true piece r
      → Holds p frags size pkt.sequence_number
      → 0 < size
      → size + length piece ≤ max_frame_size
      → ((after_depacketize depacketize b e p pkt r).1
          ≡ ok (some (flatten (frags ++ (piece ∷ [])))))
        × ((after_depacketize depacketize b e p pkt r).0.fragments ≡ [])
  unfolding push_packet
  ended p pkt piece (d, ok x) frags size h held some_there fits =
      ground (arith, h.payload, h.begins, h.ends, held.fragments, held.total, held.next)
  ended p pkt piece (d, err x) frags size h held some_there fits =
      absurd (ground (arith, h.payload))
  ended p pkt piece (d, panic) frags size h held some_there fits =
      absurd (ground (arith, h.payload))

-- The packets of a frame; `encode` builds a payload from the two flags and a piece of the frame.
module _ (encode : Bool → Bool → Bytes → Bytes) where
  packet : ℕ → Bool → Bool → Bytes → Packet
  packet seq begin end piece = record {
    payload = encode begin end piece;
    marker = end;
    sequence_number = seq;
    timestamp = 0;
  }

  rest_packets : ℕ → List Bytes → Bytes → List Packet
  rest_packets seq [] z = packet seq false true z ∷ []
  rest_packets seq (m ∷ ms) z = packet seq false false m ∷ rest_packets (u16 (seq + 1)) ms z

  -- The frame `a ++ flatten ms ++ z`, from sequence number `seq` on.
  unfoldable pub frame_packets : ℕ → Bytes → List Bytes → Bytes → List Packet
  unfolding packet rest_packets
  frame_packets seq a ms z = packet seq true false a ∷ rest_packets (u16 (seq + 1)) ms z

module _ {D E : Type 0} (depacketize : D → Bytes → D × Outcome E Bytes) (b e : D → Bool)
    (encode : Bool → Bool → Bytes → Bytes)
    (unpacks : (d : D) (begin end : Bool) (piece : Bytes)
      → Unpacked b e begin end piece (depacketize d (encode begin end piece))) where
  push_rest :
      (ms frags : List Bytes) (seq : ℕ) (z : Bytes) (size : ℕ) (p : Vp9RtpParser D)
      → Holds p frags size seq
      → 0 < size
      → size + total_length ms + length z ≤ max_frame_size
      → ((push_all (push_packet depacketize b e) p (rest_packets encode seq ms z)).1
          ≡ flatten (frags ++ (ms ++ (z ∷ []))) ∷ [])
        × ((push_all (push_packet depacketize b e) p (rest_packets encode seq ms z)).0.fragments
            ≡ [])
  unfolding push_all frame_packets push_packet
  push_rest [] frags seq z size p held some_there fits =
      let (out, none_left) =
        ended depacketize b e p (packet encode seq false true z) z _ frags size
          (unpacks p.depacketizer false true z) held some_there (omega arith) in
      rw out (refl, none_left)
  push_rest (m ∷ ms) frags seq z size p held some_there fits =
      let (out, held') =
        continued depacketize b e p (packet encode seq false false m) m _ frags size
          (unpacks p.depacketizer false false m) held some_there (omega arith) in
      let rest =
        push_rest ms (frags ++ (m ∷ [])) (u16 (seq + 1)) z (size + length m) _ held' (omega arith)
          (omega arith) in
      rw out (rw (append_assoc frags (m ∷ []) (ms ++ (z ∷ []))) at rest)

  -- A frame sent in two or more packets with consecutive sequence numbers that may wrap round, the
  -- first of them not empty, is joined again, whatever the parser held before: it puts out one
  -- frame, with all the bytes, at the last packet, and is left with no fragments. The frame may be
  -- as large as the limit allows. Of the depacketizer it is asked that it finds in each packet the
  -- piece and the two flags that the packet was built from.
  pub push_all-frame_packets :
      (p : Vp9RtpParser D) (seq : ℕ) (a : Bytes) (ms : List Bytes) (z : Bytes)
      → 0 < length a
      → length a + total_length ms + length z ≤ max_frame_size
      → let (p', outs) =
          push_all (push_packet depacketize b e) p (frame_packets encode seq a ms z) in
        (outs ≡ (a ++ (flatten ms ++ z)) ∷ []) × (p'.fragments ≡ [])
  unfolding push_all frame_packets push_packet
  push_all-frame_packets p seq a ms z some_there fits =
      let (out, held) =
        begun depacketize b e p (packet encode seq true false a) a _
          (unpacks p.depacketizer true false a) in
      let (outs, none_left) =
        push_rest ms (a ∷ []) (u16 (seq + 1)) z (length a) _ held some_there fits in
      rw out (rw (flatten-snoc ms z) at outs, none_left)
