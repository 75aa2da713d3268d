-- ===== src/Recorder/Av1/Rtp/Reassembly.antt =====
-- One OBU cut into fragments, one fragment to a packet, as RFC-style senders do it: W is 1, Y is
-- set on all but the last packet, Z on all but the first, and the last one has the marker.
use live.Prelude.{
  ℕ, ◌+◌, ◌≤◌, ◌<◌, ◌≡◌, refl, ap, Bool, true, false, Bytes, List, [], ◌∷◌, ◌++◌, append_assoc,
  arith, none, some, length, flatten, total_length, All, u16, ok, total_length-append,
  length-flatten, flatten-snoc,
}
use live.Recorder.Codec.{Packet, push_all}
use live.Recorder.Av1.Obu.{pack_temporal_unit}
use live.Recorder.Av1.Rtp.{
  Av1RtpParser, split_obus, decode_obus, push_packet, max_temporal_unit_size,
}

pub fragment : ℕ → Bool → ℕ → Bytes → Packet
fragment header marker seq piece = record {
  payload = header ∷ piece;
  marker = marker;
  sequence_number = seq;
  timestamp = 0;
}

-- The parser with these fragments, waiting for the packet after `seq`.
holding : Av1RtpParser → List Bytes → ℕ → Av1RtpParser
holding p frags seq = record p {
  first_packet_received = true;
  fragments = frags;
  fragments_size = total_length frags;
  fragment_next_seq = some (u16 (seq + 1));
}

push_first :
    (p : Av1RtpParser) (seq b : ℕ) (bs : Bytes)
    → push_packet p (fragment 0x50 false seq (b ∷ bs)) ≡ (holding p ((b ∷ bs) ∷ []) seq, ok none)
unfolding push_packet decode_obus split_obus fragment holding
push_first p seq b bs = ground arith

push_middle :
    (p : Av1RtpParser) (frags : List Bytes) (seq b : ℕ) (bs : Bytes)
    → 0 < total_length frags
    → total_length frags + length (b ∷ bs) ≤ max_temporal_unit_size
    → push_packet (holding p frags seq) (fragment 0xd0 false (u16 (seq + 1)) (b ∷ bs))
      ≡ (holding p (frags ++ ((b ∷ bs) ∷ [])) (u16 (seq + 1)), ok none)
unfolding push_packet decode_obus split_obus fragment holding
push_middle p frags seq b bs some_there fits =
    ground (arith, total_length-append frags ((b ∷ bs) ∷ []))

-- The parser once a temporal unit is out.
finished : Av1RtpParser → ℕ → Av1RtpParser
finished p seq = record p {
  first_packet_received = true;
  fragments = [];
  fragments_size = 0;
  fragment_next_seq = some (u16 (seq + 1));
  temporal_unit = [];
  temporal_unit_size = 0;
}

push_last :
    (p : Av1RtpParser) (frags : List Bytes) (seq b : ℕ) (bs : Bytes)
    → p.temporal_unit ≡ []
    → p.temporal_unit_size ≡ 0
    → 0 < total_length frags
    → total_length frags + length (b ∷ bs) ≤ max_temporal_unit_size
    → push_packet (holding p frags seq) (fragment 0x90 true (u16 (seq + 1)) (b ∷ bs)) ≡ (
      finished p (u16 (seq + 1)),
      ok (some (pack_temporal_unit (flatten (frags ++ ((b ∷ bs) ∷ [])) ∷ []))),
    )
unfolding push_packet decode_obus split_obus fragment holding finished
push_last p frags seq b bs no_unit no_size some_there fits =
    ground
      (arith, total_length-append frags ((b ∷ bs) ∷ []), length-flatten (frags ++ ((b ∷ bs) ∷ [])))

rest_packets : ℕ → List Bytes → Bytes → List Packet
rest_packets seq [] b = fragment 0x90 true (u16 (seq + 1)) b ∷ []
rest_packets seq (m ∷ ms) b =
    fragment 0xd0 false (u16 (seq + 1)) m ∷ rest_packets (u16 (seq + 1)) ms b

-- The packets of the OBU `a ++ flatten ms ++ b`, from sequence number `seq` on.
unfoldable pub obu_packets : ℕ → Bytes → List Bytes → Bytes → List Packet
unfolding rest_packets
obu_packets seq a ms b = fragment 0x50 false seq a ∷ rest_packets seq ms b

last_seq : ℕ → List Bytes → ℕ
last_seq seq [] = u16 (seq + 1)
last_seq seq (m ∷ ms) = last_seq (u16 (seq + 1)) ms

push_rest :
    (ms frags : List Bytes) (seq : ℕ) (b : Bytes) (p : Av1RtpParser)
    → p.temporal_unit ≡ []
    → p.temporal_unit_size ≡ 0
    → All (λ m. 0 < length m) ms
    → 0 < length b
    → 0 < total_length frags
    → total_length frags + total_length ms + length b ≤ max_temporal_unit_size
    → push_all push_packet (holding p frags seq) (rest_packets seq ms b) ≡ (
      finished p (last_seq seq ms),
      pack_temporal_unit (flatten (frags ++ (ms ++ (b ∷ []))) ∷ []) ∷ [],
    )
unfolding push_all rest_packets last_seq
push_rest ms frags seq [] p u0 s0 all hb hf fits = absurd (omega arith)
push_rest [] frags seq (b ∷ bs) p u0 s0 all hb hf fits =
    rw (push_last p frags seq b bs u0 s0 hf (omega arith))
push_rest ([] ∷ ms) frags seq b p u0 s0 all hb hf fits = absurd (omega arith)
push_rest ((m ∷ m') ∷ ms) frags seq (b ∷ bs) p u0 s0 all hb hf fits =
    let total = total_length-append frags ((m ∷ m') ∷ []) in
    rw
      (
        push_middle p frags seq m m' hf (omega arith),
        push_rest ms (frags ++ ((m ∷ m') ∷ [])) (u16 (seq + 1)) (b ∷ bs) p u0 s0 all.1 hb
            (omega (arith, total)) (omega (arith, total)),
        append_assoc frags ((m ∷ m') ∷ []) (ms ++ ((b ∷ bs) ∷ [])),
      )
      refl

push_obu :
    (p : Av1RtpParser) (seq : ℕ) (a : Bytes) (ms : List Bytes) (b : Bytes)
    → p.temporal_unit ≡ []
    → p.temporal_unit_size ≡ 0
    → 0 < length a
    → All (λ m. 0 < length m) ms
    → 0 < length b
    → length a + total_length ms + length b ≤ max_temporal_unit_size
    → push_all push_packet p (obu_packets seq a ms b)
      ≡ (finished p (last_seq seq ms), pack_temporal_unit ((a ++ (flatten ms ++ b)) ∷ []) ∷ [])
unfolding push_all obu_packets
push_obu p seq [] ms b u0 s0 ha all hb fits = absurd (omega arith)
push_obu p seq (x ∷ xs) ms b u0 s0 ha all hb fits =
    let rest = push_rest ms ((x ∷ xs) ∷ []) seq b p u0 s0 all hb (omega arith) (omega arith) in
    rw (push_first p seq x xs, rest, flatten-snoc ms b)

-- An OBU sent in two or more fragments, none of them empty, in packets with consecutive sequence
-- numbers that may wrap round, is joined again: a parser that has collected no OBU puts out one
-- temporal unit, with the whole OBU, at the last packet and nothing before it, and is left with
-- empty buffers. The OBU may be as large as the limit allows.
pub push_all-obu_packets :
    (p : Av1RtpParser) (seq : ℕ) (a : Bytes) (ms : List Bytes) (b : Bytes)
    → p.temporal_unit ≡ []
    → p.temporal_unit_size ≡ 0
    → 0 < length a
    → All (λ m. 0 < length m) ms
    → 0 < length b
    → length a + total_length ms + length b ≤ max_temporal_unit_size
    → let (p', outs) = push_all push_packet p (obu_packets seq a ms b) in
      (outs ≡ pack_temporal_unit ((a ++ (flatten ms ++ b)) ∷ []) ∷ [])
      × (p'.fragments ≡ [])
      × (p'.temporal_unit ≡ [])
push_all-obu_packets p seq a ms b u0 s0 ha all hb fits =
    let e = push_obu p seq a ms b u0 s0 ha all hb fits in
    unfold finished in (ap (λ r. r.1) e, ap (λ r. r.0.fragments) e, ap (λ r. r.0.temporal_unit) e)
