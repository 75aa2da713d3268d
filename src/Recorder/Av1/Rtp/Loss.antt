-- ===== src/Recorder/Av1/Rtp/Loss.antt =====
-- A fragment that is not the next one.
use live.Prelude.{
  ℕ, ◌<◌, ◌≡◌, ◌≢◌, Bool, true, Bytes, List, ◌∷◌, arith, none, some, ok, err, panic, refl, ◌∙◌,
  bit_and, ◌>>>◌, ◌!=◌,
}
use live.Recorder.Codec.{Packet}
use live.Recorder.Av1.Error.{Result}
use live.Recorder.Av1.Rtp.{
  Av1RtpParser, Answer, split_obus, gather, decode_obus, after_decode, push_packet,
}

gather_gap :
    (p : Av1RtpParser) (pkt : Packet) (y : Bool) (w expected : ℕ) (r : Result (List Bytes))
    → 0 < p.fragments_size
    → p.fragment_next_seq ≡ some expected
    → pkt.sequence_number ≢ expected
    → ((obus : List Bytes) → (gather p pkt true y w r).1 ≢ ok (some obus))
      × ((gather p pkt true y w r).0.temporal_unit ≡ p.temporal_unit)
unfolding decode_obus
gather_gap p pkt y w expected r some_there next other = ((λ obus. ground arith), ground arith)

after_decode_none :
    (pkt : Packet) (a : Answer (List Bytes))
    → ((obus : List Bytes) → a.1 ≢ ok (some obus))
    → ((unit : Bytes) → (after_decode pkt a).1 ≢ ok (some unit))
      × ((after_decode pkt a).0.temporal_unit ≡ a.0.temporal_unit)
unfolding push_packet
after_decode_none pkt (p, ok (some obus)) h = absurd (h obus refl)
after_decode_none pkt (p, ok none) h = ((λ unit. ground arith), refl)
after_decode_none pkt (p, err e) h = ((λ unit. ground arith), refl)
after_decode_none pkt (p, panic) h = ((λ unit. ground arith), refl)

-- A packet that continues an OBU (its Z flag is set) but has another sequence number than the one
-- that the parser waits for puts out no temporal unit, and adds nothing to the one collected:
-- fragments are never joined across a gap.
pub push_packet_gap :
    (p : Av1RtpParser) (pkt : Packet) (header b expected : ℕ) (bs : Bytes)
    → pkt.payload ≡ header ∷ b ∷ bs
    → (bit_and header 0x80 != 0) ≡ true
    → 0 < p.fragments_size
    → p.fragment_next_seq ≡ some expected
    → pkt.sequence_number ≢ expected
    → ((unit : Bytes) → (push_packet p pkt).1 ≢ ok (some unit))
      × ((push_packet p pkt).0.temporal_unit ≡ p.temporal_unit)
unfolding push_packet decode_obus
push_packet_gap p pkt header b expected bs e z some_there next other =
    let w = bit_and (header >>> 4) 0x03 in
    let r = split_obus w (b ∷ bs) in
    let (no_obus, same) =
      gather_gap p pkt (bit_and header 0x40 != 0) w expected r some_there next other in
    let (no_unit, kept) =
      after_decode_none pkt (gather p pkt true (bit_and header 0x40 != 0) w r) no_obus in
    rw (e, z) (no_unit, kept ∙ same)
