-- ===== src/Recorder/Av1/Rtp/Tests.antt =====
-- The RTP parser at concrete packets.
use live.Prelude.{
  ℕ, ◌≡◌, ◌≢◌, refl, Bool, true, false, Bytes, [], ◌∷◌, ◌++◌, arith, flatten, none, some, ok,
}
use live.Recorder.Codec.{Packet, push_all}
use live.Recorder.Av1.Leb128.{read_leb128}
use live.Recorder.Av1.Obu.{pack_temporal_unit}
use live.Recorder.Av1.Rtp
use live.Recorder.Av1.Rtp.{Av1RtpParser, push_packet, decode_obus, split_obus}
use live.Recorder.Av1.Rtp.Invariant.{IsAnswer, new-IsParser, push_packet-IsAnswer}
use live.Recorder.Av1.Rtp.Reassembly.{obu_packets, push_all-obu_packets}
use live.Recorder.Av1.Rtp.Loss.{push_packet_gap}

abbrev packet : Bool → ℕ → Bytes → Packet
packet marker seq payload = record {
  payload = payload;
  marker = marker;
  sequence_number = seq;
  timestamp = 0;
}

-- Two OBUs in one packet, the last one without a length.
two_obus :
    (push_packet Rtp.new (packet true 7 (0x20 ∷ 2 ∷ 0x08 ∷ 5 ∷ 0x30 ∷ 6 ∷ []))).1
    ≡ ok (some (pack_temporal_unit ((0x08 ∷ 5 ∷ []) ∷ (0x30 ∷ 6 ∷ []) ∷ [])))
unfolding Rtp.new push_packet decode_obus split_obus read_leb128
two_obus = refl

-- The first fragment of an OBU, kept.
abbrev held : Av1RtpParser
held = record {
  first_packet_received = true;
  fragments = (0x30 ∷ 1 ∷ []) ∷ [];
  fragments_size = 2;
  fragment_next_seq = some 8;
  temporal_unit = [];
  temporal_unit_size = 0;
}

held_pushed : push_packet Rtp.new (packet false 7 (0x50 ∷ 0x30 ∷ 1 ∷ [])) ≡ (held, ok none)
unfolding Rtp.new push_packet decode_obus split_obus read_leb128
held_pushed = refl

push_packet-IsAnswer_example :
    IsAnswer (push_packet Rtp.new (packet false 7 (0x50 ∷ 0x30 ∷ 1 ∷ [])))
push_packet-IsAnswer_example =
    push_packet-IsAnswer Rtp.new (packet false 7 (0x50 ∷ 0x30 ∷ 1 ∷ [])) new-IsParser (omega arith)

push_all-obu_packets_example :
    let (p', outs) =
      push_all push_packet held
        (obu_packets 65534 (0x30 ∷ 1 ∷ []) ((2 ∷ []) ∷ (3 ∷ []) ∷ []) (4 ∷ [])) in
    (outs
      ≡ pack_temporal_unit
          (((0x30 ∷ 1 ∷ []) ++ (flatten ((2 ∷ []) ∷ (3 ∷ []) ∷ []) ++ (4 ∷ []))) ∷ [])
        ∷ [])
    × (p'.fragments ≡ [])
    × (p'.temporal_unit ≡ [])
push_all-obu_packets_example =
    push_all-obu_packets held 65534 (0x30 ∷ 1 ∷ []) ((2 ∷ []) ∷ (3 ∷ []) ∷ []) (4 ∷ []) refl refl
      (omega arith) (omega arith) (omega arith) (omega arith)

push_packet_gap_example :
    ((unit : Bytes) → (push_packet held (packet true 9 (0x90 ∷ 4 ∷ []))).1 ≢ ok (some unit))
    × ((push_packet held (packet true 9 (0x90 ∷ 4 ∷ []))).0.temporal_unit ≡ [])
push_packet_gap_example =
    push_packet_gap held (packet true 9 (0x90 ∷ 4 ∷ [])) 0x90 4 8 [] refl refl (omega arith) refl
      (omega arith)
