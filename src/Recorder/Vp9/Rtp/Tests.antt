-- ===== src/Recorder/Vp9/Rtp/Tests.antt =====
-- The VP9 parser at concrete packets, with payload descriptors of one byte: flag B is 0x08, E 0x04.
use live.Prelude.{
  ℕ, ◌+◌, ◌/◌, ◌%◌, ◌≤◌, ◌≡◌, refl, Bool, true, false, Bytes, [], ◌∷◌, ◌++◌, arith, ◌==◌,
  if◌then◌else◌, flatten, none, some, length, Outcome, ok, err, Returns,
}
use live.Recorder.Codec.{Packet, push_all}
use live.Recorder.Vp9.Rtp
use live.Recorder.Vp9.Rtp.{Vp9RtpParser, push_packet, max_frame_size}
use live.Recorder.Vp9.Rtp.Invariant.{IsPushed, new-IsParser, push_packet-IsPushed}
use live.Recorder.Vp9.Rtp.Reassembly.{Unpacked, frame_packets, push_all-frame_packets}

abbrev Flags : Type 0
Flags = Bool × Bool

abbrev too_short : ℕ
too_short = 0

abbrev depacketize : Flags → Bytes → Flags × Outcome ℕ Bytes
depacketize d [] = (d, err too_short)
depacketize d (descriptor ∷ piece) = ((descriptor / 8 % 2 == 1, descriptor / 4 % 2 == 1), ok piece)

abbrev begins : Flags → Bool
begins d = d.0

abbrev ends : Flags → Bool
ends d = d.1

abbrev encode : Bool → Bool → Bytes → Bytes
encode begin end piece = ((if begin then 8 else 0) + (if end then 4 else 0)) ∷ piece

unpacks :
    (d : Flags) (begin end : Bool) (piece : Bytes)
    → Unpacked begins ends begin end piece (depacketize d (encode begin end piece))
unpacks d true true piece = record { payload = refl; begins = refl; ends = refl }
unpacks d true false piece = record { payload = refl; begins = refl; ends = refl }
unpacks d false true piece = record { payload = refl; begins = refl; ends = refl }
unpacks d false false piece = record { payload = refl; begins = refl; ends = refl }

shorter :
    (d : Flags) (bytes : Bytes)
    → Returns (λ payload. length payload ≤ length bytes) (depacketize d bytes).1
shorter d [] = tt
shorter d (descriptor ∷ piece) = omega arith

abbrev packet : ℕ → Bytes → Packet
packet seq payload = record {
  payload = payload;
  marker = false;
  sequence_number = seq;
  timestamp = 0;
}

abbrev fresh : Vp9RtpParser Flags
fresh = Rtp.new (false, false)

-- The first packet of a frame, kept.
abbrev held : Vp9RtpParser Flags
held = record {
  depacketizer = (true, false);
  fragments = (1 ∷ 2 ∷ []) ∷ [];
  fragments_size = 2;
  fragment_next_seq = some 8;
  first_packet_received = true;
}

held_pushed :
    push_packet depacketize begins ends fresh (packet 7 (8 ∷ 1 ∷ 2 ∷ [])) ≡ (held, ok none)
unfolding push_packet Rtp.new
held_pushed = refl

whole_frame :
    (push_packet depacketize begins ends held (packet 9 (12 ∷ 5 ∷ []))).1 ≡ ok (some (5 ∷ []))
unfolding push_packet
whole_frame = refl

push_packet-IsPushed_example :
    IsPushed (push_packet depacketize begins ends fresh (packet 7 (8 ∷ 1 ∷ 2 ∷ [])))
push_packet-IsPushed_example =
    push_packet-IsPushed depacketize begins ends shorter fresh (packet 7 (8 ∷ 1 ∷ 2 ∷ []))
      (new-IsParser (false, false)) (omega arith)

push_all-frame_packets_example :
    let (p', outs) =
      push_all
        (push_packet depacketize begins ends)
        held
        (frame_packets encode 65534 (1 ∷ []) ((2 ∷ []) ∷ [] ∷ []) (3 ∷ [])) in
    (outs ≡ ((1 ∷ []) ++ (flatten ((2 ∷ []) ∷ [] ∷ []) ++ (3 ∷ []))) ∷ []) × (p'.fragments ≡ [])
push_all-frame_packets_example =
    push_all-frame_packets depacketize begins ends encode unpacks held 65534 (1 ∷ [])
      ((2 ∷ []) ∷ [] ∷ []) (3 ∷ []) (omega arith) (omega arith)
