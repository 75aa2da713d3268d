-- ===== src/Recorder/H265/Rtp.antt =====
-- h265.rs, `H265RtpParser`: Annex B frames out of RTP payloads. The depacketizer is the webrtc crate's
-- `H265Packet`: its state `D`, its method, and `payload`, what it has found.
pub mod Fragments
use live.Prelude.{
  ℕ, ◌<◌, ◌≡◌, Bool, true, false, Bytes, List, [], ◌∷◌, ◌++◌, if◌then◌else◌, Option, none, some,
  bit_and, bit_or, ◌<<<◌, ◌>>>◌, u8, Outcome, ok, err, panic,
}
use live.Recorder.Codec.{Packet}
use live.Recorder.AnnexB.{long_code}
use live.Recorder.H265.NalUnit.{nal_type, is_random_access}

-- The payload structures of the webrtc crate, with what the parser reads of each: the payload header
-- as a `u16` and its type, the units of an aggregation packet, the header of a fragmentation unit.
pub data H265Payload : Type 0 where
  single : (header nalu_type : ℕ) → Bytes → H265Payload
  aggregation : Option Bytes → List Bytes → H265Payload
  fragmentation : (header : ℕ) → (starts : Bool) → (fu_type : ℕ) → Bytes → H265Payload
  paci : H265Payload

pub record H265RtpParser (D : Type 0) : Type 0 where
  pub depacketizer : D
  pub buffer : Bytes
  pub keyframe : Bool

-- `to_be_bytes` of a `u16`.
abbrev pub be_u16 : ℕ → Bytes
be_u16 v = u8 (v >>> 8) ∷ u8 v ∷ []

-- The header of the NAL unit that a fragmentation unit begins: the type is put in place.
abbrev pub reconstructed : ℕ → ℕ → ℕ
reconstructed header fu_type = bit_or (bit_and header 0x81ff) (bit_and fu_type 0x3f <<< 9)

-- The units of an aggregation packet.
all_units : Option Bytes → List Bytes → List Bytes
all_units none others = others
all_units (some first) others = first ∷ others

module _ {D : Type 0} where
  unfoldable pub new : D → H265RtpParser D
  new d = record { depacketizer = d; buffer = []; keyframe = false }

  append_start_code : H265RtpParser D → H265RtpParser D
  append_start_code p = record p { buffer = p.buffer ++ long_code }

  append_nalu : Bytes → H265RtpParser D → H265RtpParser D
  append_nalu nalu p = let q = append_start_code p in record q { buffer = q.buffer ++ nalu }

  mark_keyframe : ℕ → H265RtpParser D → H265RtpParser D
  mark_keyframe type p = if is_random_access type then record p { keyframe = true } else p

  -- The loop over the units of an aggregation packet.
  append_units : List Bytes → H265RtpParser D → H265RtpParser D
  append_units [] p = p
  append_units ((header ∷ second ∷ rest) ∷ units) p =
      append_units units (append_nalu (header ∷ second ∷ rest) (mark_keyframe (nal_type header) p))
  append_units (unit ∷ units) p = append_units units (append_nalu unit p)

  -- A piece of a fragmented NAL unit; the first one brings the header.
  append_fragment : ℕ → Bool → ℕ → Bytes → H265RtpParser D → H265RtpParser D
  append_fragment header starts fu_type piece p =
      if starts
      then (let q = append_start_code p in
          mark_keyframe fu_type
            (record q { buffer = (q.buffer ++ be_u16 (reconstructed header fu_type)) ++ piece }))
      else record p { buffer = p.buffer ++ piece }

  -- The `match` on the payload.
  take_payload : H265Payload → H265RtpParser D → H265RtpParser D
  take_payload (single header nalu_type payload) p =
      append_nalu (be_u16 header ++ payload) (mark_keyframe nalu_type p)
  take_payload (aggregation first others) p = append_units (all_units first others) p
  take_payload (fragmentation header starts fu_type piece) p =
      append_fragment header starts fu_type piece p
  take_payload paci p = p

  -- The part from `if pkt.header.marker` on.
  finish :
      {E : Type 0} → Bool → H265RtpParser D → H265RtpParser D × Outcome E (Option (Bytes × Bool))
  finish marker p =
      if marker
      then (record p { buffer = []; keyframe = false }, ok (some (p.buffer, p.keyframe)))
      else (p, ok none)

module _ {D E : Type 0} (depacketize : D → Bytes → D × Outcome E (Unit {0}))
    (payload : D → H265Payload) where
  -- The method, once the depacketizer has answered.
  after_depacketize :
      H265RtpParser D
      → Packet
      → D × Outcome E (Unit {0})
      → H265RtpParser D × Outcome E (Option (Bytes × Bool))
  after_depacketize p pkt (d, ok _) =
      finish pkt.marker (take_payload (payload d) (record p { depacketizer = d }))
  after_depacketize p pkt (d, err e) = (record p { depacketizer = d }, err e)
  after_depacketize p pkt (d, panic) = (record p { depacketizer = d }, panic)

  -- The method on a payload that is not empty.
  push_payload :
      H265RtpParser D → Packet → Bytes → H265RtpParser D × Outcome E (Option (Bytes × Bool))
  push_payload p pkt [] = (p, ok none)
  push_payload p pkt (b ∷ bs) = after_depacketize p pkt (depacketize p.depacketizer (b ∷ bs))

  unfoldable pub push_packet :
      H265RtpParser D → Packet → H265RtpParser D × Outcome E (Option (Bytes × Bool))
  unfolding append_start_code append_nalu mark_keyframe append_units all_units append_fragment
      take_payload finish after_depacketize push_payload
  push_packet p pkt = push_payload p pkt pkt.payload
