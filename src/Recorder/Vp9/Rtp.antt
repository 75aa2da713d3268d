-- ===== src/Recorder/Vp9/Rtp.antt =====
-- vp9.rs, `Vp9RtpParser`: frames out of RTP payloads. The depacketizer is the webrtc crate's
-- `Vp9Packet`: its state `D`, its method, and its fields `b` (the packet begins a frame) and `e`
-- (it ends one), which the method sets.
pub mod Invariant
pub mod Reassembly
mod Tests
use live.Prelude.{
  ℕ, ◌+◌, ◌≡◌, refl, Bool, true, false, ◌&&◌, ◌||◌, not, Bytes, List, [], ◌∷◌, ◌++◌, ltb, ◌==◌,
  if◌then◌else◌, Option, none, some, length, flatten, u16, Outcome, ok, err, panic,
}
use live.Recorder.Codec.{Packet}

abbrev pub max_frame_size : ℕ
max_frame_size = 2097152

pub record Vp9RtpParser (D : Type 0) : Type 0 where
  pub depacketizer : D
  pub fragments : List Bytes
  pub fragments_size : ℕ
  pub fragment_next_seq : Option ℕ
  pub first_packet_received : Bool

is_expected : Option ℕ → ℕ → Bool
is_expected none seq = true
is_expected (some expected) seq = seq == expected

module _ {D : Type 0} where
  -- `d` is the default depacketizer.
  unfoldable pub new : D → Vp9RtpParser D
  new d = record {
    depacketizer = d;
    fragments = [];
    fragments_size = 0;
    fragment_next_seq = none;
    first_packet_received = false;
  }

  abbrev pub reset_fragments : Vp9RtpParser D → Vp9RtpParser D
  reset_fragments p = record p { fragments = []; fragments_size = 0; fragment_next_seq = none }

  -- A method returns the parser as it leaves it, and its result. These parts have no errors.
  -- The branch `if is_begin`.
  begin_frame : Vp9RtpParser D → ℕ → Bytes → Bool → Vp9RtpParser D × Option Bytes
  begin_frame p seq payload is_end =
      let started = record p {
        fragments = [];
        fragments_size = 0;
        fragment_next_seq = none;
        first_packet_received = true;
      } in
      if not is_end
      then (
        record started {
          fragments_size = length payload;
          fragments = payload ∷ [];
          fragment_next_seq = some (u16 (seq + 1));
        },
        none,
      )
      else (started, some payload)

  -- What follows the branch `if is_begin`.
  continue_frame : Vp9RtpParser D → ℕ → Bytes → Bool → Vp9RtpParser D × Option Bytes
  continue_frame p seq payload is_end =
      let size = p.fragments_size + length payload in
      let joined = record p {
        fragments = p.fragments ++ (payload ∷ []);
        fragments_size = size;
        fragment_next_seq = some (u16 (seq + 1));
      } in
      if p.fragments_size == 0
      then (p, none)
      else if not (is_expected p.fragment_next_seq seq)
      then (reset_fragments p, none)
      else if ltb max_frame_size size
      then (reset_fragments p, none)
      else if is_end
      then (reset_fragments p, some (flatten joined.fragments))
      else (joined, none)

module _ {D E : Type 0} (depacketize : D → Bytes → D × Outcome E Bytes) (b e : D → Bool) where
  -- The method, once the depacketizer has answered.
  after_depacketize :
      Vp9RtpParser D → Packet → D × Outcome E Bytes → Vp9RtpParser D × Outcome E (Option Bytes)
  after_depacketize p pkt (d, ok payload) =
      let p' = record p { depacketizer = d } in
      let r =
        if b d
        then begin_frame p' pkt.sequence_number payload (e d)
        else continue_frame p' pkt.sequence_number payload (e d) in
      (r.0, ok r.1)
  after_depacketize p pkt (d, err x) = (reset_fragments (record p { depacketizer = d }), err x)
  after_depacketize p pkt (d, panic) = (record p { depacketizer = d }, panic)

  unfoldable pub push_packet : Vp9RtpParser D → Packet → Vp9RtpParser D × Outcome E (Option Bytes)
  unfolding begin_frame is_expected continue_frame after_depacketize
  push_packet p pkt = after_depacketize p pkt (depacketize p.depacketizer pkt.payload)
