-- ===== src/Recorder/Vp9/Rtp/Invariant.antt =====
-- What the VP9 parser holds between two packets, and what a lost packet does.
use live.Prelude.{
  ℕ, ◌≤◌, ◌<◌, ◌≡◌, ◌≢◌, refl, Bool, false, Bytes, [], ◌∷◌, ◌++◌, arith, Option, none, some, length,
  total_length, total_length-append, length-flatten, Outcome, ok, err, panic, Returns,
}
use live.Recorder.Codec.{Packet}
use live.Recorder.Vp9.Rtp.{Vp9RtpParser, new, push_packet, after_depacketize, max_frame_size}

-- The size that the parser keeps is that of its fragments, and no frame is above the limit.
pub record IsParser {D : Type 0} (p : Vp9RtpParser D) : Type 0 where
  pub total : p.fragments_size ≡ total_length p.fragments
  pub small : p.fragments_size ≤ max_frame_size

pub new-IsParser : {D : Type 0} (d : D) → IsParser (new d)
unfolding new
new-IsParser d = omega arith

-- A frame that was put out is within the limit.
abbrev pub IsFrame : Option Bytes → Type 0
IsFrame none = Unit
IsFrame (some frame) = length frame ≤ max_frame_size

pub record IsPushed {D E : Type 0} (r : Vp9RtpParser D × Outcome E (Option Bytes)) : Type 0 where
  pub parser : IsParser r.0
  pub no_panic : Returns IsFrame r.1

module _ {D E : Type 0} (depacketize : D → Bytes → D × Outcome E Bytes) (b e : D → Bool) where
  after_depacketize-IsPushed :
      (p : Vp9RtpParser D) (pkt : Packet) (r : D × Outcome E Bytes)
      → IsParser p
      → Returns (λ payload. length payload ≤ max_frame_size) r.1
      → IsPushed (after_depacketize depacketize b e p pkt r)
  unfolding push_packet
  after_depacketize-IsPushed p pkt (d, ok x) h small = ground (
    arith,
    h.total,
    h.small,
    total_length-append p.fragments (x ∷ []),
    length-flatten (p.fragments ++ (x ∷ [])),
  )
  after_depacketize-IsPushed p pkt (d, err x) h small = record {
    parser = omega arith;
    no_panic = tt;
  }
  after_depacketize-IsPushed p pkt (d, panic) h small = absurd small

  -- Whatever packet comes, of at most two megabytes, `push_packet` does not panic, leaves a parser
  -- whose size is that of its fragments and within the limit, and a frame that it puts out is within
  -- the limit. Of the depacketizer it is asked that it does not panic, and that a payload that it
  -- finds is no longer than the packet's.
  pub push_packet-IsPushed :
      ((d : D) (bytes : Bytes)
        → Returns (λ payload. length payload ≤ length bytes) (depacketize d bytes).1)
      → (p : Vp9RtpParser D) (pkt : Packet) → IsParser p
      → length pkt.payload ≤ max_frame_size
      → IsPushed (push_packet depacketize b e p pkt)
  unfolding push_packet
  push_packet-IsPushed shorter p pkt h small =
      after_depacketize-IsPushed p pkt _ h (go _ (shorter p.depacketizer pkt.payload))
    where
      go :
          (r : Outcome E Bytes)
          → Returns (λ payload. length payload ≤ length pkt.payload) r
          → Returns (λ payload. length payload ≤ max_frame_size) r
      go (ok x) k = omega arith
      go (err x) k = tt
      go panic k = k

  after_depacketize_lost :
      (p : Vp9RtpParser D) (pkt : Packet) (expected : ℕ) (r : D × Outcome E Bytes)
      → 0 < p.fragments_size
      → p.fragment_next_seq ≡ some expected
      → pkt.sequence_number ≢ expected
      → b r.0 ≡ false
      → r.1 ≢ panic
      → ((frame : Bytes) → (after_depacketize depacketize b e p pkt r).1 ≢ ok (some frame))
        × ((after_depacketize depacketize b e p pkt r).0.fragments ≡ [])
  unfolding push_packet
  after_depacketize_lost p pkt expected (d, ok x) some_there next other inside returns =
      ((λ frame. ground arith), ground arith)
  after_depacketize_lost p pkt expected (d, err x) some_there next other inside returns =
      ((λ frame. ground arith), refl)
  after_depacketize_lost p pkt expected (d, panic) some_there next other inside returns =
      absurd (returns refl)

  -- A packet that does not begin a frame, and has another sequence number than the one that the
  -- parser waits for, puts out no frame, and the fragments held are dropped: no frame is put
  -- together across a lost packet. Of the depacketizer it is asked that it does not panic on it.
  push_packet_lost :
      (p : Vp9RtpParser D) (pkt : Packet) (expected : ℕ)
      → 0 < p.fragments_size
      → p.fragment_next_seq ≡ some expected
      → pkt.sequence_number ≢ expected
      → b (depacketize p.depacketizer pkt.payload).0 ≡ false
      → (depacketize p.depacketizer pkt.payload).1 ≢ panic
      → ((frame : Bytes) → (push_packet depacketize b e p pkt).1 ≢ ok (some frame))
        × ((push_packet depacketize b e p pkt).0.fragments ≡ [])
  unfolding push_packet
  push_packet_lost p pkt expected some_there next other inside returns =
      after_depacketize_lost p pkt expected _ some_there next other inside returns
