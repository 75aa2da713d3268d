-- ===== src/Recorder/Codec.antt =====
-- liveion/src/recorder/codec/mod.rs: what the codec adapters and the RTP parsers exchange with
-- the rest of the recorder.
use live.Prelude.{ℕ, Bool, Bytes, List, [], ◌∷◌, ◌++◌, Option, some, Outcome, ok}

-- The triple that `convert_frame` returns: the payload, whether the frame is a keyframe, and
-- whether this frame completed the codec configuration.
pub record Converted : Type 0 where
  pub payload : Bytes
  pub is_sync : Bool
  pub config_ready : Bool

-- What the parsers read of an RTP packet of the webrtc crate.
pub record Packet : Type 0 where
  pub payload : Bytes
  pub marker : Bool
  pub sequence_number : ℕ
  pub timestamp : ℕ

-- The units that a parser puts out for a list of packets; errors are dropped.
out_of : {E O : Type 0} → Outcome E (Option O) → List O
out_of (ok (some unit)) = unit ∷ []
out_of _ = []

unfoldable pub push_all :
    {P E O : Type 0} → (P → Packet → P × Outcome E (Option O)) → P → List Packet → P × List O
unfolding out_of
push_all push p [] = (p, [])
push_all push p (pkt ∷ pkts) =
    let (p', r) = push p pkt in let (p'', outs) = push_all push p' pkts in (p'', out_of r ++ outs)
