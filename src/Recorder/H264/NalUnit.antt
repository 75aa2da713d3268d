-- ===== src/Recorder/H264/NalUnit.antt =====
-- h264.rs, the type of a NAL unit.
use live.Prelude.{ℕ, Bool, false, Bytes, [], ◌∷◌, bit_and, ◌==◌}

abbrev pub nal_type : ℕ → ℕ
nal_type header = bit_and header 0x1f

-- The type of a unit is the low five bits of its first byte.
unfoldable pub has_type : ℕ → Bytes → Bool
has_type type [] = false
has_type type (header ∷ rest) = nal_type header == type
