-- ===== src/Recorder/H265/NalUnit.antt =====
-- h265.rs, the type of a NAL unit, and the types that are random access points.
use live.Prelude.{ℕ, Bool, false, ◌&&◌, Bytes, [], ◌∷◌, bit_and, ◌>>>◌, leb, ◌==◌}

abbrev pub nal_type : ℕ → ℕ
nal_type header = bit_and (header >>> 1) 0x3f

abbrev pub is_random_access : ℕ → Bool
is_random_access type = leb 16 type && leb type 21

-- The type of a unit stands in its first byte.
unfoldable pub has_type : ℕ → Bytes → Bool
has_type type [] = false
has_type type (header ∷ rest) = nal_type header == type

unfoldable pub starts_random_access : Bytes → Bool
starts_random_access [] = false
starts_random_access (header ∷ rest) = is_random_access (nal_type header)
