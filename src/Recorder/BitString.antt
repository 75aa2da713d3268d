-- ===== src/Recorder/BitString.antt =====
-- What the bit readers of codec/av1.rs and codec/vp9.rs are to read: bits are numbered from the
-- most significant one of the first byte on, and a field is a number in base 2.
use live.Prelude.{
  ℕ, zero, suc, ◌+◌, ◌-◌, ◌*◌, ◌/◌, ◌%◌, ◌^◌, ◌<◌, ◌≡◌, ap, Bytes, arith, none, some, get_elem?,
  ◌>>>◌,
}
use native.Mathlib.Nat.{add-suc, add-zero, pow-suc, add_assoc}

-- 0 past the end; the theorems about the readers ask for bits that are there.
abbrev pub byte_at : Bytes → ℕ → ℕ
byte_at bytes i = elim (get_elem? bytes i) [ none ↦ 0 | some byte ↦ byte ]

unfoldable pub bit_at : Bytes → ℕ → ℕ
bit_at bytes pos = (byte_at bytes (pos / 8) >>> (7 - pos % 8)) % 2

-- The field of `n` bits from `pos` on.
unfoldable pub field : Bytes → ℕ → ℕ → ℕ
field bytes pos zero = 0
field bytes pos (suc n) = field bytes pos n * 2 + bit_at bytes (pos + n)

pub field-lt : (bytes : Bytes) (pos n : ℕ) → field bytes pos n < 2 ^ n
unfolding field bit_at
field-lt bytes pos zero = omega arith
field-lt bytes pos (suc n) = omega (arith, field-lt bytes pos n, pow-suc 2 n)

-- A field is its upper part, shifted over its lower part.
pub field-add :
    (bytes : Bytes) (pos m n : ℕ)
    → field bytes pos (m + n) ≡ field bytes pos m * 2 ^ n + field bytes (pos + m) n
unfolding field
field-add bytes pos m zero = rw add-zero (omega arith)
field-add bytes pos m (suc n) =
    rw (add-suc, pow-suc 2 n)
      (omega (arith, field-add bytes pos m n, ap (bit_at bytes) (add_assoc pos m n)))
