-- ===== src/Recorder/Reader.antt =====
-- The bit readers of codec/av1.rs and codec/vp9.rs, which have the same fields, and programs that
-- read with one: a method that reads returns its result and the new reader.
pub mod Reads
use live.Prelude.{ℕ, ◌*◌, Bytes, length, Outcome, ok, err, panic}

pub record BitReader : Type 0 where
  pub data_bytes : Bytes
  pub bit_len : ℕ
  pub bit_pos : ℕ

unfoldable pub new : Bytes → BitReader
new bytes = record { data_bytes = bytes; bit_len = length bytes * 8; bit_pos = 0 }

-- `E` is what a method returns in place of a value.
abbrev pub Read : Type 0 → Type 0 → Type 0
Read E A = BitReader → Outcome E (A × BitReader)

-- A statement that calls a method and goes on with what it returns; `?` passes an error on.
infixl 5 ◌>>=◌ ◌>>◌
unfoldable pub ◌>>=◌ : {E A B : Type 0} → Read E A → (A → Read E B) → Read E B
◌>>=◌ m f br = elim (m br) [ ok (a, br') ↦ f a br' | err e ↦ err e | panic ↦ panic ]

unfoldable pub ◌>>◌ : {E A B : Type 0} → Read E A → Read E B → Read E B
unfolding ◌>>=◌
m >> k = m >>= λ _. k

unfoldable pub return : {E A : Type 0} → A → Read E A
return a br = ok (a, br)

unfoldable pub fail : {E A : Type 0} → E → Read E A
fail e br = err e
