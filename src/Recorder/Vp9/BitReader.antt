-- ===== src/Recorder/Vp9/BitReader.antt =====
-- vp9.rs, `BitReader`, which reads a field in pieces, each within one byte.
pub mod Reads
use mathlib.Core.WellFounded.{Acc}
use live.Prelude.{
  ℕ, zero, suc, ◌+◌, ◌-◌, ◌*◌, ◌/◌, ◌%◌, ◌^◌, ◌≤◌, ◌<◌, ◌≡◌, refl, Bool, Bytes, List, [], ◌∷◌,
  arith, leb, ltb, ◌==◌, ◌!=◌, if◌then◌else◌, dite, dec_lt, none, some, length, get_elem?, bit_and,
  bit_or, ◌<<<◌, ◌>>>◌, u64, lt_wf, Outcome, ok, err, panic,
}
use live.Recorder.Reader
use live.Recorder.Reader.{BitReader, ◌>>=◌, ◌>>◌, return}

-- `None`, what the methods return in place of a value.
pub data Missing : Type 0 where
  missing : Missing

abbrev pub Result : Type 0 → Type 0
Result A = Outcome Missing A

abbrev pub Read : Type 0 → Type 0
Read A = Reader.Read Missing A

-- `saturating_sub` is the subtraction of ℕ.
abbrev pub remaining : BitReader → ℕ
remaining br = br.bit_len - br.bit_pos

unfoldable pub ensure : ℕ → Read (Unit {0})
ensure bits br = if leb bits (remaining br) then ok (tt, br) else err missing

abbrev pub min_bits : ℕ → ℕ → ℕ
min_bits a b = if leb a b then a else b

-- The bits of one round: as many as the byte has left, and no more than are asked for.
abbrev pub taken : BitReader → ℕ → ℕ
taken br bits_to_read = min_bits (8 - br.bit_pos % 8) bits_to_read

-- One round at a byte of the data.
abbrev pub extracted : BitReader → ℕ → ℕ → ℕ
extracted br bits_to_read byte =
    let take = taken br bits_to_read in
    bit_and (byte >>> (8 - br.bit_pos % 8 - take)) (2 ^ take - 1)

taken_lt : (br : BitReader) (n : ℕ) → 0 < n → n - taken br n < n
taken_lt br n pos = ground arith

-- The loop of `read_bits`. The mask of at most eight bits keeps all its bits in a `u8`.
read_loop : (bits_to_read : ℕ) → Acc ◌<◌ bits_to_read → ℕ → Read ℕ
unfolding dec_lt
read_loop n (Acc.intro _ smaller) value br =
    dite (dec_lt 0 n)
      (λ pos.
        let take = taken br n in
        let rest = read_loop (n - take) (smaller (n - take) (taken_lt br n pos)) in
        elim (get_elem? br.data_bytes (br.bit_pos / 8)) [
          | none ↦ panic
          | some byte ↦
              rest (bit_or (u64 (value <<< take)) (extracted br n byte))
                (record br { bit_pos = br.bit_pos + take })
        ])
      (λ _. ok (value, br))

unfoldable pub read_bits : ℕ → Read ℕ
unfolding read_loop taken_lt lt_wf ensure ◌>>=◌ ◌>>◌
read_bits bits br =
    if bits == 0 then ok (0, br) else (ensure bits >> read_loop bits (lt_wf.apply bits) 0) br

unfoldable pub read_flag : Read Bool
read_flag = do v ← read_bits 1; return (v != 0)

unfoldable pub skip_bits : ℕ → Read (Unit {0})
skip_bits bits = do _ ← read_bits bits; return tt

read_sample :
    read_bits 12 (record { data_bytes = 0xab ∷ 0xcd ∷ []; bit_len = 16; bit_pos = 3 })
    ≡ ok (0x5e6, record { data_bytes = 0xab ∷ 0xcd ∷ []; bit_len = 16; bit_pos = 15 })
unfolding read_bits lt_wf
read_sample = refl
