-- ===== src/Recorder/Av1/BitReader.antt =====
-- av1.rs, `BitReader`: it reads a field bit by bit.
pub mod Reads
use live.Prelude.{
  ℕ, zero, suc, ◌+◌, ◌-◌, ◌*◌, ◌/◌, ◌%◌, ◌≡◌, refl, Bool, Bytes, List, [], ◌∷◌, ltb, ◌==◌, ◌!=◌,
  if◌then◌else◌, none, some, length, get_elem?, bit_and, bit_or, ◌<<<◌, ◌>>>◌, u64, Outcome, ok,
  err, panic,
}
use live.Recorder.Reader
use live.Recorder.Reader.{BitReader, ◌>>=◌, ◌>>◌, return}
use live.Recorder.Av1.Error.{Error, Result, not_enough_bits}

abbrev pub Read : Type 0 → Type 0
Read A = Reader.Read Error A

unfoldable pub ensure : ℕ → Read (Unit {0})
ensure bits br = if ltb br.bit_len (br.bit_pos + bits) then err not_enough_bits else ok (tt, br)

-- The loop of `read_bits`, with `count` rounds left. A cast to `u64` cuts the shifted value.
read_loop : ℕ → ℕ → Read ℕ
read_loop zero value br = ok (value, br)
read_loop (suc count) value br = elim (get_elem? br.data_bytes (br.bit_pos / 8)) [
  | none ↦ panic
  | some byte ↦
      let bit = bit_and (byte >>> (7 - br.bit_pos % 8)) 1 in
      read_loop count (bit_or (u64 (value <<< 1)) bit) (record br { bit_pos = br.bit_pos + 1 })
]

unfoldable pub read_bits : ℕ → Read ℕ
unfolding read_loop ensure ◌>>=◌ ◌>>◌
read_bits count br = if count == 0 then ok (0, br) else (ensure count >> read_loop count 0) br

unfoldable pub read_flag : Read Bool
read_flag = do v ← read_bits 1; return (v != 0)

unfoldable pub skip_bits : ℕ → Read (Unit {0})
unfolding ensure ◌>>=◌ ◌>>◌
skip_bits count = ensure count >> λ br. ok (tt, record br { bit_pos = br.bit_pos + count })

read_sample :
    read_bits 12 (record { data_bytes = 0xab ∷ 0xcd ∷ []; bit_len = 16; bit_pos = 3 })
    ≡ ok (0x5e6, record { data_bytes = 0xab ∷ 0xcd ∷ []; bit_len = 16; bit_pos = 15 })
unfolding read_bits
read_sample = refl
