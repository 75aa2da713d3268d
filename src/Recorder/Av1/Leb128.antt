-- ===== src/Recorder/Av1/Leb128.antt =====
-- av1.rs, `read_leb128`, `leb128_size` and `write_leb128`: sizes in groups of seven bits, lowest
-- group first. `usize` has 64 bits.
pub mod RoundTrip
pub mod Bounds
use mathlib.Core.WellFounded.{Acc}
use live.Prelude.{
  ℕ, suc, ◌+◌, ◌<◌, ◌≡◌, refl, Bytes, List, [], ◌∷◌, ◌++◌, arith, ltb, ◌==◌, if◌then◌else◌, dec_lt,
  dite, lt_wf, bit_and, bit_or, ◌<<<◌, ◌>>>◌, u8, u64, ok, err,
}
use live.Recorder.Av1.Error.{Result, invalid_leb128}

-- The loop of `read_leb128` at index `i`. What `rest` binds is computed only where it is read.
read_loop : Bytes → ℕ → ℕ → ℕ → Result (ℕ × ℕ)
read_loop [] value shift i = err invalid_leb128
read_loop (byte ∷ buf) value shift i =
    let value' = bit_or value (u64 (bit_and byte 0x7f <<< shift)) in
    let rest = read_loop buf value' (shift + 7) (i + 1) in
    if bit_and byte 0x80 == 0
    then ok (value', i + 1)
    else if ltb 28 (shift + 7)
    then err invalid_leb128
    else rest

unfoldable pub read_leb128 : Bytes → Result (ℕ × ℕ)
unfolding read_loop
read_leb128 buf = read_loop buf 0 0 0

size_loop : ℕ → (value : ℕ) → Acc ◌<◌ value → ℕ
size_loop size value (Acc.intro _ smaller) =
    dite (dec_lt 127 value)
      (λ h. size_loop (size + 1) (value >>> 7) (smaller (value >>> 7) (omega arith))) (λ _. size)

unfoldable pub leb128_size : ℕ → ℕ
unfolding size_loop lt_wf dec_lt
leb128_size value = size_loop 1 value (lt_wf.apply value)

write_loop : Bytes → (value : ℕ) → Acc ◌<◌ value → Bytes
write_loop buf value (Acc.intro _ smaller) =
    let byte = u8 (bit_and value 0x7f) in
    dite (dec_lt 0 (value >>> 7))
      (λ h.
        write_loop (buf ++ (bit_or byte 0x80 ∷ [])) (value >>> 7)
          (smaller (value >>> 7) (omega arith)))
      (λ _. buf ++ (byte ∷ []))

unfoldable pub write_leb128 : Bytes → ℕ → Bytes
unfolding write_loop lt_wf dec_lt
write_leb128 buf value = write_loop buf value (lt_wf.apply value)

write_300 : write_leb128 (1 ∷ []) 300 ≡ 1 ∷ 0xac ∷ 2 ∷ []
unfolding write_leb128
write_300 = refl

read_300 : read_leb128 (0xac ∷ 2 ∷ 9 ∷ []) ≡ ok (300, 2)
unfolding read_leb128
read_300 = refl
