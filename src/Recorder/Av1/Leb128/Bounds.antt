-- ===== src/Recorder/Av1/Leb128/Bounds.antt =====
-- What `read_leb128` may answer, on any bytes.
use live.Prelude.{
  ℕ, ◌+◌, ◌%◌, ◌^◌, ◌≤◌, ◌<◌, ◌≡◌, Bytes, [], ◌∷◌, arith, length, bit_and, bit_or, ◌<<<◌, u64,
  Returns, two-pow_mono, pow-add,
}
use native.Mathlib.Nat.{mul-le-mul_right}
use live.Recorder.Av1.Leb128.{read_loop, read_leb128}
use live.Recorder.Av1.Leb128.RoundTrip.{added_group}

-- A value of at most 35 bits, read from at least one byte and from no more than there are.
abbrev pub IsSize : ℕ → ℕ × ℕ → Type 0
IsSize available (value, len) = (value < 2 ^ 35) × (0 < len) × (len ≤ available)

value_bound :
    (byte value shift : ℕ)
    → value < 2 ^ shift
    → shift ≤ 28
    → bit_or value (u64 (bit_and byte 0x7f <<< shift)) < 2 ^ (shift + 7)
value_bound byte value shift below fits = rw (pow-add shift 7) (
    omega (
      arith,
      added_group byte value shift below fits,
      mul-le-mul_right {m = byte % 128} {n = 127} (2 ^ shift) (omega arith),
    ))

read_loop-IsSize :
    (buf : Bytes) (value shift i n : ℕ)
    → value < 2 ^ shift
    → shift ≤ 28
    → i + length buf ≡ n
    → Returns (IsSize n) (read_loop buf value shift i)
unfolding read_loop
read_loop-IsSize [] value shift i n below fits e = tt
read_loop-IsSize (byte ∷ buf) value shift i n below fits e = ground (
  arith,
  value_bound byte value shift below fits,
  two-pow_mono {i = shift + 7} {j = 35},
  read_loop-IsSize buf (bit_or value (u64 (bit_and byte 0x7f <<< shift))) (shift + 7) (i + 1) n,
)

-- `read_leb128` panics on no input; a size that it answers is below 2 ^ 35, and was read from at
-- least one byte and from no more bytes than the input has.
pub read_leb128-IsSize : (buf : Bytes) → Returns (IsSize (length buf)) (read_leb128 buf)
unfolding read_leb128
read_leb128-IsSize buf =
    read_loop-IsSize buf 0 0 0 (length buf) (omega arith) (omega arith) (omega arith)
