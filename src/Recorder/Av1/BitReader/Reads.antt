-- ===== src/Recorder/Av1/BitReader/Reads.antt =====
-- The reader reads the fields of its bytes, stays inside them, and does not panic.
use native.Mathlib.Nat.{add-zero, zero-add}
use live.Prelude.{
  ℕ, zero, suc, ◌+◌, ◌-◌, ◌*◌, ◌/◌, ◌%◌, ◌^◌, ◌≤◌, ◌<◌, ◌≡◌, Bool, true, false, arith, ltb, leb,
  ◌==◌, ◌!=◌, if◌then◌else◌, some, length, get_elem?, get_elem?-lt, Bool-cases, inl, inr, bit_and,
  bit_or, ◌<<<◌, ◌>>>◌, u64, and-mask, or-shift, two-pow_mono, ok, err,
}
use live.Recorder.BitString.{bit_at, field, field-lt}
use live.Recorder.Reader.{BitReader, ◌>>=◌, ◌>>◌}
use live.Recorder.Reader.Reads.{IsReader, advance, Reads, Reads-return, Reads->>=}
use live.Recorder.Av1.BitReader.{Read, read_loop, read_bits, read_flag, skip_bits}
use live.Recorder.Av1.Error.{not_enough_bits}

one_bit :
    (br : BitReader) (byte value : ℕ)
    → get_elem? br.data_bytes (br.bit_pos / 8) ≡ some byte
    → value < 2 ^ 63
    → bit_or (u64 (value <<< 1)) (bit_and (byte >>> (7 - br.bit_pos % 8)) 1)
      ≡ value * 2 + bit_at br.data_bytes br.bit_pos
unfolding bit_at
one_bit br byte value e small = ground (
  arith,
  and-mask 1 (byte >>> (7 - br.bit_pos % 8)),
  or-shift 1 value ((byte >>> (7 - br.bit_pos % 8)) % 2),
)

-- The loop goes on from the `done` bits that it has read since `start`.
read_loop-field :
    (count done start : ℕ) (br : BitReader)
    → br.bit_pos ≡ start + done
    → start + done + count ≤ length br.data_bytes * 8
    → done + count ≤ 64
    → read_loop count (field br.data_bytes start done) br
      ≡ ok (field br.data_bytes start (done + count), advance count br)
unfolding read_loop field
read_loop-field zero done start br at fits word = simp add-zero
read_loop-field (suc count) done start br at fits word =
    let (byte, e) = get_elem?-lt br.data_bytes (br.bit_pos / 8) (omega arith) in
    let small : field br.data_bytes start done < 2 ^ 63 =
      omega (
        arith,
        field-lt br.data_bytes start done,
        two-pow_mono {i = done} {j = 63} (omega arith),
      ) in
    ground (
      arith,
      e,
      one_bit br byte (field br.data_bytes start done) e small,
      read_loop-field count (suc done) start (advance 1 br) (omega arith) (omega arith)
          (omega arith),
    )

read_loop_all :
    (n : ℕ) (br : BitReader)
    → IsReader br
    → n ≤ 64
    → br.bit_pos + n ≤ br.bit_len
    → read_loop n 0 br ≡ ok (field br.data_bytes br.bit_pos n, advance n br)
unfolding field
read_loop_all n br ok_br word there =
    rw zero-add at (read_loop-field n 0 br.bit_pos br (omega arith) (omega arith) (omega arith))

-- Where the bits are there, and no more than a word holds, `read_bits` returns the field at the
-- position and moves the position behind it. Where they are not, it is an error, never a panic.
pub read_bits-field :
    (n : ℕ) (br : BitReader)
    → IsReader br
    → n ≤ 64
    → read_bits n br ≡ (
        if leb (br.bit_pos + n) br.bit_len
        then ok (field br.data_bytes br.bit_pos n, advance n br)
        else err not_enough_bits)
unfolding read_bits field
read_bits-field zero br ok_br word = ground arith
read_bits-field (suc n) br ok_br word =
    let nonzero : (suc n == 0) ≡ false = ground arith in
    elim (Bool-cases (ltb br.bit_len (br.bit_pos + suc n))) [
      | inr there ↦
          let all = read_loop_all (suc n) br ok_br word (ground arith) in
          let fits : leb (br.bit_pos + suc n) br.bit_len ≡ true = ground arith in
          rw (nonzero, there, fits, ◌>>=◌) all
      | inl short ↦
          let over : leb (br.bit_pos + suc n) br.bit_len ≡ false = ground arith in
          rw (nonzero, short, over, ◌>>=◌) (ground arith)
    ]

pub read_bits-Reads : (n : ℕ) → n ≤ 64 → Reads (λ v. v < 2 ^ n) (read_bits n)
read_bits-Reads n word = record {
  run = λ br ok_br.
      rw (read_bits-field n br ok_br word) (ground (arith, field-lt br.data_bytes br.bit_pos n));
}

pub skip_bits-Reads : (n : ℕ) → Reads (λ _. Unit) (skip_bits n)
skip_bits-Reads n = record { run = λ br ok_br. unfold skip_bits in ground arith }

pub read_flag-Reads : (P : Bool → Type 0) → ((b : Bool) → P b) → Reads P read_flag
read_flag-Reads P h =
    unfold read_flag in
    Reads->>= (λ v. v < 2 ^ 1) P (read_bits-Reads 1 (omega arith))
      (λ v _. Reads-return P (v != 0) (h (v != 0)))

-- The rules in the shape of a statement that goes on.
module _ {B : Type 0} (Q : B → Type 0) where
  pub bits_then :
      (n : ℕ) {f : ℕ → Read B}
      → n ≤ 64
      → ((v : ℕ) → v < 2 ^ n → Reads Q (f v))
      → Reads Q (read_bits n >>= f)
  bits_then n word k = Reads->>= (λ v. v < 2 ^ n) Q (read_bits-Reads n word) k

  pub flag_then : {f : Bool → Read B} → ((b : Bool) → Reads Q (f b)) → Reads Q (read_flag >>= f)
  flag_then k = Reads->>= (λ _. Unit {0}) Q (read_flag-Reads _ (λ _. tt)) (λ b _. k b)

  pub skip_then : (n : ℕ) {k : Read B} → Reads Q k → Reads Q (skip_bits n >> k)
  skip_then n h = unfold ◌>>◌ in Reads->>= (λ _. Unit) Q (skip_bits-Reads n) (λ _ _. h)
