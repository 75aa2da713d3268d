-- ===== src/Recorder/Vp9/BitReader/Reads.antt =====
-- The reader of vp9.rs reads the same fields as a reader that goes bit by bit.
use mathlib.Core.WellFounded.{Acc}
use native.Mathlib.Nat.{
  add-zero, zero-add, pow-suc, div-div-eq-div-mul, div-add-mod, mod-lt, mod-eq_of_lt,
  mul-add-mod_self_left, mul-le-mul,
}
use live.Prelude.{
  ℕ, zero, suc, ◌+◌, ◌-◌, ◌*◌, ◌/◌, ◌%◌, ◌^◌, ◌≤◌, ◌<◌, ◌≡◌, refl, sym, ap, ◌∙◌, Bool, true, false,
  Bytes, arith, leb, ◌==◌, ◌!=◌, if◌then◌else◌, dite_holds, dec_lt, some, length, get_elem?,
  get_elem?-lt, Bool-cases, inl, inr, bit_or, ◌<<<◌, ◌>>>◌, u64, lt_wf, and-mask, or-shift,
  two-pow_mono, pow-add, two-pow-pos, ok, err,
}
use live.Recorder.BitString.{bit_at, byte_at, field, field-lt, field-add}
use live.Recorder.Reader.{BitReader, ◌>>=◌, ◌>>◌}
use live.Recorder.Reader.Reads.{IsReader, advance, Reads, Reads-return, Reads->>=}
use live.Recorder.Vp9.BitReader.{
  Read, missing, taken, extracted, taken_lt, read_loop, ensure, read_bits, read_flag, skip_bits,
}

half_of : (x s : ℕ) → x / 2 ^ suc s ≡ x / 2 ^ s / 2
half_of x s = rw (pow-suc 2 s) (sym (div-div-eq-div-mul x (2 ^ s) 2))

low_bits : (x t : ℕ) → x % 2 ^ suc t ≡ x / 2 % 2 ^ t * 2 + x % 2
low_bits x t =
    let low = x / 2 % 2 ^ t * 2 + x % 2 in
    let parts : x ≡ 2 ^ t * 2 * (x / 2 / 2 ^ t) + low =
      omega (arith, div-add-mod (x / 2) (2 ^ t)) in
    let below : low < 2 ^ t * 2 = omega (arith, mod-lt (x / 2) (two-pow-pos t)) in
    rw (pow-suc 2 t) (
      ap (λ y. y % (2 ^ t * 2)) parts
      ∙ mul-add-mod_self_left (2 ^ t * 2) (x / 2 / 2 ^ t) low
      ∙ mod-eq_of_lt below)

-- The bits of a field within one byte are the middle of that byte.
field_in_byte :
    (bytes : Bytes) (byte pos t : ℕ)
    → get_elem? bytes (pos / 8) ≡ some byte
    → pos % 8 + t ≤ 8
    → field bytes pos t ≡ (byte / 2 ^ (8 - pos % 8 - t)) % 2 ^ t
unfolding field bit_at
field_in_byte bytes byte pos zero e fits = omega arith
field_in_byte bytes byte pos (suc t) e fits =
    let s = 8 - pos % 8 - suc t in
    let same : (pos + t) / 8 ≡ pos / 8 = omega arith in
    let off : 7 - (pos + t) % 8 ≡ s = omega arith in
    let before : 8 - pos % 8 - t ≡ suc s = omega arith in
    rw
      (
        same,
        off,
        byte_at,
        e,
        field_in_byte bytes byte pos t e (omega arith),
        before,
        half_of byte s,
        low_bits (byte / 2 ^ s) t,
      )
      refl

extracted-field :
    (br : BitReader) (n byte : ℕ)
    → get_elem? br.data_bytes (br.bit_pos / 8) ≡ some byte
    → extracted br n byte ≡ field br.data_bytes br.bit_pos (taken br n)
extracted-field br n byte e =
    and-mask (taken br n) (byte >>> (8 - br.bit_pos % 8 - taken br n))
    ∙ sym (field_in_byte br.data_bytes byte br.bit_pos (taken br n) e (ground arith))

shifted_small :
    (bytes : Bytes) (start done t : ℕ) → done + t ≤ 64 → field bytes start done * 2 ^ t < 2 ^ 64
shifted_small bytes start done t word =
    let bound : suc (field bytes start done) * 2 ^ t ≤ 2 ^ done * 2 ^ t =
      mul-le-mul (field-lt bytes start done) (omega arith) in
    omega (arith, bound, pow-add done t, two-pow_mono {i = done + t} {j = 64} word, two-pow-pos t)

-- One round puts the bits of the byte behind those read before.
round-field :
    (br : BitReader) (n byte done start : ℕ)
    → br.bit_pos ≡ start + done
    → get_elem? br.data_bytes (br.bit_pos / 8) ≡ some byte
    → done + taken br n ≤ 64
    → bit_or (u64 (field br.data_bytes start done <<< taken br n)) (extracted br n byte)
      ≡ field br.data_bytes start (done + taken br n)
round-field br n byte done start at e word =
    let t = taken br n in
    let value = field br.data_bytes start done in
    let whole : u64 (value <<< t) ≡ value <<< t =
      mod-eq_of_lt (shifted_small br.data_bytes start done t word) in
    let joined =
      or-shift t value (field br.data_bytes br.bit_pos t) (field-lt br.data_bytes br.bit_pos t) in
    let split = field-add br.data_bytes start done t in
    rw (whole, extracted-field br n byte e, joined)
      (omega (arith, split, ap (λ p. field br.data_bytes p t) at))

-- The loop goes on from the `done` bits that it has read since `start`.
read_loop-field :
    (n : ℕ) (acc : Acc ◌<◌ n) (done start : ℕ) (br : BitReader)
    → br.bit_pos ≡ start + done
    → start + done + n ≤ length br.data_bytes * 8
    → done + n ≤ 64
    → read_loop n acc (field br.data_bytes start done) br
      ≡ ok (field br.data_bytes start (done + n), advance n br)
unfolding read_loop dec_lt
read_loop-field zero (Acc.intro _ smaller) done start br at fits word = simp add-zero
read_loop-field (suc n) (Acc.intro _ smaller) done start br at fits word =
    let t = taken br (suc n) in
    let (byte, e) = get_elem?-lt br.data_bytes (br.bit_pos / 8) (omega arith) in
    let positive : 0 < t = ground arith in
    let few : t ≤ suc n = ground arith in
    let up_to : done + t + (suc n - t) ≡ done + suc n = omega arith in
    let moved : br.bit_pos + t + (suc n - t) ≡ br.bit_pos + suc n = omega arith in
    dite_holds (λ r. r ≡ ok (field br.data_bytes start (done + suc n), advance (suc n) br))
      (dec_lt 0 (suc n)) _ _
      (λ pos.
        rw (e, round-field br (suc n) byte done start at e (omega arith))
          (read_loop-field (suc n - t) (smaller (suc n - t) (taken_lt br (suc n) pos)) (done + t)
              start (advance t br) (omega arith) (omega arith) (omega arith)
            ∙ rw (up_to, moved) refl))
      (λ none_left. absurd (none_left (omega arith)))

read_loop_all :
    (n : ℕ) (br : BitReader)
    → IsReader br
    → n ≤ 64
    → br.bit_pos + n ≤ br.bit_len
    → read_loop n (lt_wf.apply n) 0 br ≡ ok (field br.data_bytes br.bit_pos n, advance n br)
unfolding field
read_loop_all n br ok_br word there =
    rw zero-add at
      (read_loop-field n (lt_wf.apply n) 0 br.bit_pos br (omega arith) (omega arith) (omega arith))

-- Where the bits are there, and no more than a word holds, `read_bits` returns the field at the
-- position and moves the position behind it, as the reader of av1.rs does, though it reads up to
-- eight bits at a time. Where they are not, it returns `None`, and never panics.
read_bits-eq-field :
    (n : ℕ) (br : BitReader)
    → IsReader br
    → n ≤ 64
    → read_bits n br ≡ (
        if leb (br.bit_pos + n) br.bit_len
        then ok (field br.data_bytes br.bit_pos n, advance n br)
        else err missing)
unfolding read_bits field
read_bits-eq-field zero br ok_br word = ground arith
read_bits-eq-field (suc n) br ok_br word =
    let nonzero : (suc n == 0) ≡ false = ground arith in
    elim (Bool-cases (leb (suc n) (br.bit_len - br.bit_pos))) [
      | inl there ↦
          let all = read_loop_all (suc n) br ok_br word (ground arith) in
          let fits : leb (br.bit_pos + suc n) br.bit_len ≡ true = ground arith in
          rw (nonzero, there, fits, ◌>>=◌) all
      | inr short ↦
          let over : leb (br.bit_pos + suc n) br.bit_len ≡ false = ground arith in
          rw (nonzero, short, over, ◌>>=◌) (ground arith)
    ]

pub read_bits-Reads : (n : ℕ) → n ≤ 64 → Reads (λ v. v < 2 ^ n) (read_bits n)
read_bits-Reads n word = record {
  run = λ br ok_br.
      rw (read_bits-eq-field n br ok_br word) (ground (arith, field-lt br.data_bytes br.bit_pos n));
}

pub ensure-Reads : (n : ℕ) → Reads (λ _. Unit) (ensure n)
ensure-Reads n = record { run = λ br ok_br. unfold ensure in ground arith }

-- The rules in the shape of a statement that goes on.
module _ {B : Type 0} (Q : B → Type 0) where
  pub bits_then :
      (n : ℕ) {f : ℕ → Read B}
      → n ≤ 64
      → ((v : ℕ) → v < 2 ^ n → Reads Q (f v))
      → Reads Q (read_bits n >>= f)
  bits_then n word k = Reads->>= (λ v. v < 2 ^ n) Q (read_bits-Reads n word) k

  pub ensure_then : (n : ℕ) {k : Read B} → Reads Q k → Reads Q (ensure n >> k)
  ensure_then n h = unfold ◌>>◌ in Reads->>= (λ _. Unit) Q (ensure-Reads n) (λ _ _. h)

pub read_flag-Reads : (P : Bool → Type 0) → ((b : Bool) → P b) → Reads P read_flag
read_flag-Reads P h =
    unfold read_flag in bits_then P 1 (omega arith) (λ v _. Reads-return P (v != 0) (h (v != 0)))

pub skip_bits-Reads : (n : ℕ) → n ≤ 64 → Reads (λ _. Unit) (skip_bits n)
skip_bits-Reads n word = unfold skip_bits in bits_then _ n word (λ _ _. Reads-return _ tt tt)

module _ {B : Type 0} (Q : B → Type 0) where
  pub flag_then : {f : Bool → Read B} → ((b : Bool) → Reads Q (f b)) → Reads Q (read_flag >>= f)
  flag_then k = Reads->>= (λ _. Unit {0}) Q (read_flag-Reads _ (λ _. tt)) (λ b _. k b)

  pub skip_then : (n : ℕ) {k : Read B} → n ≤ 64 → Reads Q k → Reads Q (skip_bits n >> k)
  skip_then n word h = unfold ◌>>◌ in Reads->>= (λ _. Unit) Q (skip_bits-Reads n word) (λ _ _. h)
