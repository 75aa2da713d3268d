-- ===== src/Recorder/Av1/Leb128/RoundTrip.antt =====
-- `write_leb128` and `read_leb128` are inverse up to 35 bits.
use mathlib.Core.WellFounded.{Acc}
use native.Mathlib.Nat.{
  pow-suc, one-le-pow, pow-le-pow_right, mul-le-mul, mul-le-mul_right, div-add-mod,
}
use live.Prelude.{
  ℕ, zero, suc, ◌+◌, ◌*◌, ◌/◌, ◌%◌, ◌^◌, ◌≤◌, ◌<◌, ◌≡◌, refl, ap, ◌∙◌, Bytes, [], ◌∷◌, ◌++◌,
  append_assoc, arith, length, bit_and, bit_or, ◌<<<◌, u8, u64, shift-or, and-mask, ok, err, lt_wf,
  two-pow_mono, and-bit, pow-add, ltb, if◌then◌else◌,
}
use live.Recorder.Av1.Leb128.{
  read_loop, read_leb128, size_loop, leb128_size, write_loop, write_leb128,
}
use live.Recorder.Av1.Error.{invalid_leb128}

low_group : (v : ℕ) → u8 (bit_and v 0x7f) ≡ v % 128
low_group v = omega (arith, and-mask 7 v)

marked_group : (v : ℕ) → bit_or (u8 (bit_and v 0x7f)) 0x80 ≡ v % 128 + 128
marked_group v = rw low_group (omega (arith, shift-or 7 1 (v % 128) (omega arith)))

-- The groups of seven bits of a number below 128 ^ (k + 1), all but the last with the top bit.
pub groups : ℕ → ℕ → Bytes
groups zero v = v ∷ []
groups (suc k) v =
    let more = groups k (v / 128) in if ltb v 128 then v ∷ [] else (v % 128 + 128) ∷ more

write_loop-groups :
    (k : ℕ) (buf : Bytes) (v : ℕ) (w : Acc ◌<◌ v)
    → v < 128 ^ suc k
    → write_loop buf v w ≡ buf ++ groups k v
unfolding write_loop groups
write_loop-groups zero buf v (Acc.intro _ smaller) h = ground (arith, low_group v)
write_loop-groups (suc k) buf v (Acc.intro _ smaller) h = grind (
  arith,
  low_group v,
  marked_group v,
  λ (w : Acc ◌<◌ (v / 128)).
      write_loop-groups k (buf ++ ((v % 128 + 128) ∷ [])) (v / 128) w (omega arith),
  append_assoc buf ((v % 128 + 128) ∷ []) (groups k (v / 128)),
)

size_loop-groups :
    (k n v : ℕ) (w : Acc ◌<◌ v) → v < 128 ^ suc k → size_loop n v w + 1 ≡ n + length (groups k v)
unfolding size_loop groups
size_loop-groups zero n v (Acc.intro _ smaller) h = ground arith
size_loop-groups (suc k) n v (Acc.intro _ smaller) h =
    grind (arith, λ (w : Acc ◌<◌ (v / 128)). size_loop-groups k (n + 1) (v / 128) w (omega arith))

-- On every `usize` both functions agree with the groups.
pub write_leb128-groups :
    (buf : Bytes) (v : ℕ) → v < 2 ^ 64 → write_leb128 buf v ≡ buf ++ groups 9 v
unfolding write_leb128
write_leb128-groups buf v h = write_loop-groups 9 buf v (lt_wf.apply v) (omega arith)

pub leb128_size-groups : (v : ℕ) → v < 2 ^ 64 → leb128_size v ≡ length (groups 9 v)
unfolding leb128_size
leb128_size-groups v h = omega (arith, size_loop-groups 9 1 v (lt_wf.apply v) (omega arith))

-- What a byte with the low group `g` adds at `shift`.
pub added_group :
    (byte value shift : ℕ)
    → value < 2 ^ shift
    → shift ≤ 28
    → bit_or value (u64 (bit_and byte 0x7f <<< shift)) ≡ value + byte % 128 * 2 ^ shift
added_group byte value shift below fits = ground (
  arith,
  and-mask 7 byte,
  mul-le-mul {n₁ = byte % 128} {m₁ = 2 ^ shift} {n₂ = 127} {m₂ = 2 ^ 28} (omega arith)
      (two-pow_mono fits),
  shift-or shift (byte % 128) value,
)

-- One round of `read_loop`: a last group, a group with the top bit, and the sixth group.
read_last :
    (g value shift i : ℕ) (rest : Bytes)
    → g < 128
    → value < 2 ^ shift
    → shift ≤ 28
    → read_loop (g ∷ rest) value shift i ≡ ok (value + g * 2 ^ shift, i + 1)
unfolding read_loop
read_last g value shift i rest small below fits =
    ground (arith, and-bit 7 g, added_group g value shift below fits)

read_marked :
    (g value shift i : ℕ) (rest : Bytes)
    → g < 128
    → value < 2 ^ shift
    → shift + 7 ≤ 28
    → read_loop ((g + 128) ∷ rest) value shift i
      ≡ read_loop rest (value + g * 2 ^ shift) (shift + 7) (i + 1)
unfolding read_loop
read_marked g value shift i rest small below fits =
    ground (arith, and-bit 7 (g + 128), added_group (g + 128) value shift below (omega arith))

read_sixth :
    (g value shift i : ℕ) (rest : Bytes)
    → g < 128
    → 28 < shift + 7
    → read_loop ((g + 128) ∷ rest) value shift i ≡ err invalid_leb128
unfolding read_loop
read_sixth g value shift i rest small long = ground (arith, and-bit 7 (g + 128))

-- The lowest group of `v` and the others, all shifted by `s`.
split_at : (v s : ℕ) → v * 2 ^ s ≡ v % 128 * 2 ^ s + v / 128 * 2 ^ (s + 7)
split_at v s = rw (pow-add s 7) (omega (arith, ap (λ (t : ℕ). t * 2 ^ s) (div-add-mod v 128)))

still_below : (v value s : ℕ) → value < 2 ^ s → value + v % 128 * 2 ^ s < 2 ^ (s + 7)
still_below v value s h =
    rw (pow-add s 7) (omega (arith, mul-le-mul_right {m = v % 128} {n = 127} (2 ^ s) (omega arith)))

read_loop-groups :
    (k v value shift i : ℕ) (rest : Bytes)
    → v < 128 ^ suc k
    → value < 2 ^ shift
    → shift + 7 * k ≤ 28
    → read_loop (groups k v ++ rest) value shift i
      ≡ ok (value + v * 2 ^ shift, i + length (groups k v))
unfolding groups
read_loop-groups zero v value shift i rest h below fits =
    read_last v value shift i rest h below (omega arith)
read_loop-groups (suc k) v value shift i rest h below fits = ground (
  arith,
  read_last v value shift i rest,
  read_marked (v % 128) value shift i (groups k (v / 128) ++ rest),
  split_at v shift,
  still_below v value shift,
  read_loop-groups k (v / 128) (value + v % 128 * 2 ^ shift) (shift + 7) (i + 1) rest,
)

read_loop_overflow :
    (k j v value shift i : ℕ) (rest : Bytes)
    → v < 128 ^ suc k
    → 128 ^ suc j ≤ v
    → value < 2 ^ shift
    → shift + 7 * j ≡ 28
    → read_loop (groups k v ++ rest) value shift i ≡ err invalid_leb128
unfolding groups
read_loop_overflow zero j v value shift i rest h big below e =
    absurd
      (omega (arith, pow-le-pow_right {n = 128} (omega arith) {i = 1} {j = suc j} (omega arith)))
read_loop_overflow (suc k) zero v value shift i rest h big below e =
    ground (arith, read_sixth (v % 128) value shift i (groups k (v / 128) ++ rest))
read_loop_overflow (suc k) (suc j) v value shift i rest h big below e = ground (
  arith,
  read_marked (v % 128) value shift i (groups k (v / 128) ++ rest),
  pow-suc 128 (suc j),
  one-le-pow (suc j) 128,
  still_below v value shift,
  read_loop_overflow k j (v / 128) (value + v % 128 * 2 ^ shift) (shift + 7) (i + 1) rest,
)

groups_enough : (k j v : ℕ) → v < 128 ^ suc k → v < 128 ^ suc j → groups k v ≡ groups j v
unfolding groups
groups_enough zero zero v h p = refl
groups_enough zero (suc j) v h p = ground arith
groups_enough (suc k) zero v h p = ground arith
groups_enough (suc k) (suc j) v h p =
    ground (arith, groups_enough k j (v / 128) (omega arith) (omega arith))

-- What `write_leb128` writes for a size below 2 ^ 35 is read back by `read_leb128`, whatever
-- bytes follow, and the second part of the answer is `leb128_size` of that size.
pub read_leb128-write_leb128 :
    (v : ℕ) (rest : Bytes)
    → v < 2 ^ 35
    → read_leb128 (write_leb128 [] v ++ rest) ≡ ok (v, leb128_size v)
unfolding read_leb128
read_leb128-write_leb128 v rest h =
    rw
      (
        write_leb128-groups [] v (omega arith),
        leb128_size-groups v (omega arith),
        groups_enough 9 4 v (omega arith) (omega arith),
      )
      (read_loop-groups 4 v 0 0 0 rest (omega arith) (omega arith) (omega arith) ∙ ground arith)

-- A size of 2 ^ 35 or more is written in six bytes or more, which `read_leb128` refuses.
read_leb128_refuses :
    (v : ℕ) (rest : Bytes)
    → 2 ^ 35 ≤ v
    → v < 2 ^ 64
    → read_leb128 (write_leb128 [] v ++ rest) ≡ err invalid_leb128
unfolding read_leb128
read_leb128_refuses v rest h p =
    rw (write_leb128-groups [] v p)
      (read_loop_overflow 9 4 v 0 0 0 rest (omega arith) (omega arith) (omega arith) refl)

-- `leb128_size` is the number of bytes that `write_leb128` writes.
pub length-write_leb128 : (v : ℕ) → v < 2 ^ 64 → length (write_leb128 [] v) ≡ leb128_size v
length-write_leb128 v h = rw (write_leb128-groups [] v h, leb128_size-groups v h)
