-- ===== src/Prelude/Bits.antt =====
-- Shifts and masks of the machine words as arithmetic, at every width.
use Prim.Native.Nat.{
  ℕ, zero, suc, ◌+◌, ◌-◌, ◌*◌, ◌/◌, ◌%◌, ◌^◌, ◌<◌, ◌≤◌, min, max, bit_and, bit_or, digits,
  bit_and-bitwise, bit_or-bitwise,
}
use mathlib.Core.Path.{◌≡◌, refl, ap, ◌∙◌}
use native.Mathlib.Nat.{
  pow-suc, one-le-pow, div-div-eq-div-mul, div-add-mod, pow-le-pow_right, add-zero, add-suc,
}
use mathlib.Core.Bool.{Bool, true, false}
use native.Mathlib.Omega.{arith}
use live.Prelude.Tests.{if◌then◌else◌}

infixl 75 ◌<<<◌ ◌>>>◌
abbrev pub ◌<<<◌ : ℕ → ℕ → ℕ
x <<< k = x * 2 ^ k

abbrev pub ◌>>>◌ : ℕ → ℕ → ℕ
x >>> k = x / 2 ^ k

-- Casts, and the wrap-around of the operators at a width.
abbrev pub u8 : ℕ → ℕ
u8 n = n % 2 ^ 8

abbrev pub u16 : ℕ → ℕ
u16 n = n % 2 ^ 16

abbrev pub u32 : ℕ → ℕ
u32 n = n % 2 ^ 32

abbrev pub u64 : ℕ → ℕ
u64 n = n % 2 ^ 64

-- The recursion that `bit_and` and `bit_or` stand for, with any fuel that is enough.
module _ (base : ℕ → ℕ) (digit : ℕ → ℕ → ℕ) where
  fuel_irrelevant :
      (n m a b : ℕ) → a ≤ n → a ≤ m → digits base digit n a b ≡ digits base digit m a b
  fuel_irrelevant zero zero zero b p q = refl
  fuel_irrelevant zero (suc m) zero b p q = refl
  fuel_irrelevant (suc n) zero zero b p q = refl
  fuel_irrelevant (suc n) (suc m) zero b p q = refl
  fuel_irrelevant zero m (suc a) b p q = absurd (omega arith)
  fuel_irrelevant (suc n) zero (suc a) b p q = absurd (omega arith)
  fuel_irrelevant (suc n) (suc m) (suc a) b p q =
      omega (arith, fuel_irrelevant n m (suc a / 2) (b / 2) (omega arith) (omega arith))

or_low : (a b : ℕ) → bit_or a b ≡ bit_or (a / 2) (b / 2) * 2 + max (a % 2) (b % 2)
or_low zero b = omega (arith, bit_or-bitwise 0 b, bit_or-bitwise 0 (b / 2))
or_low (suc a) b = omega (
  arith,
  bit_or-bitwise (suc a) b,
  bit_or-bitwise (suc a / 2) (b / 2),
  fuel_irrelevant (λ b. b) max a (suc a / 2) (suc a / 2) (b / 2) (omega arith) (omega arith),
)

and_low : (a b : ℕ) → bit_and a b ≡ bit_and (a / 2) (b / 2) * 2 + min (a % 2) (b % 2)
and_low zero b = omega (arith, bit_and-bitwise 0 b, bit_and-bitwise 0 (b / 2))
and_low (suc a) b = omega (
  arith,
  bit_and-bitwise (suc a) b,
  bit_and-bitwise (suc a / 2) (b / 2),
  fuel_irrelevant (λ b. zero) min a (suc a / 2) (suc a / 2) (b / 2) (omega arith) (omega arith),
)

-- Both by recursion on a bound of the number.
or_none : (n a : ℕ) → a ≤ n → bit_or a 0 ≡ a
or_none n zero h = refl
or_none zero (suc a) h = absurd (omega arith)
or_none (suc n) (suc a) h = omega (arith, or_low (suc a) 0, or_none n (suc a / 2) (omega arith))

and_none : (n a : ℕ) → a ≤ n → bit_and a 0 ≡ 0
and_none n zero h = refl
and_none zero (suc a) h = absurd (omega arith)
and_none (suc n) (suc a) h = omega (arith, and_low (suc a) 0, and_none n (suc a / 2) (omega arith))

shifted_twice : (q k : ℕ) → q * 2 ^ suc k ≡ q * 2 ^ k * 2
shifted_twice q k = omega (arith, ap (λ (t : ℕ). q * t) (pow-suc 2 k))

-- `(x << k) | y` adds, when `y` fits below the shift.
pub or-shift : (k x y : ℕ) → y < 2 ^ k → bit_or (x <<< k) y ≡ x * 2 ^ k + y
or-shift zero x y h = ground (arith, or_none x x)
or-shift (suc k) x y h =
    ground (arith, shifted_twice x k, or_low (x * 2 ^ suc k) y, or-shift k x (y / 2) (omega arith))

mask_sum : (k x y : ℕ) → y < 2 ^ k → bit_and (x * 2 ^ k + y) (2 ^ k - 1) ≡ y
mask_sum zero x y h = ground (arith, and_none (x + y) (x + y), and_none x x)
mask_sum (suc k) x y h = ground (
  arith,
  shifted_twice x k,
  pow-suc 2 k,
  and_low (x * 2 ^ suc k + y) (2 ^ suc k - 1),
  mask_sum k x (y / 2) (omega arith),
)

-- `x & ((1 << k) - 1)` is the remainder.
pub and-mask : (k x : ℕ) → bit_and x (2 ^ k - 1) ≡ x % 2 ^ k
and-mask k x = ground (arith, one-le-pow k 2, mask_sum k (x / 2 ^ k) (x % 2 ^ k))

or_comm_below : (n a b : ℕ) → a + b ≤ n → bit_or a b ≡ bit_or b a
or_comm_below n zero zero h = refl
or_comm_below zero (suc a) b h = absurd (omega arith)
or_comm_below zero zero (suc b) h = absurd (omega arith)
or_comm_below (suc n) (suc a) b h =
    omega
      (arith, or_low (suc a) b, or_low b (suc a), or_comm_below n (suc a / 2) (b / 2) (omega arith))
or_comm_below (suc n) zero (suc b) h =
    omega
      (arith, or_low 0 (suc b), or_low (suc b) 0, or_comm_below n (0 / 2) (suc b / 2) (omega arith))

pub bit_or_comm : (a b : ℕ) → bit_or a b ≡ bit_or b a
bit_or_comm a b = or_comm_below (a + b) a b (omega arith)

-- `y | (x << k)` adds, when `y` fits below the shift.
pub shift-or : (k x y : ℕ) → y < 2 ^ k → bit_or y (x <<< k) ≡ x * 2 ^ k + y
shift-or k x y h = bit_or_comm y (x <<< k) ∙ or-shift k x y h

-- `x & (1 << k)` keeps one bit.
pub and-bit : (k x : ℕ) → bit_and x (2 ^ k) ≡ x / 2 ^ k % 2 * 2 ^ k
and-bit zero x = ground (arith, and_low x 1, and_none (x / 2) (x / 2))
and-bit (suc k) x = ground (
  arith,
  shifted_twice 1 k,
  shifted_twice (x / 2 ^ suc k % 2) k,
  and_low x (2 ^ suc k),
  and-bit k (x / 2),
  div-div-eq-div-mul x 2 (2 ^ k),
)

pub pow-add : (m n : ℕ) → 2 ^ (m + n) ≡ 2 ^ m * 2 ^ n
pow-add m zero = rw add-zero (omega arith)
pow-add m (suc n) =
    rw (add-suc, pow-suc 2 (m + n), pow-suc 2 n)
      (omega (arith, ap (λ (t : ℕ). t * 2) (pow-add m n)))

pub two-pow-pos : (k : ℕ) → 0 < 2 ^ k
two-pow-pos k = one-le-pow k 2 (omega arith)

pub two-pow_mono : {i j : ℕ} → i ≤ j → 2 ^ i ≤ 2 ^ j
two-pow_mono h = pow-le-pow_right (omega arith) h

-- A test that holds of every number below `n`, by evaluation: for facts about one byte.
unfoldable pub every_below : (ℕ → Bool) → ℕ → Bool
every_below p zero = true
every_below p (suc n) = if p n then every_below p n else false

pub every_below→holds :
    (p : ℕ → Bool) (n : ℕ) → every_below p n ≡ true → (x : ℕ) → x < n → p x ≡ true
unfolding every_below
every_below→holds p zero e x h = absurd (omega arith)
every_below→holds p (suc n) e x h = ground (arith, every_below→holds p n (ground arith) x)

-- `|` of two numbers with no bit in common, by the position `k` that parts them.
pub or-disjoint : (k x y : ℕ) → x % 2 ^ k ≡ 0 → y < 2 ^ k → bit_or x y ≡ x + y
or-disjoint k x y low h = ground (arith, div-add-mod x (2 ^ k), or-shift k (x / 2 ^ k) y h)
