-- ===== src/Prelude/Strings.antt =====
-- What the program does with the texts that describe a codec: comparing, cutting and reading numbers.
use Prim.Native.Nat.{ℕ, ◌+◌, ◌-◌, ◌*◌}
use mathlib.Core.Path.{◌≡◌, refl}
use mathlib.Core.List.{List, [], ◌∷◌, ◌++◌, reverse}
use mathlib.Core.Bool.{Bool, true, false, ◌&&◌, ◌||◌}
use mathlib.Core.Option.{Option, none, some}
use live.Prelude.Lists.{Bytes, bytes_eq}
use live.Prelude.Tests.{ltb, leb, ◌==◌, if◌then◌else◌}
use live.Prelude.Text.{codes, decimal}
use live.Prelude.Text.Digits.{digits_value, value-decimal}
use live.Prelude.Tests.{Bool-cases}
use mathlib.Core.Logic.{inl, inr}

lower : ℕ → ℕ
lower c = if leb b'A' c && leb c b'Z' then c + 32 else c

-- `to_ascii_lowercase`.
unfoldable pub to_ascii_lowercase : Bytes → Bytes
unfolding lower
to_ascii_lowercase [] = []
to_ascii_lowercase (c ∷ s) = lower c ∷ to_ascii_lowercase s

-- `eq_ignore_ascii_case`.
unfoldable pub eq_ignore_ascii_case : Bytes → Bytes → Bool
unfolding to_ascii_lowercase
eq_ignore_ascii_case s t = bytes_eq (to_ascii_lowercase s) (to_ascii_lowercase t)

-- `strip_prefix`.
unfoldable pub strip_prefix : (prefix text : Bytes) → Option Bytes
strip_prefix [] s = some s
strip_prefix (c ∷ p) [] = none
strip_prefix (c ∷ p) (d ∷ s) = if c == d then strip_prefix p s else none

unfoldable pub starts_with : (prefix text : Bytes) → Bool
unfolding strip_prefix
starts_with p s = elim (strip_prefix p s) [ none ↦ false | some _ ↦ true ]

add_to_first : ℕ → List Bytes → List Bytes
add_to_first c [] = (c ∷ []) ∷ []
add_to_first c (part ∷ parts) = (c ∷ part) ∷ parts

-- `split` at one character.
unfoldable pub split_on : ℕ → Bytes → List Bytes
unfolding add_to_first
split_on mark [] = [] ∷ []
split_on mark (c ∷ s) =
    let parts = split_on mark s in if c == mark then [] ∷ parts else add_to_first c parts

-- White space of ASCII.
is_space : ℕ → Bool
is_space c = c == 32 || (leb 9 c && leb c 13)

trim_start : Bytes → Bytes
trim_start [] = []
trim_start (c ∷ s) = let rest = trim_start s in if is_space c then rest else c ∷ s

-- `trim`.
unfoldable pub trim : Bytes → Bytes
unfolding is_space trim_start
trim s = reverse (trim_start (reverse (trim_start s)))

read_digits : ℕ → Bytes → Option ℕ
read_digits acc [] = some acc
read_digits acc (c ∷ s) =
    let rest = read_digits (acc * 10 + (c - b'0')) s in
    if leb b'0' c && leb c b'9' then rest else none

read_number : Bytes → Option ℕ
read_number [] = none
read_number (c ∷ s) = read_digits 0 (c ∷ s)

unsigned : Bytes → Option ℕ
unsigned [] = none
unsigned (c ∷ s) = if c == b'+' then read_number s else read_number (c ∷ s)

-- `parse` of an unsigned type with the greatest value `most`.
unfoldable pub parse_unsigned : (most : ℕ) → Bytes → Option ℕ
unfolding read_digits read_number unsigned
parse_unsigned most s = elim (unsigned s) [
  | none ↦ none
  | some n ↦ if leb n most then some n else none
]

-- `{:04}`: at least four digits.
unfoldable pub decimal_04 : ℕ → Bytes
unfolding decimal
decimal_04 n =
    if ltb n 10
    then codes "000" ++ decimal n
    else if ltb n 100
    then codes "00" ++ decimal n
    else if ltb n 1000
    then b'0' ∷ decimal n
    else decimal n

-- The padding does not change the number.
pub value-decimal_04 :
    (n : ℕ) (rest : Bytes) → digits_value 0 (decimal_04 n ++ rest) ≡ digits_value n rest
unfolding decimal_04 digits_value
value-decimal_04 n rest = elim (Bool-cases (ltb n 10)) [
  | inl e ↦ rw e (value-decimal n rest)
  | inr e ↦ elim (Bool-cases (ltb n 100)) [
    | inl f ↦ rw (e, f) (value-decimal n rest)
    | inr f ↦ elim (Bool-cases (ltb n 1000)) [
      | inl g ↦ rw (e, f, g) (value-decimal n rest)
      | inr g ↦ rw (e, f, g) (value-decimal n rest)
    ]
  ]
]

parse_tests :
    (parse_unsigned 255 (codes "08") ≡ some 8)
    × (parse_unsigned 255 (codes "256") ≡ none)
    × (parse_unsigned 255 (codes "08M") ≡ none)
    × (trim (codes " a b ") ≡ codes "a b")
    × (decimal_04 42 ≡ codes "0042")
unfolding parse_unsigned trim decimal_04
parse_tests = (refl, refl, refl, refl, refl)
