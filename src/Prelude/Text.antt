-- ===== src/Prelude/Text.antt =====
-- Text as the list of its bytes (the program's texts are ASCII), and what `format!` prints.
pub mod Digits
use Prim.Native.Nat.{ℕ, ◌+◌, ◌-◌, ◌/◌, ◌%◌, ◌<◌}
use Prim.Native.Char.{code}
use Prim.Native.String.{String}
use mathlib.Core.Path.{◌≡◌, refl}
use mathlib.Core.List.{[], ◌∷◌, ◌++◌}
use mathlib.Core.Logic.{dite}
use mathlib.Core.WellFounded.{Acc}
use native.Mathlib.Decide.{dec_lt}
use native.Mathlib.Omega.{arith}
use live.Prelude.Lists.{Bytes}
use live.Prelude.Order.{lt_wf}
use live.Prelude.Tests.{ltb, if◌then◌else◌}

abbrev pub codes : String → Bytes
codes String.[] = []
codes (String.◌∷◌ c s) = code c ∷ codes s

decimal_loop : (n : ℕ) → Acc ◌<◌ n → Bytes
decimal_loop n (Acc.intro _ smaller) =
    dite (dec_lt 9 n)
      (λ h. decimal_loop (n / 10) (smaller (n / 10) (omega arith)) ++ ((b'0' + n % 10) ∷ []))
      (λ _. (b'0' + n) ∷ [])

-- `{}` of an unsigned number.
unfoldable pub decimal : ℕ → Bytes
unfolding decimal_loop lt_wf dec_lt
decimal n = decimal_loop n (lt_wf.apply n)

-- `{:02}`: at least two digits.
unfoldable pub decimal_02 : ℕ → Bytes
unfolding decimal
decimal_02 n = if ltb n 10 then b'0' ∷ decimal n else decimal n

-- One digit and two digits of `{:x}`.
abbrev hex_digit : ℕ → ℕ
hex_digit d = if ltb d 10 then b'0' + d else b'a' + (d - 10)

-- `{:02x}` of a byte.
unfoldable pub hex_02 : ℕ → Bytes
hex_02 byte = hex_digit (byte / 16) ∷ hex_digit (byte % 16) ∷ []

prints_507 : decimal 507 ≡ codes "507"
unfolding decimal
prints_507 = refl

prints_1f : hex_02 0x1f ≡ codes "1f"
unfolding hex_02
prints_1f = refl
