-- ===== src/Prelude/Text/Digits.antt =====
-- The number that decimal digits stand for: what is printed is read back.
use Prim.Native.Nat.{ℕ, ◌+◌, ◌-◌, ◌*◌, ◌/◌, ◌%◌, ◌<◌}
use mathlib.Core.Path.{◌≡◌, ap, ◌∙◌}
use mathlib.Core.List.{[], ◌∷◌, ◌++◌, append_assoc}
use mathlib.Core.WellFounded.{Acc}
use native.Mathlib.Decide.{dec_lt}
use native.Mathlib.Omega.{arith}
use live.Prelude.Lists.{Bytes}
use live.Prelude.Order.{lt_wf}
use live.Prelude.Tests.{ltb, if◌then◌else◌, dite_holds}
use mathlib.Core.Bool.{false}
use live.Prelude.Text.{decimal_loop, decimal}

-- The digits at the head of a text, behind those that stand for `n`; it ends before `/`, and before
-- what comes below it.
unfoldable pub digits_value : ℕ → Bytes → ℕ
digits_value n [] = n
digits_value n (c ∷ s) =
    let more = digits_value (n * 10 + (c - b'0')) s in if ltb c b'0' then n else more

value-cons :
    (m n d : ℕ) (rest : Bytes)
    → m * 10 + d ≡ n
    → digits_value m ((b'0' + d) ∷ rest) ≡ digits_value n rest
unfolding digits_value
value-cons m n d rest e =
    let digit : ltb (b'0' + d) b'0' ≡ false = ground arith in
    rw digit (ap (λ k. digits_value k rest) (omega (arith, e)))

value-decimal_loop :
    (n : ℕ) (acc : Acc ◌<◌ n) (rest : Bytes)
    → digits_value 0 (decimal_loop n acc ++ rest) ≡ digits_value n rest
unfolding decimal_loop
value-decimal_loop n (Acc.intro _ smaller) rest =
    dite_holds (λ text. digits_value 0 (text ++ rest) ≡ digits_value n rest) (dec_lt 9 n) _ _
      (λ h.
        ap (digits_value 0) (
          append_assoc (decimal_loop (n / 10) (smaller (n / 10) (omega arith)))
            ((b'0' + n % 10) ∷ []) rest)
        ∙ value-decimal_loop (n / 10) (smaller (n / 10) (omega arith)) ((b'0' + n % 10) ∷ rest)
        ∙ value-cons (n / 10) n (n % 10) rest (omega arith))
      (λ h. value-cons 0 n n rest (omega arith))

-- The digits that are printed stand for the number.
pub value-decimal :
    (n : ℕ) (rest : Bytes) → digits_value 0 (decimal n ++ rest) ≡ digits_value n rest
unfolding decimal
value-decimal n rest = value-decimal_loop n (lt_wf.apply n) rest
