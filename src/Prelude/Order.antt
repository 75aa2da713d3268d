-- ===== src/Prelude/Order.antt =====
-- `<` on the native numbers, and lists by their length, are well founded.
use Prim.Native.Nat.{ℕ, zero, suc, ◌<◌}
use mathlib.Core.List.{List, ◌∷◌}
use mathlib.Core.WellFounded.{Acc, WellFounded}
use native.Mathlib.Omega.{arith}
use live.Prelude.Lists.{length, drop, length-drop}

Acc-below : (k n : ℕ) → n < k → Acc ◌<◌ n
Acc-below zero n h = absurd (omega arith)
Acc-below (suc k) n h = Acc.intro n (λ m hm. Acc-below k m (omega arith))

unfoldable pub lt_wf : WellFounded ◌<◌
unfolding Acc-below
lt_wf = record { apply = λ n. Acc-below (suc n) n (omega arith) }

-- For a loop that moves a slice forward.
abbrev pub Shorter {ℓ} : {A : Type ℓ} → List A → List A → Type 0
Shorter xs ys = length xs < length ys

Acc-shorter {ℓ} : {A : Type ℓ} (k : ℕ) (xs : List A) → length xs < k → Acc Shorter xs
Acc-shorter zero xs h = absurd (omega arith)
Acc-shorter (suc k) xs h = Acc.intro xs (λ ys hy. Acc-shorter k ys (omega arith))

unfoldable pub shorter_wf {ℓ} : {A : Type ℓ} → WellFounded (Shorter {A = A})
unfolding Acc-shorter
shorter_wf = record { apply = λ xs. Acc-shorter (suc (length xs)) xs (omega arith) }

-- A slice that has moved on by one element, and by any number after that.
pub drop-Shorter {ℓ} : {A : Type ℓ} (n : ℕ) (x : A) (xs : List A) → Shorter (drop n xs) (x ∷ xs)
drop-Shorter n x xs = omega (arith, length-drop n xs)

pub drop_drop-Shorter {ℓ} :
    {A : Type ℓ} (m n : ℕ) (x : A) (xs : List A)
    → 0 < n
    → Shorter (drop n (drop m (x ∷ xs))) (x ∷ xs)
drop_drop-Shorter m n x xs h =
    omega (arith, length-drop n (drop m (x ∷ xs)), length-drop m (x ∷ xs))
