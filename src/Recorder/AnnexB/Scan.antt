-- ===== src/Recorder/AnnexB/Scan.antt =====
-- A frame that is a sequence of NAL units, each behind a start code of four bytes: the scan finds
-- those units.
use mathlib.Core.WellFounded.{Acc}
use live.Prelude.{
  ℕ, ◌<◌, ◌≡◌, refl, ap, true, false, Bytes, List, [], ◌∷◌, ◌++◌, append-nil, Option, length,
  length-append, some, Bool-cases, inl, inr, Shorter, shorter_wf, All, arith,
}
use live.Recorder.AnnexB.{
  long_code, starts_short, starts_long, starts_code, has_four, to_next_code, annex_b, scan_loop,
  scan_units, take_units,
}

-- No start code begins inside these bytes.
abbrev pub NoCode : Bytes → Type 0
NoCode [] = Unit
NoCode (x ∷ xs) = (starts_code (x ∷ xs) ≡ false) × NoCode xs

-- A NAL unit is not empty, and free of start codes.
abbrev pub IsUnit : Bytes → Type 0
IsUnit unit = (0 < length unit) × NoCode unit

pub units-NoCode : (units : List Bytes) → All IsUnit units → All NoCode units
units-NoCode [] h = tt
units-NoCode (unit ∷ units) h = (h.0.1, units-NoCode units h.1)

-- A start code cannot begin inside such bytes and end in the start code behind them.
not_across :
    (x : ℕ) (xs rest : Bytes)
    → starts_code (x ∷ xs) ≡ false
    → starts_code (x ∷ (xs ++ (long_code ++ rest))) ≡ false
unfolding starts_code starts_short starts_long
not_across x [] rest h = ground arith
not_across x (a ∷ []) rest h = ground arith
not_across x (a ∷ b ∷ []) rest h = ground arith
not_across x (a ∷ b ∷ c ∷ xs) rest h = h

to_next-before_code :
    (unit rest : Bytes)
    → NoCode unit
    → to_next_code (unit ++ (long_code ++ rest)) ≡ (unit, long_code ++ rest)
unfolding to_next_code starts_code starts_short starts_long
to_next-before_code [] rest h = ground arith
to_next-before_code (x ∷ xs) rest h =
    let four : has_four (x ∷ (xs ++ (long_code ++ rest))) ≡ true =
      ground (arith, length-append xs (long_code ++ rest)) in
    rw (four, not_across x xs rest h.0, to_next-before_code xs rest h.1) refl

to_next-at_end : (unit : Bytes) → NoCode unit → to_next_code unit ≡ (unit, [])
unfolding to_next_code
to_next-at_end [] h = refl
to_next-at_end (x ∷ xs) h = elim (Bool-cases (has_four (x ∷ xs))) [
  | inl four ↦ rw (four, h.0, to_next-at_end xs h.1) refl
  | inr few ↦ rw few refl
]

module _ {S : Type 0} (code_at : Bytes → Option ℕ) (add_unit : Bytes → Bytes → S → S)
    (finds_long : (bytes : Bytes) → code_at (long_code ++ bytes) ≡ some 3) where
  -- A cursor may be exchanged for an equal one.
  at_equal :
      (cursor cursor' : Bytes) (s last : S)
      → cursor ≡ cursor'
      → ((acc : Acc Shorter cursor') → scan_loop code_at add_unit cursor' acc s ≡ last)
      → (acc : Acc Shorter cursor) → scan_loop code_at add_unit cursor acc s ≡ last
  at_equal cursor cursor' s last e h = rw e h

  scan_loop-unit :
      (bytes : Bytes) (acc : Acc Shorter (long_code ++ bytes)) (s last : S)
      → ((acc' : Acc Shorter (to_next_code bytes).1)
          → scan_loop code_at add_unit
              (to_next_code bytes).1
              acc'
              (add_unit long_code (to_next_code bytes).0 s)
            ≡ last)
      → scan_loop code_at add_unit (long_code ++ bytes) acc s ≡ last
  unfolding scan_loop
  scan_loop-unit bytes (Acc.intro _ smaller) s last h =
      let four : has_four (long_code ++ bytes) ≡ true = ground arith in
      rw (four, finds_long bytes) (h _)

  scan_loop-units :
      (units : List Bytes) (acc : Acc Shorter (annex_b units)) (s : S)
      → All NoCode units
      → scan_loop code_at add_unit (annex_b units) acc s ≡ take_units (add_unit long_code) units s
  unfolding scan_loop annex_b take_units
  scan_loop-units [] acc s h = refl
  scan_loop-units (unit ∷ []) acc s h =
      let e : to_next_code (unit ++ []) ≡ (unit, []) = rw append-nil (to_next-at_end unit h.0) in
      scan_loop-unit (unit ++ []) acc s _
        (rw (ap (λ p. p.0) e) (at_equal _ [] _ _ (ap (λ p. p.1) e) (λ _. refl)))
  scan_loop-units (unit ∷ next ∷ units) acc s h =
      let rest = next ++ annex_b units in
      let e = to_next-before_code unit rest h.0 in
      scan_loop-unit (unit ++ (long_code ++ rest)) acc s _ (
        rw (ap (λ p. p.0) e) (
          at_equal _ (long_code ++ rest) _ _ (ap (λ p. p.1) e)
            (λ acc'. scan_loop-units (next ∷ units) acc' (add_unit long_code unit s) h.1)))

  -- Whatever was scanned before. A unit may be empty here: two start codes in a row.
  pub scan_units-codes :
      (units : List Bytes) (s : S)
      → All NoCode units
      → scan_units code_at add_unit (annex_b units) s ≡ take_units (add_unit long_code) units s
  unfolding scan_units
  scan_units-codes units s h = scan_loop-units units (shorter_wf.apply (annex_b units)) s h

  pub scan_units-annex_b :
      (units : List Bytes) (s : S)
      → All IsUnit units
      → scan_units code_at add_unit (annex_b units) s ≡ take_units (add_unit long_code) units s
  scan_units-annex_b units s h = scan_units-codes units s (units-NoCode units h)
