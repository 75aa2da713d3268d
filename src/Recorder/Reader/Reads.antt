-- ===== src/Recorder/Reader/Reads.antt =====
-- Programs that read, and what they return: rules for a statement and the rest of the program.
use live.Prelude.{
  ℕ, ◌+◌, ◌*◌, ◌≤◌, ◌≡◌, Bool, true, false, if◌then◌else◌, length, Outcome, ok, err, panic, Returns,
}
use live.Recorder.Reader.{BitReader, Read, ◌>>=◌, ◌>>◌, return, fail}

pub record IsReader (br : BitReader) : Type 0 where
  pub all_bits : br.bit_len ≡ length br.data_bytes * 8
  pub inside : br.bit_pos ≤ br.bit_len

-- The reader, moved on by `n` bits.
abbrev pub advance : ℕ → BitReader → BitReader
advance n br = record br { bit_pos = br.bit_pos + n }

-- A program that reads: on a reader it returns a value with `P` and a reader over the same
-- bytes, no further back, or it fails. It does not panic.
pub record Reads {E A : Type 0} (P : A → Type 0) (m : Read E A) : Type 0 where
  pub run :
      (br : BitReader) → IsReader br → Returns (λ (r : A × BitReader). P r.0 × IsReader r.1) (m br)

module _ {E A : Type 0} (P : A → Type 0) where
  pub Reads-return : (a : A) → P a → Reads {E = E} P (return a)
  Reads-return a h = record { run = λ br ok_br. unfold return in (h, ok_br) }

  pub Reads-fail : (e : E) → Reads P (fail e)
  Reads-fail e = record { run = λ br ok_br. unfold fail in tt }

  pub Reads-if : (b : Bool) {m k : Read E A} → Reads P m → Reads P k → Reads P (if b then m else k)
  Reads-if true h k = h
  Reads-if false h k = k

Returns-weaken :
    {E A : Type 0} (P Q : A → Type 0)
    → ((a : A) → P a → Q a)
    → (r : Outcome E (A × BitReader)) → Returns (λ (p : A × BitReader). P p.0 × IsReader p.1) r
    → Returns (λ (p : A × BitReader). Q p.0 × IsReader p.1) r
Returns-weaken P Q h (ok (a, br)) (p, ok_br) = (h a p, ok_br)
Returns-weaken P Q h (err e) p = tt
Returns-weaken P Q h panic p = p

pub Reads-weaken :
    {E A : Type 0} (P Q : A → Type 0)
    → ((a : A) → P a → Q a)
    → {m : Read E A} → Reads P m
    → Reads Q m
Reads-weaken P Q h {m} k = record { run = λ br ok_br. Returns-weaken P Q h (m br) (k.run br ok_br) }

module _ {E A B : Type 0} (P : A → Type 0) (Q : B → Type 0) where
  pub Reads->>= :
      {m : Read E A} {f : A → Read E B}
      → Reads P m
      → ((a : A) → P a → Reads Q (f a))
      → Reads Q (m >>= f)
  Reads->>= {m} {f} h k = record { run = λ br ok_br. unfold ◌>>=◌ in go (m br) (h.run br ok_br) }
    where
      go :
          (r : Outcome E (A × BitReader))
          → Returns (λ (p : A × BitReader). P p.0 × IsReader p.1) r
          → Returns
              (λ (p : B × BitReader). Q p.0 × IsReader p.1)
              (elim r [ ok (a, br') ↦ f a br' | err e ↦ err e | panic ↦ panic ])
      go (ok (a, br')) (p, ok_br') = (k a p).run br' ok_br'
      go (err e) p = tt
      go panic p = absurd p

module _ {E B : Type 0} (Q : B → Type 0) where
  pub Reads-then :
      {A : Type 0} {m : Read E A} {k : Read E B}
      → Reads (λ _. Unit {0}) m
      → Reads Q k
      → Reads Q (m >> k)
  Reads-then h k = unfold ◌>>◌ in Reads->>= (λ _. Unit {0}) Q h (λ _ _. k)
