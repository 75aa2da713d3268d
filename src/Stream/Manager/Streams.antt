-- ===== src/Stream/Manager/Streams.antt =====
-- The map of streams: what its operations leave and change.
use live.Prelude.{
  suc, ◌≡◌, ◌≢◌, refl, sym, ap, ◌∙◌, arith, Bool, true, false, Bytes, [], ◌∷◌, if◌then◌else◌,
  Option, none, some, bytes_eq, bytes_eq_iff, length, Bool-cases, inl, inr,
}
use live.Stream.Forward.{Forward}
use live.Stream.Manager.{Streams, lookup, remove, put}

-- No two streams have the same name.
abbrev pub Distinct : Streams → Type 0
Distinct [] = Unit
Distinct ((name, f) ∷ streams) = (lookup name streams ≡ none) × Distinct streams

abbrev pub AllForwards : (Forward → Type 0) → Streams → Type 0
AllForwards P [] = Unit
AllForwards P ((name, f) ∷ streams) = P f × AllForwards P streams

absent_both :
    (b : Bool) (f : Forward) (o : Option Forward)
    → (if b then some f else o) ≡ none
    → (b ≡ false) × (o ≡ none)
absent_both true f o e = cc
absent_both false f o e = (refl, e)

bytes_ne : (xs ys : Bytes) → xs ≢ ys → bytes_eq xs ys ≡ false
bytes_ne xs ys n = elim (Bool-cases (bytes_eq xs ys)) [
  | inl e ↦ absurd (n ((bytes_eq_iff xs ys).0 e))
  | inr e ↦ e
]

pub lookup-remove_same : (s : Bytes) (streams : Streams) → lookup s (remove s streams) ≡ none
unfolding lookup remove
lookup-remove_same s [] = refl
lookup-remove_same s ((name, f) ∷ streams) = elim (Bool-cases (bytes_eq name s)) [
  | inl e ↦ rw e (lookup-remove_same s streams)
  | inr e ↦ rw (e, e) (lookup-remove_same s streams)
]

pub lookup-remove_other :
    (s t : Bytes) (streams : Streams) → s ≢ t → lookup t (remove s streams) ≡ lookup t streams
unfolding lookup remove
lookup-remove_other s t [] n = refl
lookup-remove_other s t ((name, f) ∷ streams) n = elim (Bool-cases (bytes_eq name s)) [
  | inl e ↦
      let other = bytes_ne name t (λ same. n (sym ((bytes_eq_iff name s).0 e) ∙ same)) in
      rw (e, other) (lookup-remove_other s t streams n)
  | inr e ↦ rw e (
      ap (λ (o : Option Forward). if bytes_eq name t then some f else o)
        (lookup-remove_other s t streams n))
]

absent-remove :
    (s t : Bytes) (streams : Streams) → lookup t streams ≡ none → lookup t (remove s streams) ≡ none
unfolding lookup remove
absent-remove s t [] e = refl
absent-remove s t ((name, f) ∷ streams) e =
    let (here, rest) = absent_both (bytes_eq name t) f (lookup t streams) e in
    elim (Bool-cases (bytes_eq name s)) [
      | inl same ↦ rw same (absent-remove s t streams rest)
      | inr other ↦ rw (other, here) (absent-remove s t streams rest)
    ]

pub Distinct-remove :
    (s : Bytes) (streams : Streams) → Distinct streams → Distinct (remove s streams)
unfolding remove
Distinct-remove s [] d = tt
Distinct-remove s ((name, f) ∷ streams) d = elim (Bool-cases (bytes_eq name s)) [
  | inl e ↦ rw e (Distinct-remove s streams d.1)
  | inr e ↦ rw e (absent-remove s name streams d.0, Distinct-remove s streams d.1)
]

absent-put :
    (s t : Bytes) (g : Forward) (streams : Streams)
    → lookup t streams ≡ none
    → lookup t (put s g streams) ≡ none
unfolding lookup put
absent-put s t g [] e = refl
absent-put s t g ((name, f) ∷ streams) e =
    let (here, rest) = absent_both (bytes_eq name t) f (lookup t streams) e in
    elim (Bool-cases (bytes_eq name s)) [
      | inl same ↦ rw (same, here) (absent-put s t g streams rest)
      | inr other ↦ rw (other, here) (absent-put s t g streams rest)
    ]

pub Distinct-put :
    (s : Bytes) (g : Forward) (streams : Streams) → Distinct streams → Distinct (put s g streams)
unfolding put
Distinct-put s g [] d = tt
Distinct-put s g ((name, f) ∷ streams) d = elim (Bool-cases (bytes_eq name s)) [
  | inl e ↦ rw e (absent-put s name g streams d.0, Distinct-put s g streams d.1)
  | inr e ↦ rw e (absent-put s name g streams d.0, Distinct-put s g streams d.1)
]

pub length-put :
    (s : Bytes) (g : Forward) (streams : Streams) → length (put s g streams) ≡ length streams
unfolding put
length-put s g [] = refl
length-put s g ((name, f) ∷ streams) = omega (arith, length-put s g streams)

remove_absent :
    (s : Bytes) (streams : Streams) → lookup s streams ≡ none → remove s streams ≡ streams
unfolding lookup remove
remove_absent s [] e = refl
remove_absent s ((name, f) ∷ streams) e =
    let (here, rest) = absent_both (bytes_eq name s) f (lookup s streams) e in
    rw here (ap (λ (ss : Streams). (name, f) ∷ ss) (remove_absent s streams rest))

pub length-remove :
    (s : Bytes) (g : Forward) (streams : Streams)
    → Distinct streams
    → lookup s streams ≡ some g
    → length streams ≡ suc (length (remove s streams))
unfolding lookup remove
length-remove s g [] d e = cc
length-remove s g ((name, f) ∷ streams) d e = elim (Bool-cases (bytes_eq name s)) [
  | inl same ↦
      rw
        (
          same,
          remove_absent s streams
              (ap (λ (t : Bytes). lookup t streams) (sym ((bytes_eq_iff name s).0 same)) ∙ d.0),
        )
        refl
  | inr other ↦ rw other (ap suc (length-remove s g streams d.1 (later (bytes_eq name s) other e)))
]
  where
    later :
        (b : Bool)
        → b ≡ false
        → (if b then some f else lookup s streams) ≡ some g
        → lookup s streams ≡ some g
    later true h e = cc
    later false h e = e

module _ (P : Forward → Type 0) where
  pub AllForwards-remove :
      (s : Bytes) (streams : Streams) → AllForwards P streams → AllForwards P (remove s streams)
  unfolding remove
  AllForwards-remove s [] all = tt
  AllForwards-remove s ((name, f) ∷ streams) all = elim (Bool-cases (bytes_eq name s)) [
    | inl e ↦ rw e (AllForwards-remove s streams all.1)
    | inr e ↦ rw e (all.0, AllForwards-remove s streams all.1)
  ]

  pub AllForwards-put :
      (s : Bytes) (g : Forward) (streams : Streams)
      → P g
      → AllForwards P streams
      → AllForwards P (put s g streams)
  unfolding put
  AllForwards-put s g [] new all = tt
  AllForwards-put s g ((name, f) ∷ streams) new all = elim (Bool-cases (bytes_eq name s)) [
    | inl e ↦ rw e (new, AllForwards-put s g streams new all.1)
    | inr e ↦ rw e (all.0, AllForwards-put s g streams new all.1)
  ]

  -- `P`, of a stream that is found.
  abbrev pub OnSome : Option Forward → Type 0
  OnSome none = Unit
  OnSome (some f) = P f

  pub AllForwards-lookup :
      (s : Bytes) (streams : Streams) → AllForwards P streams → OnSome (lookup s streams)
  unfolding lookup
  AllForwards-lookup s [] all = tt
  AllForwards-lookup s ((name, g) ∷ streams) all = elim (Bool-cases (bytes_eq name s)) [
    | inl e ↦ rw e all.0
    | inr e ↦ rw e (AllForwards-lookup s streams all.1)
  ]
