-- ===== src/Stream/Manager/Expiry.antt =====
-- What the checks of the stream manager remove, and what they leave.
use live.Prelude.{
  ℕ, ◌+◌, ◌*◌, ◌≤◌, ◌<◌, ◌≡◌, refl, sym, ap, ◌∙◌, arith, Bool, true, false, ◌||◌, Bytes, List, [],
  ◌∷◌, if◌then◌else◌, Option, none, some, is_some, bytes_eq, bytes_eq_iff, Bool-cases, inl, inr,
}
use mathlib.Core.Path.{subst}
use live.Stream.Effects.{stream_gauge, count, is_dec, is_stream_down, count-append}
use live.Stream.Forward.{Forward, has_id}
use live.Stream.Forward.Lifecycle.{IsForward}
use live.Stream.Manager.{Manager, Streams, lookup, remove}
use live.Stream.Manager.Ticks.{publish_expired, candidates, expire_with, remove_streams}
use live.Stream.Manager.Streams.{lookup-remove_same, lookup-remove_other}
use live.Stream.Manager.Invariant.{close-silent}

some-injective : {a b : Forward} → some a ≡ some b → a ≡ b
some-injective e = cc

in_rest : (a b : Bool) → a ≡ false → (a || b) ≡ true → b ≡ true
in_rest true b e h = cc
in_rest false b e h = h

first_found :
    (b : Bool) (g f : Forward) (o : Option Forward)
    → b ≡ true
    → (if b then some g else o) ≡ some f
    → g ≡ f
first_found true g f o e h = cc
first_found false g f o e h = cc

rest_found :
    (b : Bool) (g f : Forward) (o : Option Forward)
    → b ≡ false
    → (if b then some g else o) ≡ some f
    → o ≡ some f
rest_found true g f o e h = cc
rest_found false g f o e h = h

module _ (expired : Forward → Bool) (closes : Bytes → Bool) where
  -- One removal leaves a stream that is not over.
  expire_with-keeps :
      (name stream : Bytes) (o : Option Forward) (f : Forward) (m : Manager)
      → lookup name m.streams ≡ o
      → expired f ≡ false
      → lookup stream m.streams ≡ some f
      → lookup stream (expire_with o expired closes name m).streams ≡ some f
  unfolding expire_with
  expire_with-keeps name stream none f m found over there = there
  expire_with-keeps name stream (some g) f m found over there = elim (Bool-cases (expired g)) [
    | inl e ↦ rw e (
        lookup-remove_other name stream m.streams (λ same.
          let both : some g ≡ some f =
            sym found ∙ ap (λ (n : Bytes). lookup n m.streams) same ∙ there in
          let clash : true ≡ false = sym e ∙ ap expired (some-injective both) ∙ over in cc)
        ∙ there)
    | inr e ↦ rw e there
  ]

  pub remove_streams-keeps :
      (names : List Bytes) (stream : Bytes) (f : Forward) (m : Manager)
      → expired f ≡ false
      → lookup stream m.streams ≡ some f
      → lookup stream (remove_streams expired closes names m).streams ≡ some f
  unfolding remove_streams
  remove_streams-keeps [] stream f m over there = there
  remove_streams-keeps (name ∷ names) stream f m over there =
      remove_streams-keeps names stream f
        (expire_with (lookup name m.streams) expired closes name m) over
        (expire_with-keeps name stream (lookup name m.streams) f m refl over there)

  -- A stream that is not there does not come back.
  expire_with-absent :
      (name stream : Bytes) (o : Option Forward) (m : Manager)
      → lookup stream m.streams ≡ none
      → lookup stream (expire_with o expired closes name m).streams ≡ none
  unfolding expire_with
  expire_with-absent name stream none m e = e
  expire_with-absent name stream (some g) m e = elim (Bool-cases (expired g)) [
    | inl over ↦ rw over (elim (Bool-cases (bytes_eq name stream)) [
      | inl same ↦
          subst (λ (n : Bytes). lookup n (remove name m.streams) ≡ none)
            ((bytes_eq_iff name stream).0 same) (lookup-remove_same name m.streams)
      | inr other ↦
          lookup-remove_other name stream m.streams (λ same.
            let clash : true ≡ false = sym ((bytes_eq_iff name stream).1 same) ∙ other in cc)
          ∙ e
    ])
    | inr stays ↦ rw stays e
  ]

  remove_streams-absent :
      (names : List Bytes) (stream : Bytes) (m : Manager)
      → lookup stream m.streams ≡ none
      → lookup stream (remove_streams expired closes names m).streams ≡ none
  unfolding remove_streams
  remove_streams-absent [] stream m e = e
  remove_streams-absent (name ∷ names) stream m e =
      remove_streams-absent names stream (expire_with (lookup name m.streams) expired closes name m)
        (expire_with-absent name stream (lookup name m.streams) m e)

  expire_with-removes :
      (name stream : Bytes) (f : Forward) (m : Manager)
      → name ≡ stream
      → expired f ≡ true
      → lookup stream m.streams ≡ some f
      → lookup stream (expire_with (lookup name m.streams) expired closes name m).streams ≡ none
  unfolding expire_with
  expire_with-removes name stream f m same over there =
      subst
        (λ (n : Bytes).
          lookup stream (expire_with (lookup n m.streams) expired closes n m).streams ≡ none)
        (sym same)
        (ap (λ (o : Option Forward). lookup stream (expire_with o expired closes stream m).streams)
            there
          ∙ rw over (lookup-remove_same stream m.streams))

  expire_with-other :
      (name stream : Bytes) (o : Option Forward) (m : Manager)
      → bytes_eq name stream ≡ false
      → lookup stream (expire_with o expired closes name m).streams ≡ lookup stream m.streams
  unfolding expire_with
  expire_with-other name stream none m other = refl
  expire_with-other name stream (some g) m other = elim (Bool-cases (expired g)) [
    | inl over ↦ rw over (
        lookup-remove_other name stream m.streams (λ same.
          let clash : true ≡ false = sym ((bytes_eq_iff name stream).1 same) ∙ other in cc))
    | inr stays ↦ rw stays refl
  ]

  -- A stream that is over, and among the names, goes.
  remove_streams-removes :
      (names : List Bytes) (stream : Bytes) (f : Forward) (m : Manager)
      → has_id stream names ≡ true
      → expired f ≡ true
      → lookup stream m.streams ≡ some f
      → lookup stream (remove_streams expired closes names m).streams ≡ none
  unfolding remove_streams
  remove_streams-removes [] stream f m named over there = cc
  remove_streams-removes (name ∷ names) stream f m named over there =
      let next = expire_with (lookup name m.streams) expired closes name m in
      elim (Bool-cases (bytes_eq name stream)) [
        | inl same ↦
            remove_streams-absent names stream next
              (expire_with-removes name stream f m ((bytes_eq_iff name stream).0 same) over there)
        | inr other ↦
            remove_streams-removes names stream f next
              (in_rest (bytes_eq name stream) (has_id stream names) other named) over
              (expire_with-other name stream (lookup name m.streams) m other ∙ there)
      ]

  -- The log of one removal, and of all.
  expire_with-gauge :
      (name : Bytes) (o : Option Forward) (m : Manager)
      → count (is_dec stream_gauge) (expire_with o expired closes name m).log
          + 2 * count is_stream_down m.log
        ≡ count (is_dec stream_gauge) m.log
          + 2 * count is_stream_down (expire_with o expired closes name m).log
  unfolding expire_with
  expire_with-gauge name none m = refl
  expire_with-gauge name (some g) m = elim (Bool-cases (expired g)) [
    | inl over ↦
        rw over (let (a, b, c, d) = close-silent closes g in omega (arith, count-append, b, d))
    | inr stays ↦ rw stays refl
  ]

  -- A check for streams that are over takes the gauge of the streams down twice for every stream that
  -- it reports as gone down.
  pub remove_streams-gauge :
      (names : List Bytes) (m : Manager)
      → count (is_dec stream_gauge) (remove_streams expired closes names m).log
          + 2 * count is_stream_down m.log
        ≡ count (is_dec stream_gauge) m.log
          + 2 * count is_stream_down (remove_streams expired closes names m).log
  unfolding remove_streams
  remove_streams-gauge [] m = refl
  remove_streams-gauge (name ∷ names) m = omega (
    arith,
    remove_streams-gauge names (expire_with (lookup name m.streams) expired closes name m),
    expire_with-gauge name (lookup name m.streams) m,
  )

  candidates-has :
      (streams : Streams) (stream : Bytes) (f : Forward)
      → expired f ≡ true
      → lookup stream streams ≡ some f
      → has_id stream (candidates expired streams) ≡ true
  unfolding candidates lookup
  candidates-has [] stream f over there = cc
  candidates-has ((name, g) ∷ streams) stream f over there =
      elim (Bool-cases (bytes_eq name stream)) [
        | inl same ↦
            let here = first_found (bytes_eq name stream) g f (lookup stream streams) same there in
            let gone : expired g ≡ true = ap expired here ∙ over in rw (gone, same) refl
        | inr other ↦
            let found =
              candidates-has streams stream f over
                (rest_found (bytes_eq name stream) g f (lookup stream streams) other there) in
            elim (Bool-cases (expired g)) [ inl e ↦ rw (e, other) found | inr e ↦ rw e found ]
      ]

-- While a stream has a publisher, no check for publishers removes it, whichever names it found before
-- and however long it took: the removal looks again. The stream's sessions are well formed.
pub publish_check-keeps :
    (now timeout : ℕ) (closes : Bytes → Bool) (names : List Bytes) (stream : Bytes) (f : Forward)
    (m : Manager)
    → IsForward f
    → is_some f.publish ≡ true
    → lookup stream m.streams ≡ some f
    → lookup stream (remove_streams (publish_expired now timeout) closes names m).streams ≡ some f
unfolding publish_expired
publish_check-keeps now timeout closes names stream f m k here there =
    remove_streams-keeps (publish_expired now timeout) closes names stream f m
      (let zero_time = k.publishing here in ground arith) there

-- A check for publishers removes a stream whose publisher left longer ago than the timeout: the first
-- half finds it, and the second half, later and with nothing between them, takes it out.
pub publish_check-removes :
    (searched now timeout : ℕ) (closes : Bytes → Bool) (stream : Bytes) (f : Forward) (m : Manager)
    → 0 < f.publish_leave_at
    → f.publish_leave_at + timeout < searched
    → searched ≤ now
    → lookup stream m.streams ≡ some f
    → lookup stream
        (remove_streams
          (publish_expired now timeout)
          closes
          (candidates (publish_expired searched timeout) m.streams)
          m).streams
      ≡ none
unfolding publish_expired
publish_check-removes searched now timeout closes stream f m left long later there =
    remove_streams-removes (publish_expired now timeout) closes
      (candidates (publish_expired searched timeout) m.streams) stream f m
      (candidates-has (publish_expired searched timeout) closes m.streams stream f (ground arith)
        there)
      (ground arith) there
