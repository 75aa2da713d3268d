-- ===== src/Recorder/Fmp4/Boxes.antt =====
-- fmp4.rs: the helpers that write numbers and boxes, and how a reader of the format takes them apart.
use live.Prelude.{
  ℕ, zero, suc, ◌+◌, ◌*◌, ◌^◌, ◌<◌, ◌≡◌, refl, ap, false, ◌||◌, bytes_eq, Bytes, List, [], ◌∷◌,
  ◌++◌, append-nil, sym, ◌∙◌, arith, ltb, if◌then◌else◌, Option, none, some, length, take, drop,
  length-append, take-append, drop-append, u8, u32, ◌>>>◌,
}
use live.Recorder.AnnexB.{be_u32}

-- `to_be_bytes` of a `u16` and of a `u64`, and `be_u16`.
abbrev pub be_u16 : ℕ → Bytes
be_u16 v = u8 (v >>> 8) ∷ u8 v ∷ []

abbrev pub be_u64 : ℕ → Bytes
be_u64 v = be_u32 (v >>> 32) ++ be_u32 (u32 v)

-- `zeroes`: so many bytes.
abbrev pub zeroes : ℕ → Bytes
zeroes zero = []
zeroes (suc n) = 0 ∷ zeroes n

unfoldable pub make_box : (type payload : Bytes) → Bytes
make_box type payload = be_u32 (u32 (8 + length payload)) ++ (type ++ payload)

-- What a reader makes of four bytes, and of eight.
abbrev pub read_u32 : Bytes → ℕ
read_u32 (a ∷ b ∷ c ∷ d ∷ _) = ((a * 256 + b) * 256 + c) * 256 + d
read_u32 _ = 0

abbrev pub read_u64 : Bytes → ℕ
read_u64 bytes = read_u32 bytes * 2 ^ 32 + read_u32 (drop 4 bytes)

-- A box read before others.
abbrev pub with_box : Bytes → Bytes → Option (List (Bytes × Bytes)) → Option (List (Bytes × Bytes))
with_box type payload none = none
with_box type payload (some boxes) = some ((type, payload) ∷ boxes)

-- A reader of boxes: at most `n` of them, each with its type and its payload, and nothing behind
-- the last; `none` if a size is below 8 or goes past the end.
pub read_boxes : ℕ → Bytes → Option (List (Bytes × Bytes))
read_boxes n [] = some []
read_boxes zero (x ∷ xs) = none
read_boxes (suc n) (x ∷ xs) =
    let bytes = x ∷ xs in
    let size = read_u32 bytes in
    let rest = read_boxes n (drop size bytes) in
    if ltb size 8 || ltb (length bytes) size
    then none
    else with_box (take 4 (drop 4 bytes)) (drop 8 (take size bytes)) rest

pub read_u32-be_u32 : (v : ℕ) (rest : Bytes) → v < 2 ^ 32 → read_u32 (be_u32 v ++ rest) ≡ v
read_u32-be_u32 v rest h = omega arith

pub read_u64-be_u64 : (v : ℕ) (rest : Bytes) → v < 2 ^ 64 → read_u64 (be_u64 v ++ rest) ≡ v
read_u64-be_u64 v rest h = omega arith

abbrev past_header : ℕ → ℕ
past_header n = suc (suc (suc (suc (suc (suc (suc (suc n)))))))

size_fits :
    (payload rest : Bytes)
    → (ltb (past_header (length payload)) 8
        || ltb (past_header (length (payload ++ rest))) (past_header (length payload)))
      ≡ false
size_fits payload rest = ground (arith, length-append payload rest)

read_boxes-sized :
    (n p q r s a b c d : ℕ) (payload rest : Bytes)
    → read_u32 (p ∷ q ∷ r ∷ s ∷ []) ≡ past_header (length payload)
    → read_boxes (suc n) (p ∷ q ∷ r ∷ s ∷ a ∷ b ∷ c ∷ d ∷ (payload ++ rest))
      ≡ with_box (a ∷ b ∷ c ∷ d ∷ []) payload (read_boxes n rest)
unfolding read_boxes
read_boxes-sized n p q r s a b c d payload rest e =
    rw (e, size_fits payload rest, take-append payload rest, drop-append payload rest)

-- A box reads back, if its size fits 32 bits.
pub read_boxes-make_box :
    (n a b c d : ℕ) (payload rest : Bytes)
    → 8 + length payload < 2 ^ 32
    → read_boxes (suc n) (make_box (a ∷ b ∷ c ∷ d ∷ []) payload ++ rest)
      ≡ with_box (a ∷ b ∷ c ∷ d ∷ []) payload (read_boxes n rest)
unfolding make_box
read_boxes-make_box n a b c d payload rest h =
    read_boxes-sized n _ _ _ _ a b c d payload rest (omega arith)

-- The same for a type that is known by its length.
pub read_boxes-box :
    (n : ℕ) (type payload rest : Bytes)
    → length type ≡ 4
    → 8 + length payload < 2 ^ 32
    → read_boxes (suc n) (make_box type payload ++ rest) ≡ with_box type payload (read_boxes n rest)
read_boxes-box n (a ∷ b ∷ c ∷ d ∷ []) payload rest e h =
    read_boxes-make_box n a b c d payload rest h
read_boxes-box n [] payload rest e h = absurd (omega arith)
read_boxes-box n (a ∷ []) payload rest e h = absurd (omega arith)
read_boxes-box n (a ∷ b ∷ []) payload rest e h = absurd (omega arith)
read_boxes-box n (a ∷ b ∷ c ∷ []) payload rest e h = absurd (omega arith)
read_boxes-box n (a ∷ b ∷ c ∷ d ∷ x ∷ xs) payload rest e h = absurd (omega arith)

pub length-make_box :
    (type payload : Bytes) → length (make_box type payload) ≡ 4 + length type + length payload
unfolding make_box
length-make_box type payload = omega (arith, length-append type payload)

read_boxes-nil : (n : ℕ) → read_boxes n [] ≡ some []
unfolding read_boxes
read_boxes-nil zero = refl
read_boxes-nil (suc n) = refl

-- The types have four bytes and the sizes fit.
abbrev pub IsBox : (type payload : Bytes) → Type 0
IsBox type payload = (length type ≡ 4) × (8 + length payload < 2 ^ 32)

module _ (n : ℕ) (t : Bytes) (p : Bytes) (box : IsBox t p) where
  pub read_boxes-one : read_boxes (suc n) (make_box t p) ≡ some ((t, p) ∷ [])
  read_boxes-one =
      ap (read_boxes (suc n)) (sym (append-nil (make_box t p)))
      ∙ read_boxes-box n t p [] box.0 box.1
      ∙ ap (with_box t p) (read_boxes-nil n)

  pub read_boxes-more :
      (rest : Bytes) {boxes : List (Bytes × Bytes)}
      → read_boxes n rest ≡ some boxes
      → read_boxes (suc n) (make_box t p ++ rest) ≡ some ((t, p) ∷ boxes)
  read_boxes-more rest e = read_boxes-box n t p rest box.0 box.1 ∙ ap (with_box t p) e

-- A reader gives up where a part of it does.
infixl 5 ◌>>=◌
abbrev pub ◌>>=◌ {ℓ κ} : {A : Type ℓ} {B : Type κ} → Option A → (A → Option B) → Option B
none >>= f = none
some a >>= f = f a

-- The payload of the first box of a type.
unfoldable pub find_box : Bytes → List (Bytes × Bytes) → Option Bytes
find_box type [] = none
find_box type ((t, payload) ∷ boxes) = if bytes_eq t type then some payload else find_box type boxes
