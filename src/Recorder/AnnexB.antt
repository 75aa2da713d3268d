-- ===== src/Recorder/AnnexB.antt =====
-- The scan for start codes in `convert_frame` of codec/h264.rs and codec/h265.rs, which cuts a frame
-- into NAL units, and `nalu_to_avcc` of liveion/src/recorder/fmp4.rs.
pub mod Scan
use mathlib.Core.WellFounded.{Acc}
use live.Prelude.{
  ℕ, suc, ◌<◌, ◌≡◌, refl, ◌≤◌, Bool, false, ◌&&◌, ◌||◌, not, Bytes, List, [], ◌∷◌, ◌++◌, arith, ltb,
  ◌==◌, if◌then◌else◌, length, drop, length-drop, Shorter, shorter_wf, Option, none, some, take,
  u32, ◌>>>◌, u8,
}

abbrev pub long_code : Bytes
long_code = 0 ∷ 0 ∷ 0 ∷ 1 ∷ []

-- `starts_with(&[0, 0, 1])` and `starts_with(&[0, 0, 0, 1])`.
unfoldable pub starts_short : Bytes → Bool
starts_short (a ∷ b ∷ c ∷ _) = a == 0 && b == 0 && c == 1
starts_short _ = false

unfoldable pub starts_long : Bytes → Bool
starts_long (a ∷ b ∷ c ∷ d ∷ _) = a == 0 && b == 0 && c == 0 && d == 1
starts_long _ = false

unfoldable pub starts_code : Bytes → Bool
starts_code bytes = starts_short bytes || starts_long bytes

-- `n + 3 < bytes.len()`, at the place `n` where these bytes start.
abbrev pub has_four : Bytes → Bool
has_four bytes = ltb 3 (length bytes)

-- The loop that looks for the next start code: what it passes over, and what it stops at. Where
-- fewer than four bytes are left it goes to the end.
unfoldable pub to_next_code : Bytes → Bytes × Bytes
to_next_code [] = ([], [])
to_next_code (x ∷ xs) =
    let rest = to_next_code xs in
    if not (has_four (x ∷ xs))
    then (x ∷ xs, [])
    else if starts_code (x ∷ xs)
    then ([], x ∷ xs)
    else (x ∷ rest.0, rest.1)

pub to_next_code_shorter : (bytes : Bytes) → length (to_next_code bytes).1 ≤ length bytes
unfolding to_next_code
to_next_code_shorter [] = omega arith
to_next_code_shorter (x ∷ xs) = ground (arith, to_next_code_shorter xs)

-- What follows a start code of `n` bytes is shorter than the cursor.
pub after_code-Shorter : (n x : ℕ) (xs : Bytes) → Shorter (to_next_code (drop n xs)).1 (x ∷ xs)
after_code-Shorter n x xs = omega (arith, to_next_code_shorter (drop n xs), length-drop n xs)

-- `nalu_to_avcc`: the start code, if there is one, gives way to the length in four bytes.
abbrev pub be_u32 : ℕ → Bytes
be_u32 v = u8 (v >>> 24) ∷ u8 (v >>> 16) ∷ u8 (v >>> 8) ∷ u8 v ∷ []

unfoldable pub nalu_to_avcc : Bytes → Bytes
nalu_to_avcc nalu =
    let payload = drop (if starts_long nalu then 4 else if starts_short nalu then 3 else 0) nalu in
    be_u32 (u32 (length payload)) ++ payload

-- The frame of some NAL units: each of them behind a start code of four bytes.
unfoldable pub annex_b : List Bytes → Bytes
annex_b [] = []
annex_b (unit ∷ units) = long_code ++ (unit ++ annex_b units)

-- The units of several frames, in order.
unfoldable pub all_units : List (List Bytes) → List Bytes
all_units [] = []
all_units (units ∷ uss) = units ++ all_units uss

-- The units, each with its length in four bytes before it.
unfoldable pub with_length : Bytes → Bytes
with_length unit = be_u32 (u32 (length unit)) ++ unit

unfoldable pub avcc : List Bytes → Bytes
avcc [] = []
avcc (unit ∷ units) = with_length unit ++ avcc units

-- A flag that one of the units sets.
unfoldable pub any_unit : (Bytes → Bool) → List Bytes → Bool
any_unit test [] = false
any_unit test (unit ∷ units) = test unit || any_unit test units

module _ {S : Type 0} (code_at : Bytes → Option ℕ) (add_unit : Bytes → Bytes → S → S) where
  -- The loop over the frame, at the cursor `bytes[offset..]`. `code_at` is its test for a start code:
  -- one less than the length of the code that the cursor starts with. `add_unit` is the rest of a
  -- round, given the start code and the bytes up to the next one.
  unfoldable pub scan_loop : (cursor : Bytes) → Acc Shorter cursor → S → S
  scan_loop [] _ s = s
  scan_loop (x ∷ xs) (Acc.intro _ smaller) s =
      let at_code = λ (n : ℕ).
        scan_loop (to_next_code (drop n xs)).1
          (smaller (to_next_code (drop n xs)).1 (after_code-Shorter n x xs))
          (add_unit (take (suc n) (x ∷ xs)) (to_next_code (drop n xs)).0 s) in
      let further = scan_loop xs (smaller xs (omega arith)) s in
      if not (has_four (x ∷ xs))
      then s
      else elim (code_at (x ∷ xs)) [ none ↦ further | some n ↦ at_code n ]

  unfoldable pub scan_units : Bytes → S → S
  unfolding scan_loop shorter_wf
  scan_units frame s = scan_loop frame (shorter_wf.apply frame) s

-- The units, one after the other.
unfoldable pub take_units : {S : Type 0} → (Bytes → S → S) → List Bytes → S → S
take_units take_unit [] s = s
take_units take_unit (unit ∷ units) s = take_units take_unit units (take_unit unit s)
