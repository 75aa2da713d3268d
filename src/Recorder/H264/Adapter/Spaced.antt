-- ===== src/Recorder/H264/Adapter/Spaced.antt =====
-- The adapter at frames with more start codes than units: `push_packet` of h264.rs writes one before
-- what the depacketizer returns, and that begins with one already.
use live.Prelude.{
  ℕ, ◌≡◌, refl, sym, ◌∙◌, ap, Bytes, List, [], ◌∷◌, ◌++◌, append_assoc, false, Option, All,
  All-append,
}
use live.Recorder.AnnexB.{
  long_code, annex_b, any_unit, all_units, starts_short, starts_long, take_units,
}
use live.Recorder.AnnexB.Scan.{NoCode, IsUnit, units-NoCode, scan_units-codes}
use live.Recorder.H264.NalUnit.{has_type}
use live.Recorder.H264.Adapter.{Scan, H264Adapter, add_unit, code_at, scan_frame, convert_frame}

-- What the depacketizer returns for each packet: NAL units, each behind a start code.
unfoldable pub frames_of : List (List Bytes) → List Bytes
frames_of [] = []
frames_of (units ∷ uss) = annex_b units ∷ frames_of uss

-- The units of a frame in which every packet has one start code more: an empty one before those of
-- each packet.
spaced : List (List Bytes) → List Bytes
spaced [] = []
spaced (units ∷ uss) = [] ∷ (units ++ spaced uss)

annex_b-append : (xs ys : List Bytes) → annex_b (xs ++ ys) ≡ annex_b xs ++ annex_b ys
unfolding annex_b
annex_b-append [] ys = refl
annex_b-append (x ∷ xs) ys =
    ap (λ rest. long_code ++ rest) (ap (λ rest. x ++ rest) (annex_b-append xs ys) ∙ rw append_assoc)

annex_b-spaced : (uss : List (List Bytes)) → annex_b (frames_of uss) ≡ annex_b (spaced uss)
unfolding annex_b frames_of spaced
annex_b-spaced [] = refl
annex_b-spaced (units ∷ uss) =
    ap (λ rest. long_code ++ rest)
      (ap (λ rest. annex_b units ++ rest) (annex_b-spaced uss)
        ∙ rw (annex_b-append units (spaced uss)))

spaced-NoCode : (uss : List (List Bytes)) → All (All IsUnit) uss → All NoCode (spaced uss)
unfolding spaced
spaced-NoCode [] h = tt
spaced-NoCode (units ∷ uss) h =
    (tt, All-append NoCode units (spaced uss) (units-NoCode units h.0) (spaced-NoCode uss h.1))

pub all_units-IsUnit : (uss : List (List Bytes)) → All (All IsUnit) uss → All IsUnit (all_units uss)
unfolding all_units
all_units-IsUnit [] h = tt
all_units-IsUnit (units ∷ uss) h =
    All-append IsUnit units (all_units uss) h.0 (all_units-IsUnit uss h.1)

-- No unit that the depacketizer returns starts with its header: a start code comes first.
pub no_key : (uss : List (List Bytes)) → any_unit (has_type 5) (frames_of uss) ≡ false
unfolding any_unit has_type annex_b frames_of
no_key [] = refl
no_key ([] ∷ uss) = no_key uss
no_key ((_ ∷ _) ∷ uss) = no_key uss

take_units-append :
    {S : Type 0} (take_unit : Bytes → S → S) (xs ys : List Bytes) (s : S)
    → take_units take_unit (xs ++ ys) s ≡ take_units take_unit ys (take_units take_unit xs s)
unfolding take_units
take_units-append take_unit [] ys s = refl
take_units-append take_unit (x ∷ xs) ys s = take_units-append take_unit xs ys (take_unit x s)

module _ (dimensions : Bytes → Option (ℕ × ℕ)) where
  -- The adapter passes over an empty unit.
  take_units-spaced :
      (uss : List (List Bytes)) (s : Scan)
      → take_units (add_unit dimensions long_code) (spaced uss) s
        ≡ take_units (add_unit dimensions long_code) (all_units uss) s
  unfolding take_units spaced all_units scan_frame
  take_units-spaced [] s = refl
  take_units-spaced (units ∷ uss) s =
      take_units-append (add_unit dimensions long_code) units (spaced uss) s
      ∙ take_units-spaced uss (take_units (add_unit dimensions long_code) units s)
      ∙ sym (take_units-append (add_unit dimensions long_code) units (all_units uss) s)

  scan_frame-codes :
      (units : List Bytes) (s : Scan)
      → All NoCode units
      → scan_frame dimensions (annex_b units) s ≡ take_units (add_unit dimensions long_code) units s
  unfolding scan_frame starts_short starts_long
  scan_frame-codes units s h = scan_units-codes code_at (add_unit dimensions) (λ _. refl) units s h

  -- The start codes in excess change nothing.
  scan_frame-spaced :
      (uss : List (List Bytes)) (s : Scan)
      → All (All IsUnit) uss
      → scan_frame dimensions (annex_b (frames_of uss)) s
        ≡ scan_frame dimensions (annex_b (all_units uss)) s
  scan_frame-spaced uss s h =
      ap (λ frame. scan_frame dimensions frame s) (annex_b-spaced uss)
      ∙ scan_frame-codes (spaced uss) s (spaced-NoCode uss h)
      ∙ take_units-spaced uss s
      ∙ sym (
          scan_frame-codes (all_units uss) s
            (units-NoCode (all_units uss) (all_units-IsUnit uss h)))

  pub convert_frame-spaced :
      (a : H264Adapter) (uss : List (List Bytes))
      → All (All IsUnit) uss
      → convert_frame dimensions a (annex_b (frames_of uss))
        ≡ convert_frame dimensions a (annex_b (all_units uss))
  unfolding convert_frame
  convert_frame-spaced a uss h =
      rw
        (scan_frame-spaced uss
          (record { adapter = a; avcc_payload = []; is_idr = false; cfg_updated = false }) h)
        refl
