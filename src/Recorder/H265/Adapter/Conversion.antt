-- ===== src/Recorder/H265/Adapter/Conversion.antt =====
-- What the H.265 adapter makes of a frame of NAL units: the payload, the keyframe flag, the parameter
-- sets, and whether the configuration is reported.
use live.Prelude.{
  ℕ, ◌<◌, ◌≡◌, refl, sym, ap, ◌∙◌, Bool, true, false, ◌&&◌, ◌||◌, Bytes, List, [], ◌∷◌, ◌++◌,
  append_assoc, append-nil, if◌then◌else◌, Option, none, some, length, All, arith, bytes_eq_iff,
}
use live.Recorder.Codec.{Converted}
use live.Recorder.AnnexB.{
  long_code, starts_short, starts_long, nalu_to_avcc, annex_b, avcc, with_length, any_unit,
  take_units,
}
use live.Recorder.AnnexB.Scan.{IsUnit, scan_units-annex_b}
use live.Recorder.H265.NalUnit.{has_type, starts_random_access}
use live.Recorder.H265.Adapter.{
  H265Adapter, Scan, ready, is_stored, add_unit, code_at, scan_frame, update_codec_info,
  convert_frame,
}

-- A unit with its header of two bytes, free of start codes.
abbrev pub HasHeader : Bytes → Type 0
HasHeader unit = IsUnit unit × (1 < length unit)

-- The last parameter set of the type, or the one known before.
pub last_or : Option Bytes → ℕ → List Bytes → Option Bytes
last_or known type [] = known
last_or known type (unit ∷ units) =
    last_or (if has_type type unit then some unit else known) type units

stored_same : (o : Option Bytes) (body : Bytes) → is_stored o body ≡ true → o ≡ some body
unfolding is_stored
stored_same none body h = cc
stored_same (some x) body h = ap some ((bytes_eq_iff x body).0 h)

-- The three parameter sets.
record SameSets (a b : H265Adapter) : Type 0 where
  vps : b.vps ≡ a.vps
  sps : b.sps ≡ a.sps
  pps : b.pps ≡ a.pps

-- What one unit changes; where no new set is noted, all sets are as they were.
record Taken (unit : Bytes) (s next : Scan) : Type 0 where
  payload : next.avcc_payload ≡ s.avcc_payload ++ with_length unit
  access : next.random_access ≡ (s.random_access || starts_random_access unit)
  vps : next.adapter.vps ≡ last_or s.adapter.vps 32 (unit ∷ [])
  sps : next.adapter.sps ≡ last_or s.adapter.sps 33 (unit ∷ [])
  pps : next.adapter.pps ≡ last_or s.adapter.pps 34 (unit ∷ [])
  quiet : next.cfg_updated ≡ false → SameSets s.adapter next.adapter
  noted : s.cfg_updated ≡ true → next.cfg_updated ≡ true

add_unit-Taken :
    (unit : Bytes) (s : Scan) → 1 < length unit → Taken unit s (add_unit long_code unit s)
unfolding scan_frame nalu_to_avcc starts_long has_type starts_random_access last_or with_length
add_unit-Taken [] s h = absurd (omega arith)
add_unit-Taken (header ∷ []) s h = absurd (omega arith)
add_unit-Taken (header ∷ second ∷ rest) s h =
    let body = header ∷ second ∷ rest in
    let v = stored_same s.adapter.vps body in
    let q = stored_same s.adapter.sps body in
    let p = stored_same s.adapter.pps body in
    record {
      payload = ground arith;
      access = ground arith;
      vps = ground (arith, v);
      sps = ground (arith, q);
      pps = ground (arith, p);
      quiet = λ e. record { vps = ground arith; sps = ground arith; pps = ground arith };
      noted = ground arith;
    }

last_twice :
    (o : Option Bytes) (type : ℕ) (unit : Bytes) (units : List Bytes)
    → last_or (last_or o type (unit ∷ [])) type units ≡ last_or o type (unit ∷ units)
unfolding last_or
last_twice o type unit units = refl

-- What a list of units changes.
record TakenAll (units : List Bytes) (s last : Scan) : Type 0 where
  payload : last.avcc_payload ≡ s.avcc_payload ++ avcc units
  access : last.random_access ≡ (s.random_access || any_unit starts_random_access units)
  vps : last.adapter.vps ≡ last_or s.adapter.vps 32 units
  sps : last.adapter.sps ≡ last_or s.adapter.sps 33 units
  pps : last.adapter.pps ≡ last_or s.adapter.pps 34 units
  quiet : last.cfg_updated ≡ false → SameSets s.adapter last.adapter
  noted : s.cfg_updated ≡ true → last.cfg_updated ≡ true

take_units-TakenAll :
    (units : List Bytes) (s : Scan)
    → All HasHeader units
    → TakenAll units s (take_units (add_unit long_code) units s)
unfolding take_units avcc any_unit last_or
take_units-TakenAll [] s h = record {
  payload = sym (append-nil s.avcc_payload);
  access = ground arith;
  vps = refl;
  sps = refl;
  pps = refl;
  quiet = λ _. record { vps = refl; sps = refl; pps = refl };
  noted = λ e. e;
}
take_units-TakenAll (unit ∷ units) s h =
    let next = add_unit long_code unit s in
    let last = take_units (add_unit long_code) units next in
    let one = add_unit-Taken unit s h.0.1 in
    let rest = take_units-TakenAll units next h.1 in
    let not_before : last.cfg_updated ≡ false → next.cfg_updated ≡ false =
      λ e. ground (arith, rest.noted) in
    record {
      payload =
          rest.payload
          ∙ ap (λ p. p ++ avcc units) one.payload
          ∙ append_assoc s.avcc_payload (with_length unit) (avcc units);
      access = ground (arith, rest.access, one.access);
      vps = rest.vps ∙ ap (λ o. last_or o 32 units) one.vps;
      sps = rest.sps ∙ ap (λ o. last_or o 33 units) one.sps;
      pps = rest.pps ∙ ap (λ o. last_or o 34 units) one.pps;
      quiet = λ e.
          let before = one.quiet (not_before e) in
          let after = rest.quiet e in
          record {
            vps = after.vps ∙ before.vps;
            sps = after.sps ∙ before.sps;
            pps = after.pps ∙ before.pps;
          };
      noted = λ e. rest.noted (one.noted e);
    }

headers-IsUnit : (units : List Bytes) → All HasHeader units → All IsUnit units
headers-IsUnit [] h = tt
headers-IsUnit (unit ∷ units) h = (h.0.0, headers-IsUnit units h.1)

scan_frame-annex_b :
    (units : List Bytes) (s : Scan)
    → All HasHeader units
    → scan_frame (annex_b units) s ≡ take_units (add_unit long_code) units s
unfolding scan_frame starts_short starts_long
scan_frame-annex_b units s h =
    scan_units-annex_b code_at add_unit (λ _. refl) units s (headers-IsUnit units h)

-- What `convert_frame` makes of a frame of units.
pub record IsH265Converted (a : H265Adapter) (units : List Bytes) (r : H265Adapter × Converted)
    : Type 0 where
  pub payload : r.1.payload ≡ avcc units
  pub is_sync : r.1.is_sync ≡ any_unit starts_random_access units
  pub vps : r.0.vps ≡ last_or a.vps 32 units
  pub sps : r.0.sps ≡ last_or a.sps 33 units
  pub pps : r.0.pps ≡ last_or a.pps 34 units
  pub told_ready : r.1.config_ready ≡ true → ready r.0 ≡ true
  pub quiet :
      ready r.0 ≡ true
      → r.1.config_ready ≡ false
      → (r.0.vps ≡ a.vps) × (r.0.sps ≡ a.sps) × (r.0.pps ≡ a.pps)

both_right : (updated is_ready : Bool) → (updated && is_ready) ≡ true → is_ready ≡ true
both_right updated is_ready h = ground arith

silent_left :
    (updated is_ready : Bool) → is_ready ≡ true → (updated && is_ready) ≡ false → updated ≡ false
silent_left updated is_ready h silent = ground arith

module _ {I : Type 0} (parse : Bytes → Option I) (cropped_width cropped_height : I → ℕ) where
  -- The codec string and the dimensions are set apart from the parameter sets.
  kept_sets :
      (b : Bool) (a : H265Adapter)
      → SameSets a (if b then update_codec_info parse cropped_width cropped_height a else a)
  unfolding update_codec_info
  kept_sets b a = record { vps = ground arith; sps = ground arith; pps = ground arith }

  -- For a frame whose units have a header of two bytes and are free of start codes, each behind a
  -- start code of four bytes, `convert_frame` puts out those units with their lengths in four bytes in
  -- place of the start codes, in order. The frame is a keyframe exactly if one of them has a type
  -- from 16 to 21. The last parameter set of each type is kept, or the one known before if there
  -- is none. The configuration is reported only by an adapter that has all three sets, and such an
  -- adapter reports it unless all three are as they were: also when a set changes later, not only the
  -- first time that all are there, as the trait says.
  pub convert_frame-IsH265Converted :
      (a : H265Adapter) (units : List Bytes)
      → All HasHeader units
      → IsH265Converted a units (convert_frame parse cropped_width cropped_height a (annex_b units))
  unfolding convert_frame
  convert_frame-IsH265Converted a units h =
      let start : Scan = record {
        adapter = a;
        avcc_payload = [];
        random_access = false;
        cfg_updated = false;
      } in
      let all = take_units-TakenAll units start h in
      let last = take_units (add_unit long_code) units start in
      let kept = kept_sets last.cfg_updated last.adapter in
      rw (scan_frame-annex_b units start h) (record {
        payload = all.payload;
        is_sync = all.access;
        vps = kept.vps ∙ all.vps;
        sps = kept.sps ∙ all.sps;
        pps = kept.pps ∙ all.pps;
        told_ready = both_right last.cfg_updated _;
        quiet = λ is_ready silent.
            let same = all.quiet (silent_left last.cfg_updated _ is_ready silent) in
            (kept.vps ∙ same.vps, kept.sps ∙ same.sps, kept.pps ∙ same.pps);
      })
