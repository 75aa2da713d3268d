-- ===== src/Recorder/H264/Adapter/Conversion.antt =====
-- What the H.264 adapter makes of a frame of NAL units: the payload, the keyframe flag, the parameter
-- sets, and whether the configuration is reported.
use live.Prelude.{
  ℕ, ◌<◌, ◌≡◌, refl, sym, ap, ◌∙◌, Bool, false, ◌&&◌, ◌||◌, not, Bytes, List, [], ◌∷◌, ◌++◌,
  append_assoc, append-nil, if◌then◌else◌, Option, none, some, is_some, length, All, arith,
}
use live.Recorder.Codec.{Converted}
use live.Recorder.AnnexB.{
  long_code, starts_short, starts_long, nalu_to_avcc, annex_b, avcc, with_length, any_unit,
  take_units,
}
use live.Recorder.AnnexB.Scan.{IsUnit, scan_units-annex_b}
use live.Recorder.H264.NalUnit.{has_type}
use live.Recorder.H264.Adapter.{
  H264Adapter, Scan, ready, code_at, parse_dimensions, add_unit, scan_frame, convert_frame,
  update_codec_string,
}

-- A parameter set that is known stays; else the first one of the type is taken.
pub known_or_first : Option Bytes → ℕ → List Bytes → Option Bytes
known_or_first (some set) type units = some set
known_or_first none type [] = none
known_or_first none type (unit ∷ units) =
    known_or_first (if has_type type unit then some unit else none) type units

-- The codec string is set apart from the parameter sets.
kept_sets :
    (b : Bool) (a : H264Adapter)
    → ((if b then update_codec_string a else a).sps ≡ a.sps)
      × ((if b then update_codec_string a else a).pps ≡ a.pps)
unfolding update_codec_string
kept_sets b a = (ground arith, ground arith)

-- News of one unit and of the units behind it.
gathered :
    (c a x x' b y y' : Bool)
    → ((c || (not a && x) || (not b && y)) || (not (a || x) && x') || (not (b || y) && y'))
      ≡ (c || (not a && (x || x')) || (not b && (y || y')))
gathered c a x x' b y y' = ground arith

known_twice :
    (o : Option Bytes) (type : ℕ) (unit : Bytes) (units : List Bytes)
    → known_or_first (known_or_first o type (unit ∷ [])) type units
      ≡ known_or_first o type (unit ∷ units)
unfolding known_or_first
known_twice none type unit units = ground arith
known_twice (some set) type unit units = ground arith

known-is_some :
    (o : Option Bytes) (type : ℕ) (unit : Bytes)
    → is_some (known_or_first o type (unit ∷ [])) ≡ (is_some o || has_type type unit)
unfolding known_or_first
known-is_some none type unit = ground arith
known-is_some (some set) type unit = refl

-- What `convert_frame` makes of a frame of units.
pub record IsH264Converted (a : H264Adapter) (units : List Bytes) (r : H264Adapter × Converted)
    : Type 0 where
  pub payload : r.1.payload ≡ avcc units
  pub is_sync : r.1.is_sync ≡ any_unit (has_type 5) units
  pub sps : r.0.sps ≡ known_or_first a.sps 7 units
  pub pps : r.0.pps ≡ known_or_first a.pps 8 units
  pub config_ready : r.1.config_ready ≡ (
      ((not (is_some a.sps) && any_unit (has_type 7) units)
        || (not (is_some a.pps) && any_unit (has_type 8) units))
      && ready r.0)

module _ (dimensions : Bytes → Option (ℕ × ℕ)) where
  -- What one unit changes.
  record Taken (unit : Bytes) (s next : Scan) : Type 0 where
    payload : next.avcc_payload ≡ s.avcc_payload ++ with_length unit
    idr : next.is_idr ≡ (s.is_idr || has_type 5 unit)
    sps : next.adapter.sps ≡ known_or_first s.adapter.sps 7 (unit ∷ [])
    pps : next.adapter.pps ≡ known_or_first s.adapter.pps 8 (unit ∷ [])
    updated : next.cfg_updated ≡ (
        s.cfg_updated
        || (not (is_some s.adapter.sps) && has_type 7 unit)
        || (not (is_some s.adapter.pps) && has_type 8 unit))

  take_unit-Taken :
      (unit : Bytes) (s : Scan)
      → 0 < length unit
      → Taken unit s (add_unit dimensions long_code unit s)
  unfolding scan_frame nalu_to_avcc starts_long with_length has_type known_or_first parse_dimensions
  take_unit-Taken [] s h = absurd (omega arith)
  take_unit-Taken (header ∷ rest) s h = record {
    payload = ground arith;
    idr = ground arith;
    sps = ground arith;
    pps = ground arith;
    updated = ground arith;
  }

  -- What a list of units changes.
  record TakenAll (units : List Bytes) (s last : Scan) : Type 0 where
    payload : last.avcc_payload ≡ s.avcc_payload ++ avcc units
    idr : last.is_idr ≡ (s.is_idr || any_unit (has_type 5) units)
    sps : last.adapter.sps ≡ known_or_first s.adapter.sps 7 units
    pps : last.adapter.pps ≡ known_or_first s.adapter.pps 8 units
    updated : last.cfg_updated ≡ (
        s.cfg_updated
        || (not (is_some s.adapter.sps) && any_unit (has_type 7) units)
        || (not (is_some s.adapter.pps) && any_unit (has_type 8) units))

  take_units-TakenAll :
      (units : List Bytes) (s : Scan)
      → All IsUnit units
      → TakenAll units s (take_units (add_unit dimensions long_code) units s)
  unfolding take_units avcc any_unit known_or_first
  take_units-TakenAll [] s h = record {
    payload = sym (append-nil s.avcc_payload);
    idr = ground arith;
    sps = ground arith;
    pps = ground arith;
    updated = ground arith;
  }
  take_units-TakenAll (unit ∷ units) s h =
      let one = take_unit-Taken unit s h.0.0 in
      let rest = take_units-TakenAll units (add_unit dimensions long_code unit s) h.1 in
      record {
        payload =
            rest.payload
            ∙ ap (λ p. p ++ avcc units) one.payload
            ∙ append_assoc s.avcc_payload (with_length unit) (avcc units);
        idr = ground (arith, rest.idr, one.idr);
        sps =
            rest.sps
            ∙ ap (λ o. known_or_first o 7 units) one.sps
            ∙ known_twice s.adapter.sps 7 unit units;
        pps =
            rest.pps
            ∙ ap (λ o. known_or_first o 8 units) one.pps
            ∙ known_twice s.adapter.pps 8 unit units;
        updated =
            rest.updated
            ∙ rw
                (
                  one.updated,
                  ap is_some one.sps ∙ known-is_some s.adapter.sps 7 unit,
                  ap is_some one.pps ∙ known-is_some s.adapter.pps 8 unit,
                )
                (gathered s.cfg_updated (is_some s.adapter.sps) (has_type 7 unit)
                  (any_unit (has_type 7) units) (is_some s.adapter.pps) (has_type 8 unit)
                  (any_unit (has_type 8) units));
      }

  scan_frame-annex_b :
      (units : List Bytes) (s : Scan)
      → All IsUnit units
      → scan_frame dimensions (annex_b units) s ≡ take_units (add_unit dimensions long_code) units s
  unfolding scan_frame starts_short starts_long
  scan_frame-annex_b units s h =
      scan_units-annex_b code_at (add_unit dimensions) (λ _. refl) units s h

  -- For a frame whose units are not empty and free of start codes, each behind a start code of four
  -- bytes, `convert_frame` puts out those units with their lengths in four bytes in place of the
  -- start codes, in order. The frame is a keyframe exactly if one of them has type 5. The first
  -- parameter sets of types 7 and 8 are kept, unless the adapter had one; the configuration is
  -- reported exactly if one of them was new and the adapter has both.
  pub convert_frame-IsH264Converted :
      (a : H264Adapter) (units : List Bytes)
      → All IsUnit units
      → IsH264Converted a units (convert_frame dimensions a (annex_b units))
  unfolding convert_frame
  convert_frame-IsH264Converted a units h =
      let start : Scan = record {
        adapter = a;
        avcc_payload = [];
        is_idr = false;
        cfg_updated = false;
      } in
      let all = take_units-TakenAll units start h in
      let last = take_units (add_unit dimensions long_code) units start in
      let kept = kept_sets last.cfg_updated last.adapter in
      let a' = if last.cfg_updated then update_codec_string last.adapter else last.adapter in
      rw (scan_frame-annex_b units start h) (record {
        payload = all.payload;
        is_sync = all.idr;
        sps = kept.0 ∙ all.sps;
        pps = kept.1 ∙ all.pps;
        config_ready = ap (λ b. b && ready a') all.updated;
      })
