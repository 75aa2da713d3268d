-- ===== src/Recorder/Av1/Adapter/Laws.antt =====
-- The adapter between two frames, and what it makes of a frame.
use live.Prelude.{
  ℕ, ◌^◌, ◌≤◌, ◌<◌, ◌≡◌, refl, Bool, true, false, ◌&&◌, Bytes, List, [], ◌∷◌, arith, ◌==◌,
  if◌then◌else◌, is_some, All, IsBytes, ok, err, panic, Returns, Bool-cases, inl, inr,
}
use live.Recorder.Codec.{Converted}
use live.Recorder.Av1.Error.{Error, Result}
use live.Recorder.Av1.Obu.{parse_temporal_unit, pack_temporal_unit}
use live.Recorder.Av1.Obu.RoundTrip.{IsObu, marshal-eq-pack, parse-pack}
use live.Recorder.Av1.Obu.Parsed.{parse-IsObu}
use live.Recorder.Av1.SequenceHeader
use live.Recorder.Av1.SequenceHeader.{SequenceHeader, obu_type, obu_type_sequence_header}
use live.Recorder.Av1.SequenceHeader.Bounds.{IsHeader, parse-IsHeader}
use live.Recorder.Av1.Adapter.{
  Av1Adapter, new, ready, same_header, remember, update_sequence_header_from_obu, Scan,
  after_update, scan_obu, scan_obus, convert_obus, convert_frame,
}

-- The three optional values come together, and with them positive dimensions.
pub record IsAdapter (a : Av1Adapter) : Type 0 where
  pub record_with_header : is_some a.av1c_record ≡ is_some a.sequence_header
  pub string_with_header : is_some a.codec_string ≡ is_some a.sequence_header
  pub width_known : ready a ≡ true → (0 < a.width) × (a.width ≤ 2 ^ 16)
  pub height_known : ready a ≡ true → (0 < a.height) × (a.height ≤ 2 ^ 16)

pub new-IsAdapter : IsAdapter new
unfolding new
new-IsAdapter = ground arith

remember-IsAdapter :
    (a : Av1Adapter) (obu : Bytes) (info : SequenceHeader)
    → IsHeader info
    → IsAdapter (remember a obu info)
unfolding remember
remember-IsAdapter a obu info h = record {
  record_with_header = refl;
  string_with_header = refl;
  width_known = λ _. omega (arith, h.width);
  height_known = λ _. omega (arith, h.height);
}

-- The adapter stays well formed, and the update does not panic.
pub record IsUpdated (r : Av1Adapter × Result Bool) : Type 0 where
  pub adapter : IsAdapter r.0
  pub no_panic : Returns (λ updated. updated ≡ true → ready r.0 ≡ true) r.1

update-IsUpdated :
    (a : Av1Adapter) (obu : Bytes) → IsAdapter a → IsUpdated (update_sequence_header_from_obu a obu)
unfolding update_sequence_header_from_obu
update-IsUpdated a obu h = elim (Bool-cases (same_header a.sequence_header obu)) [
  | inl same ↦ rw same (record { adapter = h; no_panic = λ e. cc })
  | inr other ↦ rw other (go (SequenceHeader.parse obu) (parse-IsHeader obu))
]
  where
    go :
        (r : Result SequenceHeader)
        → Returns IsHeader r
        → IsUpdated (elim r [
          | ok info ↦ (remember a obu info, ok true)
          | err e ↦ (a, err e)
          | panic ↦ (a, panic)
        ])
    go (ok info) p = record { adapter = remember-IsAdapter a obu info p; no_panic = λ _. refl }
    go (err e) p = record { adapter = h; no_panic = tt }
    go panic p = absurd p

pub record IsScan (s : Scan) : Type 0 where
  pub adapter : IsAdapter s.adapter
  pub updated : s.config_updated ≡ true → ready s.adapter ≡ true

-- Whether a frame is a random access point: one of its OBUs is a sequence header.
pub has_sequence_header : List Bytes → Bool
has_sequence_header [] = false
has_sequence_header ([] ∷ obus) = has_sequence_header obus
has_sequence_header ((header ∷ payload) ∷ obus) =
    if obu_type header == obu_type_sequence_header then true else has_sequence_header obus

-- The scan of some OBUs from `s` on: `r` is no panic and no error.
record IsScanned (s : Scan) (found : Bool) (r : Result Scan) : Type 0 where
  end : Scan
  returns : r ≡ ok end
  is_scan : IsScan end
  access : end.is_random_access ≡ (if found then true else s.is_random_access)

update-IsScanned :
    (s : Scan) (r : Av1Adapter × Result Bool)
    → IsScan s
    → IsUpdated r
    → (is_none_ready : s.config_updated ≡ true → ready r.0 ≡ true)
    → IsScanned s true (after_update s r)
unfolding after_update
update-IsScanned s (a, ok updated) h u keep = record {
  end = _;
  returns = refl;
  is_scan = record { adapter = u.adapter; updated = ground (arith, u.no_panic) };
  access = refl;
}
update-IsScanned s (a, err e) h u keep = record {
  end = _;
  returns = refl;
  is_scan = record { adapter = u.adapter; updated = keep };
  access = refl;
}
update-IsScanned s (a, panic) h u keep = absurd u.no_panic

-- An update never makes the adapter forget its header.
update_keeps_ready :
    (a : Av1Adapter) (obu : Bytes)
    → ready a ≡ true
    → ready (update_sequence_header_from_obu a obu).0 ≡ true
unfolding update_sequence_header_from_obu
update_keeps_ready a obu h = ground arith

scan_obu-IsScanned :
    (header : ℕ) (payload : Bytes) (s : Scan)
    → IsScan s
    → IsScanned s (obu_type header == obu_type_sequence_header) (scan_obu (header ∷ payload) s)
unfolding scan_obu
scan_obu-IsScanned header payload s h =
    elim (Bool-cases (obu_type header == obu_type_sequence_header)) [
      | inl found ↦ rw found (
          update-IsScanned s _ h (update-IsUpdated s.adapter (header ∷ payload) h.adapter)
            (λ e. update_keeps_ready s.adapter (header ∷ payload) (h.updated e)))
      | inr other ↦ rw other (record { end = s; returns = refl; is_scan = h; access = refl })
    ]

scan_obus-IsScanned :
    (obus : List Bytes) (s : Scan)
    → All IsObu obus
    → IsScan s
    → IsScanned s (has_sequence_header obus) (scan_obus obus s)
unfolding scan_obus has_sequence_header
scan_obus-IsScanned [] s all h = record { end = s; returns = refl; is_scan = h; access = refl }
scan_obus-IsScanned ([] ∷ obus) s all h = absurd all.0
scan_obus-IsScanned ((header ∷ payload) ∷ obus) s all h =
    let first = scan_obu-IsScanned header payload s h in
    let rest = scan_obus-IsScanned obus first.end all.1 first.is_scan in
    record {
      end = rest.end;
      returns = rw first.returns rest.returns;
      is_scan = rest.is_scan;
      access = ground (arith, rest.access, first.access);
    }

-- What `convert_frame` makes of a frame: it returns, with a well-formed adapter. The payload of a
-- temporal unit holds the same OBUs, and is a keyframe if one of them is a sequence header; any
-- other frame is passed on as it is, and is no keyframe.
pub record IsConverted (frame : Bytes) (r : Result (Av1Adapter × Converted)) : Type 0 where
  pub adapter : Av1Adapter
  pub out : Converted
  pub returns : r ≡ ok (adapter, out)
  pub is_adapter : IsAdapter adapter
  pub ready_when_told : out.config_ready ≡ true → ready adapter ≡ true
  pub same_obus :
      (obus : List Bytes)
      → parse_temporal_unit frame ≡ ok obus
      → (parse_temporal_unit out.payload ≡ ok obus) × (out.is_sync ≡ has_sequence_header obus)
  pub fallback :
      (e : Error)
      → parse_temporal_unit frame ≡ err e
      → (out.payload ≡ frame) × (out.is_sync ≡ false) × (out.config_ready ≡ false)

convert_obus_returns :
    (a : Av1Adapter) (obus : List Bytes) (s : Scan)
    → All IsObu obus
    → scan_obus obus (record { adapter = a; config_updated = false; is_random_access = false })
      ≡ ok s
    → convert_obus a obus
      ≡ ok (
        s.adapter,
        record {
          payload = pack_temporal_unit obus;
          is_sync = s.is_random_access;
          config_ready = s.config_updated && ready s.adapter;
        },
      )
unfolding convert_obus
convert_obus_returns a obus s all e = rw (e, marshal-eq-pack obus all)

-- On a well-formed adapter and any bytes `convert_frame` returns, without a panic, an adapter that
-- is well formed, and ready if the frame is said to complete the configuration. If the frame
-- parses as a temporal unit, the converted payload parses to the same OBUs, and the frame is a
-- keyframe exactly if one of them is a sequence header; if it does not parse, the bytes are passed
-- on as they are, as no keyframe and with no new configuration.
pub convert_frame-IsConverted :
    (a : Av1Adapter) (frame : Bytes)
    → IsAdapter a
    → IsBytes frame
    → IsConverted frame (convert_frame a frame)
unfolding convert_frame
convert_frame-IsConverted a frame h bytes =
    go (parse_temporal_unit frame) refl (parse-IsObu frame bytes)
  where
    start : Scan
    start = record { adapter = a; config_updated = false; is_random_access = false }

    go :
        (r : Result (List Bytes))
        → parse_temporal_unit frame ≡ r
        → Returns (All IsObu) r
        → IsConverted frame (elim r [
          | ok obus ↦ convert_obus a obus
          | err e ↦ ok (a, record { payload = frame; is_sync = false; config_ready = false })
          | panic ↦ panic
        ])
    go (ok obus) e all =
        let scanned =
          scan_obus-IsScanned obus start all (record { adapter = h; updated = λ p. cc }) in
        record {
          adapter = scanned.end.adapter;
          out = _;
          returns = convert_obus_returns a obus scanned.end all scanned.returns;
          is_adapter = scanned.is_scan.adapter;
          ready_when_told = ground arith;
          same_obus = λ obus' e'. (cc (parse-pack obus all), ground (arith, scanned.access));
          fallback = λ x e'. cc;
        }
    go (err x) e all = record {
      adapter = a;
      out = record { payload = frame; is_sync = false; config_ready = false };
      returns = refl;
      is_adapter = h;
      ready_when_told = λ p. cc;
      same_obus = λ obus' e'. cc;
      fallback = λ x' e'. (refl, refl, refl);
    }
    go panic e all = absurd all
