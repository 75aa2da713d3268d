-- ===== src/Recorder/Fmp4/Init/Boxed.antt =====
-- The boxes of an initialization segment, as a reader finds them one inside the other.
use live.Prelude.{
  ◌+◌, ◌^◌, ◌<◌, ◌≤◌, ◌≡◌, refl, Bytes, [], ◌∷◌, ◌++◌, arith, some, length, codes, bytes_eq,
  flatten, Bool-cases, inl, inr, u32, to_ascii_lowercase, starts_with, eq_ignore_ascii_case,
}
use live.Recorder.AnnexB.{be_u32}
use live.Recorder.Fmp4.Boxes.{
  read_boxes, make_box, IsBox, read_boxes-one, read_boxes-more, length-make_box,
}
use live.Recorder.Fmp4.Writer.{Fmp4Writer, is_video}
use live.Recorder.Fmp4.Init.{
  build_init_segment, build_ftyp, ftyp_payload, build_moov, build_trak, build_mdia, build_minf,
  build_stbl, build_stsd, brands, video_brands, audio_brands, any_eq, push_brand, base_brands,
}
use live.Recorder.Fmp4.Init.Nesting.{
  length-build_stbl, length-build_minf, length-build_mdia, length-build_trak, length-build_moov,
  no_entries, hdlr_payload, media_type, media_payload, dinf_payload, mdhd_payload, tkhd_payload,
  mvhd_payload, trex_payload, stsd_payload, stbl_payload, minf_payload, mdia_payload, trak_payload,
  mvex_payload, moov_payload, media_type-four, hdlr_small, build_stsd-eq, build_stbl-eq,
  build_minf-eq, build_mdia-eq, build_trak-eq, build_moov-eq,
}

-- The size of a box, by what it is equal to.
sized :
    (type payload : Bytes) {box : Bytes}
    → box ≡ make_box type payload
    → length type ≡ 4
    → length box ≡ 8 + length payload
sized type payload e four = rw e (omega (arith, length-make_box type payload))

dinf_small : 8 + length dinf_payload < 2 ^ 32
unfolding make_box
dinf_small = omega arith

mvex_small : (w : Fmp4Writer) → 8 + length (mvex_payload w) < 2 ^ 32
unfolding make_box
mvex_small w = omega arith

-- There are at most four brands of four bytes.
video_brands-few : (cs : Bytes) → length (flatten (video_brands cs)) ≤ 16
unfolding video_brands push_brand any_eq base_brands bytes_eq
video_brands-few cs = elim (Bool-cases (starts_with (codes "avc") cs)) [
  | inl e ↦ rw e (omega arith)
  | inr e ↦ rw e (elim (Bool-cases (starts_with (codes "av01") cs)) [
    | inl e ↦ rw e (omega arith)
    | inr e ↦ rw e (elim (Bool-cases (starts_with (codes "hev1") cs)) [
      | inl e ↦ rw e (omega arith)
      | inr e ↦ rw e (elim (Bool-cases (starts_with (codes "hvc1") cs)) [
        | inl e ↦ rw e (omega arith)
        | inr e ↦ rw e (elim (Bool-cases (starts_with (codes "vp09") cs)) [
          | inl e ↦ rw e (omega arith)
          | inr e ↦ rw e (elim (Bool-cases (starts_with (codes "vp08") cs)) [
            | inl e ↦ rw e (omega arith)
            | inr e ↦ rw e (omega arith)
          ])
        ])
      ])
    ])
  ])
]

audio_brands-few : (cs : Bytes) → length (flatten (audio_brands cs)) ≤ 16
unfolding audio_brands push_brand any_eq base_brands bytes_eq
audio_brands-few cs = elim (Bool-cases (eq_ignore_ascii_case cs (codes "opus"))) [
  | inl e ↦ rw e (omega arith)
  | inr e ↦ rw e (omega arith)
]

ftyp_small : (w : Fmp4Writer) → 8 + length (ftyp_payload w) < 2 ^ 32
unfolding ftyp_payload brands
ftyp_small w = elim (Bool-cases (is_video w.kind)) [
  | inl v ↦ rw v (omega (arith, video_brands-few (to_ascii_lowercase w.codec_string)))
  | inr v ↦ rw v (omega (arith, audio_brands-few w.codec_string))
]

module _ (w : Fmp4Writer) (fits : length (build_moov w) < 2 ^ 32) where
  moov_IsBox : IsBox (codes "moov") (moov_payload w)
  moov_IsBox = (refl, omega (arith, sized (codes "moov") (moov_payload w) (build_moov-eq w) refl))

  trak_fits : length (build_trak w) < 2 ^ 32
  trak_fits = omega (arith, length-build_moov w)

  trak_IsBox : IsBox (codes "trak") (trak_payload w)
  trak_IsBox =
      (refl, omega (arith, trak_fits, sized (codes "trak") (trak_payload w) (build_trak-eq w) refl))

  mdia_fits : length (build_mdia w) < 2 ^ 32
  mdia_fits = omega (arith, trak_fits, length-build_trak w)

  mdia_IsBox : IsBox (codes "mdia") (mdia_payload w)
  mdia_IsBox =
      (refl, omega (arith, mdia_fits, sized (codes "mdia") (mdia_payload w) (build_mdia-eq w) refl))

  minf_fits : length (build_minf w) < 2 ^ 32
  minf_fits = omega (arith, mdia_fits, length-build_mdia w)

  minf_IsBox : IsBox (codes "minf") (minf_payload w)
  minf_IsBox =
      (refl, omega (arith, minf_fits, sized (codes "minf") (minf_payload w) (build_minf-eq w) refl))

  stbl_fits : length (build_stbl w) < 2 ^ 32
  stbl_fits = omega (arith, minf_fits, length-build_minf w)

  stbl_IsBox : IsBox (codes "stbl") (stbl_payload w)
  stbl_IsBox =
      (refl, omega (arith, stbl_fits, sized (codes "stbl") (stbl_payload w) (build_stbl-eq w) refl))

  pub stsd_fits : length (build_stsd w) < 2 ^ 32
  stsd_fits = omega (arith, stbl_fits, length-build_stbl w)

  stsd_IsBox : IsBox (codes "stsd") (stsd_payload w)
  stsd_IsBox =
      (refl, omega (arith, stsd_fits, sized (codes "stsd") (stsd_payload w) (build_stsd-eq w) refl))

  pub read_stbl :
      read_boxes 5 (stbl_payload w)
      ≡ some (
          (codes "stsd", stsd_payload w)
          ∷ (codes "stts", no_entries)
          ∷ (codes "stsc", no_entries)
          ∷ (codes "stsz", be_u32 0 ++ no_entries)
          ∷ (codes "stco", no_entries)
          ∷ [])
  read_stbl = read_boxes-more 4 (codes "stsd") (stsd_payload w) stsd_IsBox _ (
      read_boxes-more 3 (codes "stts") no_entries (refl, omega arith) _
        (read_boxes-more 2 (codes "stsc") no_entries (refl, omega arith) _
          (read_boxes-more 1 (codes "stsz") (be_u32 0 ++ no_entries) (refl, omega arith) _
            (read_boxes-one 0 (codes "stco") no_entries (refl, omega arith)))))

  pub read_minf :
      read_boxes 3 (minf_payload w)
      ≡ some (
          (media_type (is_video w.kind), media_payload)
          ∷ (codes "dinf", dinf_payload)
          ∷ (codes "stbl", stbl_payload w)
          ∷ [])
  read_minf =
      read_boxes-more 2 (media_type (is_video w.kind)) media_payload
        (media_type-four (is_video w.kind), omega arith) _
        (read_boxes-more 1 (codes "dinf") dinf_payload (refl, dinf_small) _
          (read_boxes-one 0 (codes "stbl") (stbl_payload w) stbl_IsBox))

  pub read_mdia :
      read_boxes 3 (mdia_payload w)
      ≡ some (
          (codes "mdhd", mdhd_payload w.timescale)
          ∷ (codes "hdlr", hdlr_payload (is_video w.kind))
          ∷ (codes "minf", minf_payload w)
          ∷ [])
  read_mdia =
      read_boxes-more 2 (codes "mdhd") (mdhd_payload w.timescale) (refl, omega arith) _
        (read_boxes-more 1 (codes "hdlr") (hdlr_payload (is_video w.kind))
          (refl, hdlr_small (is_video w.kind)) _
          (read_boxes-one 0 (codes "minf") (minf_payload w) minf_IsBox))

  pub read_trak :
      read_boxes 2 (trak_payload w)
      ≡ some (
          (codes "tkhd", tkhd_payload w.track_id w.width w.height)
          ∷ (codes "mdia", mdia_payload w)
          ∷ [])
  read_trak =
      read_boxes-more 1 (codes "tkhd") (tkhd_payload w.track_id w.width w.height)
        (refl, omega arith) _ (read_boxes-one 0 (codes "mdia") (mdia_payload w) mdia_IsBox)

  pub read_mvex :
      read_boxes 1 (mvex_payload w) ≡ some ((codes "trex", trex_payload w.track_id) ∷ [])
  read_mvex = read_boxes-one 0 (codes "trex") (trex_payload w.track_id) (refl, omega arith)

  pub read_moov :
      read_boxes 3 (moov_payload w)
      ≡ some (
          (codes "mvhd", mvhd_payload w.timescale (u32 (w.track_id + 1)))
          ∷ (codes "trak", trak_payload w)
          ∷ (codes "mvex", mvex_payload w)
          ∷ [])
  read_moov =
      read_boxes-more 2 (codes "mvhd") (mvhd_payload w.timescale (u32 (w.track_id + 1)))
        (refl, omega arith) _
        (read_boxes-more 1 (codes "trak") (trak_payload w) trak_IsBox _
          (read_boxes-one 0 (codes "mvex") (mvex_payload w) (refl, mvex_small w)))

  ftyp_IsBox : IsBox (codes "ftyp") (ftyp_payload w)
  ftyp_IsBox = (refl, ftyp_small w)

  pub read_segment :
      read_boxes 2 (build_init_segment w)
      ≡ some ((codes "ftyp", ftyp_payload w) ∷ (codes "moov", moov_payload w) ∷ [])
  unfolding build_init_segment build_ftyp
  read_segment = rw (build_moov-eq w) (
      read_boxes-more 1 (codes "ftyp") (ftyp_payload w) ftyp_IsBox _
        (read_boxes-one 0 (codes "moov") (moov_payload w) moov_IsBox))
