-- ===== src/Recorder/Fmp4/Init/Nesting.antt =====
-- The nesting of the boxes in what `Fmp4Writer` builds, and that a player reads it back.
use live.Prelude.{
  ℕ, ◌+◌, ◌^◌, ◌<◌, ◌≡◌, refl, Bool, true, false, Bytes, [], ◌∷◌, ◌++◌, arith, if◌then◌else◌, some,
  length, take, drop, codes, bytes_eq, length-append, Bool-cases, inl, inr, u32, ◌<<<◌,
}
use live.Recorder.AnnexB.{be_u32}
use live.Recorder.Fmp4.Boxes.{be_u16, zeroes, make_box, find_box}
use live.Recorder.Fmp4.Tables.{
  build_mvhd, build_tkhd, build_mdhd, build_hdlr, build_vmhd, build_smhd, build_dinf,
  build_empty_full_box, build_empty_stsz, build_mvex,
}
use live.Recorder.Fmp4.Writer.{Fmp4Writer, is_video}
use live.Recorder.Fmp4.Init.{
  build_moov, build_trak, build_mdia, build_minf, build_stbl, build_stsd, sample_entry,
}
use live.Recorder.Fmp4.Init.Reading.{handler_of}

module _ (w : Fmp4Writer) where
  pub length-build_stsd : length (build_stsd w) ≡ length (sample_entry w) + 16
  unfolding build_stsd make_box
  length-build_stsd = omega arith

  pub length-build_stbl : length (build_stbl w) ≡ length (build_stsd w) + 76
  unfolding build_stbl make_box build_empty_full_box build_empty_stsz
  length-build_stbl = omega (arith, length-append {0})

  pub length-build_minf : length (build_minf w) ≡ length (build_stbl w) + 64
  unfolding build_minf make_box build_vmhd build_smhd build_dinf
  length-build_minf = elim (Bool-cases (is_video w.kind)) [
    | inl v ↦ rw v (omega arith)
    | inr v ↦ rw v (omega arith)
  ]

  pub length-build_mdia : length (build_mdia w) ≡ length (build_minf w) + 85
  unfolding build_mdia make_box build_mdhd build_hdlr
  length-build_mdia = elim (Bool-cases (is_video w.kind)) [
    | inl v ↦ rw v (omega arith)
    | inr v ↦ rw v (omega arith)
  ]

  pub length-build_trak : length (build_trak w) ≡ length (build_mdia w) + 100
  unfolding build_trak make_box build_tkhd
  length-build_trak = omega arith

  pub length-build_moov : length (build_moov w) ≡ length (build_trak w) + 156
  unfolding build_moov make_box build_mvhd build_mvex
  length-build_moov = omega (arith, length-append {0})

-- The payloads of the boxes.
abbrev pub no_entries : Bytes
no_entries = be_u32 0 ++ be_u32 0

abbrev pub hdlr_payload : Bool → Bytes
hdlr_payload v =
    if v
    then be_u32 0
      ++ (be_u32 0 ++ (codes "vide" ++ (zeroes 12 ++ (codes "VideoHandler" ++ (0 ∷ [])))))
    else be_u32 0
      ++ (be_u32 0 ++ (codes "soun" ++ (zeroes 12 ++ (codes "SoundHandler" ++ (0 ∷ [])))))

abbrev pub media_type : Bool → Bytes
media_type v = if v then codes "vmhd" else codes "smhd"

abbrev pub media_payload : Bytes
media_payload = be_u32 1 ++ zeroes 8

abbrev pub dinf_payload : Bytes
dinf_payload =
    make_box (codes "dref") (be_u32 0 ++ (be_u32 1 ++ make_box (codes "url ") (be_u32 1)))

abbrev pub mdhd_payload : ℕ → Bytes
mdhd_payload timescale = be_u32 0 ++ (zeroes 8 ++ (be_u32 timescale ++ zeroes 8))

abbrev matrix : Bytes
matrix =
    be_u32 0x0001_0000 ++ (zeroes 12 ++ (be_u32 0x0001_0000 ++ (zeroes 12 ++ be_u32 0x4000_0000)))

abbrev pub tkhd_payload : (track_id width height : ℕ) → Bytes
tkhd_payload track_id width height =
    be_u32 7
    ++ (zeroes 8
        ++ (be_u32 track_id
            ++ (zeroes 24
                ++ (matrix ++ (be_u32 (u32 (width <<< 16)) ++ be_u32 (u32 (height <<< 16)))))))

abbrev pub mvhd_payload : (timescale next : ℕ) → Bytes
mvhd_payload timescale next =
    be_u32 0
    ++ (zeroes 8
        ++ (be_u32 timescale
            ++ (be_u32 0
                ++ (be_u32 0x0001_0000
                    ++ (be_u16 0x0100 ++ (zeroes 10 ++ (matrix ++ (zeroes 24 ++ be_u32 next))))))))

abbrev pub trex_payload : ℕ → Bytes
trex_payload track_id =
    be_u32 0 ++ (be_u32 track_id ++ (be_u32 1 ++ (zeroes 8 ++ be_u32 0x0101_0000)))

build_hdlr-eq :
    (v : Bool)
    → (if v
        then build_hdlr (codes "vide") (codes "VideoHandler" ++ (0 ∷ []))
        else build_hdlr (codes "soun") (codes "SoundHandler" ++ (0 ∷ [])))
      ≡ make_box (codes "hdlr") (hdlr_payload v)
unfolding build_hdlr
build_hdlr-eq true = refl
build_hdlr-eq false = refl

media_header-eq :
    (v : Bool) → (if v then build_vmhd else build_smhd) ≡ make_box (media_type v) media_payload
unfolding build_vmhd build_smhd
media_header-eq true = refl
media_header-eq false = refl

build_mvex-eq :
    (track_id : ℕ)
    → build_mvex track_id
      ≡ make_box (codes "mvex") (make_box (codes "trex") (trex_payload track_id))
unfolding build_mvex make_box
build_mvex-eq track_id = refl

build_dinf-eq : build_dinf ≡ make_box (codes "dinf") dinf_payload
unfolding build_dinf
build_dinf-eq = refl

build_mdhd-eq : (t : ℕ) → build_mdhd t ≡ make_box (codes "mdhd") (mdhd_payload t)
unfolding build_mdhd
build_mdhd-eq t = refl

build_tkhd-eq : (t w h : ℕ) → build_tkhd t w h ≡ make_box (codes "tkhd") (tkhd_payload t w h)
unfolding build_tkhd
build_tkhd-eq t w h = refl

build_mvhd-eq : (t n : ℕ) → build_mvhd t n ≡ make_box (codes "mvhd") (mvhd_payload t n)
unfolding build_mvhd
build_mvhd-eq t n = refl

pub find_stbl :
    (v : Bool) (p d s : Bytes)
    → find_box (codes "stbl") ((media_type v, p) ∷ (codes "dinf", d) ∷ (codes "stbl", s) ∷ [])
      ≡ some s
unfolding find_box bytes_eq
find_stbl true p d s = refl
find_stbl false p d s = refl

pub handler_found : (v : Bool) → take 4 (drop 8 (hdlr_payload v)) ≡ handler_of v
handler_found true = refl
handler_found false = refl

pub media_type-four : (v : Bool) → length (media_type v) ≡ 4
media_type-four true = refl
media_type-four false = refl

pub hdlr_small : (v : Bool) → 8 + length (hdlr_payload v) < 2 ^ 32
hdlr_small true = omega arith
hdlr_small false = omega arith

abbrev pub stsd_payload : Fmp4Writer → Bytes
stsd_payload w = be_u32 0 ++ (be_u32 1 ++ sample_entry w)

abbrev pub stbl_payload : Fmp4Writer → Bytes
stbl_payload w =
    make_box (codes "stsd") (stsd_payload w)
    ++ (make_box (codes "stts") no_entries
        ++ (make_box (codes "stsc") no_entries
            ++ (make_box (codes "stsz") (be_u32 0 ++ no_entries)
                ++ make_box (codes "stco") no_entries)))

abbrev pub minf_payload : Fmp4Writer → Bytes
minf_payload w =
    make_box (media_type (is_video w.kind)) media_payload
    ++ (make_box (codes "dinf") dinf_payload ++ make_box (codes "stbl") (stbl_payload w))

abbrev pub mdia_payload : Fmp4Writer → Bytes
mdia_payload w =
    make_box (codes "mdhd") (mdhd_payload w.timescale)
    ++ (make_box (codes "hdlr") (hdlr_payload (is_video w.kind))
        ++ make_box (codes "minf") (minf_payload w))

abbrev pub trak_payload : Fmp4Writer → Bytes
trak_payload w =
    make_box (codes "tkhd") (tkhd_payload w.track_id w.width w.height)
    ++ make_box (codes "mdia") (mdia_payload w)

abbrev pub mvex_payload : Fmp4Writer → Bytes
mvex_payload w = make_box (codes "trex") (trex_payload w.track_id)

abbrev pub moov_payload : Fmp4Writer → Bytes
moov_payload w =
    make_box (codes "mvhd") (mvhd_payload w.timescale (u32 (w.track_id + 1)))
    ++ (make_box (codes "trak") (trak_payload w) ++ make_box (codes "mvex") (mvex_payload w))

module _ (w : Fmp4Writer) where
  pub build_stsd-eq : build_stsd w ≡ make_box (codes "stsd") (stsd_payload w)
  unfolding build_stsd
  build_stsd-eq = refl

  pub build_stbl-eq : build_stbl w ≡ make_box (codes "stbl") (stbl_payload w)
  unfolding build_stbl build_stsd build_empty_full_box build_empty_stsz
  build_stbl-eq = refl

  pub build_minf-eq : build_minf w ≡ make_box (codes "minf") (minf_payload w)
  unfolding build_minf
  build_minf-eq = rw (media_header-eq, build_stbl-eq, build_dinf-eq)

  pub build_mdia-eq : build_mdia w ≡ make_box (codes "mdia") (mdia_payload w)
  unfolding build_mdia
  build_mdia-eq = rw (build_hdlr-eq, build_minf-eq, build_mdhd-eq)

  pub build_trak-eq : build_trak w ≡ make_box (codes "trak") (trak_payload w)
  unfolding build_trak
  build_trak-eq = rw (build_tkhd-eq, build_mdia-eq)

  pub build_moov-eq : build_moov w ≡ make_box (codes "moov") (moov_payload w)
  unfolding build_moov
  build_moov-eq = rw (build_mvhd-eq, build_trak-eq, build_mvex-eq)
