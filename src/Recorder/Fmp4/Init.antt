-- ===== src/Recorder/Fmp4/Init.antt =====
-- fmp4.rs: the initialization segment that `Fmp4Writer` builds.
pub mod Config
pub mod Reading
pub mod Entry
pub mod Nesting
pub mod Boxed
pub mod RoundTrip
use live.Prelude.{
  ℕ, ◌+◌, Bool, true, false, ◌||◌, Bytes, List, [], ◌∷◌, ◌++◌, if◌then◌else◌, bytes_eq, flatten,
  codes, u32, to_ascii_lowercase, starts_with, eq_ignore_ascii_case,
}
use live.Recorder.AnnexB.{be_u32}
use live.Recorder.Fmp4.Boxes.{make_box}
use live.Recorder.Fmp4.Tables.{
  build_mvhd, build_tkhd, build_mdhd, build_hdlr, build_vmhd, build_smhd, build_dinf,
  build_empty_full_box, build_empty_stsz, build_mvex,
}
use live.Recorder.Fmp4.Writer.{Fmp4Writer, TrackKind, video, audio, is_video}
use live.Recorder.Fmp4.SampleEntry.{
  build_avc1_sample_entry, build_hev1_sample_entry, build_av01_sample_entry,
  build_vp09_sample_entry, build_vp08_sample_entry, build_opus_sample_entry,
}

any_eq : Bytes → List Bytes → Bool
any_eq brand [] = false
any_eq brand (b ∷ brands) = bytes_eq b brand || any_eq brand brands

push_brand : Bytes → List Bytes → List Bytes
push_brand brand compatibles =
    if any_eq brand compatibles then compatibles else compatibles ++ (brand ∷ [])

base_brands : List Bytes
base_brands = codes "isom" ∷ codes "iso2" ∷ codes "mp41" ∷ []

-- The brand of a video codec.
video_brands : Bytes → List Bytes
video_brands cs =
    if starts_with (codes "avc") cs
    then push_brand (codes "avc1") base_brands
    else if starts_with (codes "av01") cs
    then push_brand (codes "av01") base_brands
    else if starts_with (codes "hev1") cs
    then push_brand (codes "hev1") base_brands
    else if starts_with (codes "hvc1") cs
    then push_brand (codes "hvc1") base_brands
    else if starts_with (codes "vp09") cs
    then push_brand (codes "vp09") base_brands
    else if starts_with (codes "vp08") cs
    then push_brand (codes "vp08") base_brands
    else base_brands

audio_brands : Bytes → List Bytes
audio_brands codec_string =
    if eq_ignore_ascii_case codec_string (codes "opus")
    then push_brand (codes "Opus") base_brands
    else base_brands

unfoldable pub brands : Fmp4Writer → List Bytes
unfolding any_eq push_brand base_brands video_brands audio_brands
brands w =
    if is_video w.kind
    then video_brands (to_ascii_lowercase w.codec_string)
    else audio_brands w.codec_string

unfoldable pub ftyp_payload : Fmp4Writer → Bytes
ftyp_payload w = codes "isom" ++ (be_u32 512 ++ flatten (brands w))

unfoldable pub build_ftyp : Fmp4Writer → Bytes
build_ftyp w = make_box (codes "ftyp") (ftyp_payload w)

-- The sample entry of a video codec, by its codec string in small letters.
unfoldable pub video_entry : Fmp4Writer → Bytes → Bytes
video_entry w cs =
    if starts_with (codes "hev1") cs || starts_with (codes "hvc1") cs
    then build_hev1_sample_entry w
    else if starts_with (codes "av01") cs
    then build_av01_sample_entry w
    else if starts_with (codes "vp09") cs
    then build_vp09_sample_entry w
    else if starts_with (codes "vp08") cs
    then build_vp08_sample_entry w
    else build_avc1_sample_entry w

unfoldable pub sample_entry : Fmp4Writer → Bytes
sample_entry w =
    if is_video w.kind
    then video_entry w (to_ascii_lowercase w.codec_string)
    else build_opus_sample_entry w

unfoldable pub build_stsd : Fmp4Writer → Bytes
build_stsd w = make_box (codes "stsd") (be_u32 0 ++ (be_u32 1 ++ sample_entry w))

unfoldable pub build_stbl : Fmp4Writer → Bytes
build_stbl w = make_box (codes "stbl") (
    build_stsd w
    ++ (build_empty_full_box (codes "stts")
        ++ (build_empty_full_box (codes "stsc")
            ++ (build_empty_stsz ++ build_empty_full_box (codes "stco")))))

unfoldable pub build_minf : Fmp4Writer → Bytes
build_minf w =
    let header = if is_video w.kind then build_vmhd else build_smhd in
    make_box (codes "minf") (header ++ (build_dinf ++ build_stbl w))

unfoldable pub build_mdia : Fmp4Writer → Bytes
build_mdia w =
    let hdlr =
      if is_video w.kind
      then build_hdlr (codes "vide") (codes "VideoHandler" ++ (0 ∷ []))
      else build_hdlr (codes "soun") (codes "SoundHandler" ++ (0 ∷ [])) in
    make_box (codes "mdia") (build_mdhd w.timescale ++ (hdlr ++ build_minf w))

unfoldable pub build_trak : Fmp4Writer → Bytes
build_trak w = make_box (codes "trak") (build_tkhd w.track_id w.width w.height ++ build_mdia w)

unfoldable pub build_moov : Fmp4Writer → Bytes
build_moov w =
    make_box (codes "moov")
      (build_mvhd w.timescale (u32 (w.track_id + 1)) ++ (build_trak w ++ build_mvex w.track_id))

unfoldable pub build_init_segment : Fmp4Writer → Bytes
build_init_segment w = build_ftyp w ++ build_moov w
