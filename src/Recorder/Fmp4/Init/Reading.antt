-- ===== src/Recorder/Fmp4/Init/Reading.antt =====
-- A player's reader of initialization segments, and that it finds the track of the writer in what
-- the writer builds.
use live.Prelude.{
  ℕ, ◌/◌, ◌^◌, ◌<◌, ◌≡◌, refl, ap, Bool, true, false, ◌||◌, Bytes, List, [], ◌∷◌, ◌++◌, arith,
  if◌then◌else◌, Option, none, some, length, take, drop, codes, bytes_eq, length-append,
  to_ascii_lowercase, starts_with, flatten, Bool-cases, inl, inr,
}
use live.Recorder.Fmp4.Boxes.{
  read_u32, read_boxes, make_box, find_box, ◌>>=◌, read_boxes-one, length-make_box,
}
use live.Recorder.Fmp4.Tables.{build_avcc, avcc_record}
use live.Recorder.Fmp4.Writer.{Fmp4Writer, is_video}
use live.Recorder.Fmp4.SampleEntry.{
  build_avc1_sample_entry, build_hev1_sample_entry, build_av01_sample_entry,
  build_vp09_sample_entry, build_vp08_sample_entry, build_opus_sample_entry, visual_header,
  audio_header, first_blob, vpcc_record, dops_record, parse_codec, build_vpcc,
  build_vpx_visual_sample_entry,
}
use live.Recorder.Fmp4.Init.Config.{Config, read_config}
use live.Recorder.Fmp4.Init.{sample_entry, video_entry}

-- What an initialization segment says of its only track.
pub record TrackInfo : Type 0 where
  pub track_id : ℕ
  pub default_track_id : ℕ
  pub timescale : ℕ
  pub width : ℕ
  pub height : ℕ
  pub handler : Bytes
  pub entry_type : Bytes
  pub config_type : Bytes
  pub config : Config

-- The only box, and its payload.
abbrev only_box : Option (List (Bytes × Bytes)) → Option (Bytes × Bytes)
only_box (some (box ∷ [])) = some box
only_box _ = none

-- The sample entry: its type, and the box behind its header of 78 bytes for pictures and of 28
-- bytes for sound.
pub read_entry : (handler entry : Bytes) → Option (Bytes × Bytes × Bytes)
read_entry handler entry = do
  (entry_type, payload) ← only_box (read_boxes 1 entry)
  (config_type, config) ←
      only_box (read_boxes 1 (drop (if bytes_eq handler (codes "vide") then 78 else 28) payload))
  some (entry_type, config_type, config)

unfoldable pub read_init : Bytes → Option TrackInfo
unfolding read_entry
read_init bytes = do
  boxes ← read_boxes 2 bytes
  moov ← find_box (codes "moov") boxes
  moov_boxes ← read_boxes 3 moov
  trak ← find_box (codes "trak") moov_boxes
  mvex ← find_box (codes "mvex") moov_boxes
  mvex_boxes ← read_boxes 1 mvex
  trex ← find_box (codes "trex") mvex_boxes
  trak_boxes ← read_boxes 2 trak
  tkhd ← find_box (codes "tkhd") trak_boxes
  mdia ← find_box (codes "mdia") trak_boxes
  mdia_boxes ← read_boxes 3 mdia
  mdhd ← find_box (codes "mdhd") mdia_boxes
  hdlr ← find_box (codes "hdlr") mdia_boxes
  minf ← find_box (codes "minf") mdia_boxes
  minf_boxes ← read_boxes 3 minf
  stbl ← find_box (codes "stbl") minf_boxes
  stbl_boxes ← read_boxes 5 stbl
  stsd ← find_box (codes "stsd") stbl_boxes
  let handler = take 4 (drop 8 hdlr)
  (entry_type, config_type, config) ← read_entry handler (drop 8 stsd)
  some (record {
    track_id = read_u32 (drop 12 tkhd);
    default_track_id = read_u32 (drop 4 trex);
    timescale = read_u32 (drop 12 mdhd);
    width = read_u32 (drop 76 tkhd) / 2 ^ 16;
    height = read_u32 (drop 80 tkhd) / 2 ^ 16;
    handler = handler;
    entry_type = entry_type;
    config_type = config_type;
    config = read_config config_type config;
  })

-- The sample entry that is built, by the writer's kind and codec string: its type, and the type and
-- content of its configuration box.
abbrev pub avcc_content : List Bytes → Bytes
avcc_content [] = []
avcc_content (sps ∷ pps_list) = avcc_record sps pps_list

abbrev pub vpcc_content : Fmp4Writer → Bool → Bytes
vpcc_content w is_vp9 = vpcc_record (parse_codec is_vp9 w.codec_string) (flatten w.codec_config)

abbrev pub built_video_entry : Fmp4Writer → Bytes → Bytes × Bytes × Bytes
built_video_entry w cs =
    if starts_with (codes "hev1") cs || starts_with (codes "hvc1") cs
    then (codes "hev1", codes "hvcC", first_blob w.codec_config)
    else if starts_with (codes "av01") cs
    then (codes "av01", codes "av1C", first_blob w.codec_config)
    else if starts_with (codes "vp09") cs
    then (codes "vp09", codes "vpcC", vpcc_content w true)
    else if starts_with (codes "vp08") cs
    then (codes "vp08", codes "vpcC", vpcc_content w false)
    else (codes "avc1", codes "avcC", avcc_content w.codec_config)

abbrev pub built_entry : Fmp4Writer → Bytes × Bytes × Bytes
built_entry w =
    if is_video w.kind
    then built_video_entry w (to_ascii_lowercase w.codec_string)
    else (codes "Opus", codes "dOps", dops_record w)

abbrev pub entry_box : (header : Bytes) → Bytes × Bytes × Bytes → Bytes
entry_box header (type, config_type, config) = make_box type (header ++ make_box config_type config)

abbrev pub Four : Bytes × Bytes × Bytes → Type 0
Four (type, config_type, config) = (length type ≡ 4) × (length config_type ≡ 4)

build_avcc-eq :
    (blobs : List Bytes) → build_avcc blobs ≡ make_box (codes "avcC") (avcc_content blobs)
unfolding build_avcc
build_avcc-eq [] = refl
build_avcc-eq (sps ∷ pps_list) = refl

video_entry-eq :
    (w : Fmp4Writer) (cs : Bytes)
    → (video_entry w cs ≡ entry_box (visual_header w) (built_video_entry w cs))
      × Four (built_video_entry w cs)
unfolding video_entry build_avc1_sample_entry build_hev1_sample_entry build_av01_sample_entry
    build_vp09_sample_entry build_vp08_sample_entry build_vpx_visual_sample_entry build_vpcc
    bytes_eq
video_entry-eq w cs =
    elim (Bool-cases (starts_with (codes "hev1") cs || starts_with (codes "hvc1") cs)) [
      | inl h ↦ rw h (refl, (refl, refl))
      | inr h ↦ rw h (elim (Bool-cases (starts_with (codes "av01") cs)) [
        | inl a ↦ rw a (refl, (refl, refl))
        | inr a ↦ rw a (elim (Bool-cases (starts_with (codes "vp09") cs)) [
          | inl n ↦ rw n (refl, (refl, refl))
          | inr n ↦ rw n (elim (Bool-cases (starts_with (codes "vp08") cs)) [
            | inl e ↦ rw e (refl, (refl, refl))
            | inr e ↦ rw e (
              ap (λ (b : Bytes). make_box (codes "avc1") (visual_header w ++ b))
                  (build_avcc-eq w.codec_config),
              (refl, refl),
            )
          ])
        ])
      ])
    ]

-- The header before the configuration box.
abbrev pub entry_header : Fmp4Writer → Bytes
entry_header w = if is_video w.kind then visual_header w else audio_header w

pub sample_entry-eq :
    (w : Fmp4Writer)
    → (sample_entry w ≡ entry_box (entry_header w) (built_entry w)) × Four (built_entry w)
unfolding sample_entry build_opus_sample_entry
sample_entry-eq w = elim (Bool-cases (is_video w.kind)) [
  | inl v ↦ rw v (video_entry-eq w (to_ascii_lowercase w.codec_string))
  | inr v ↦ rw v (refl, (refl, refl))
]

abbrev pub handler_of : Bool → Bytes
handler_of v = if v then codes "vide" else codes "soun"

header_dropped :
    (w : Fmp4Writer) (rest : Bytes)
    → drop
        (if bytes_eq (handler_of (is_video w.kind)) (codes "vide") then 78 else 28)
        (entry_header w ++ rest)
      ≡ rest
unfolding bytes_eq visual_header audio_header
header_dropped w rest = elim (Bool-cases (is_video w.kind)) [
  | inl v ↦ rw v refl
  | inr v ↦ rw v refl
]

pub read_entry-entry_box :
    (w : Fmp4Writer) (e : Bytes × Bytes × Bytes)
    → Four e
    → length (entry_box (entry_header w) e) < 2 ^ 32
    → read_entry (handler_of (is_video w.kind)) (entry_box (entry_header w) e) ≡ some e
unfolding read_entry
read_entry-entry_box w (type, config_type, config) four h =
    let inner = make_box config_type config in
    rw (
      read_boxes-one 0 type (entry_header w ++ inner)
          (four.0, omega (arith, length-make_box type (entry_header w ++ inner))),
      header_dropped w inner,
      read_boxes-one 0 config_type config (
        four.1,
        omega (
          arith,
          length-make_box type (entry_header w ++ inner),
          length-append (entry_header w) inner,
          length-make_box config_type config,
        ),
      ),
    )
