-- ===== src/Recorder/Fmp4/Tests.antt =====
-- Inputs for the theorems on fmp4.rs, and the tests of that file.
use live.Prelude.{
  ◌≡◌, ◌≢◌, refl, true, false, List, [], ◌∷◌, arith, some, codes, drop, take, length, ◌^◌, ◌<◌, ◌/◌,
  starts_with, to_ascii_lowercase, split_on, parse_unsigned,
}
use live.Recorder.Fmp4.Fragment.{Mp4Sample, build_fragment_internal}
use live.Recorder.Fmp4.Fragment.Reader.{read_fragment}
use live.Recorder.Fmp4.Fragment.Reading.{read_fragment-build_fragment}
use live.Recorder.Fmp4.Writer.{Fmp4Writer, new, new_audio}
use live.Recorder.Fmp4.Boxes.{make_box}
use live.Recorder.Fmp4.Tables.{build_avcc, avcc_record}
use live.Recorder.Fmp4.SampleEntry.{
  parse_codec, build_vpcc, build_avc1_sample_entry, visual_header, dops_record,
}
use live.Recorder.Fmp4.Init.Nesting.{
  length-build_stsd, length-build_stbl, length-build_minf, length-build_mdia, length-build_trak,
  length-build_moov,
}
use live.Recorder.Fmp4.SampleEntry.Depth.{read_depth, build_vpcc-half_depth}
use live.Recorder.Fmp4.Init.{build_init_segment, build_moov, build_ftyp, sample_entry, video_entry}
use live.Recorder.Fmp4.Init.Reading.{read_init, built_entry}
use live.Recorder.Fmp4.Init.Config.{avc, SetsFit}
use live.Recorder.Fmp4.Init.RoundTrip.{read_init-build_init_segment}

-- A keyframe and a frame after it.
abbrev two_samples : List Mp4Sample
two_samples =
    record { duration = 3000; is_sync = true; bytes = 0 ∷ 0 ∷ 0 ∷ 1 ∷ 0x65 ∷ [] }
    ∷ record { duration = 3003; is_sync = false; bytes = 0 ∷ 0 ∷ 0 ∷ 1 ∷ 0x41 ∷ [] }
    ∷ []

read_fragment-build_fragment_example :
    read_fragment (build_fragment_internal 1 7 900000 two_samples)
    ≡ some (record { track_id = 1; sequence_number = 7; base_time = 900000; samples = two_samples })
read_fragment-build_fragment_example =
    read_fragment-build_fragment 1 7 900000 two_samples (omega arith) (omega arith) (omega arith)
      (omega arith) (omega arith) (omega arith)

fragment_runs : drop 153 (build_fragment_internal 1 7 900000 two_samples) ≡ 0x41 ∷ []
unfolding build_fragment_internal
fragment_runs = refl

-- The writer of `test_build_init_segment_contains_ftyp_and_moov`.
abbrev avc_writer : Fmp4Writer
avc_writer =
    new 90000 1 640 480 (codes "avc1.42E01E")
      ((0x67 ∷ 0x42 ∷ 0xE0 ∷ 0x1E ∷ []) ∷ (0x68 ∷ 0xCE ∷ 0x06 ∷ 0xE2 ∷ []) ∷ [])

abbrev opus_writer : Fmp4Writer
opus_writer = new_audio 48000 2 2 48000 (codes "opus") []

build_init_segment_test : take 4 (drop 4 (build_init_segment avc_writer)) ≡ codes "ftyp"
unfolding build_init_segment build_ftyp make_box
build_init_segment_test = refl

entry_length : length (sample_entry avc_writer) ≡ 113
unfolding sample_entry video_entry starts_with to_ascii_lowercase build_avc1_sample_entry
    visual_header build_avcc avcc_record make_box
entry_length = refl

avc_writer_fits : length (build_moov avc_writer) < 2 ^ 32
avc_writer_fits = omega (
  arith,
  length-build_moov avc_writer,
  length-build_trak avc_writer,
  length-build_mdia avc_writer,
  length-build_minf avc_writer,
  length-build_stbl avc_writer,
  length-build_stsd avc_writer,
  entry_length,
)

avc_writer-SetsFit : SetsFit avc_writer.codec_config
avc_writer-SetsFit = (omega arith, omega arith, (omega arith, (omega arith, tt)))

read_init-build_init_segment_example :
    read_init (build_init_segment avc_writer)
    ≡ some (record {
      track_id = 1;
      default_track_id = 1;
      timescale = 90000;
      width = 640;
      height = 480;
      handler = codes "vide";
      entry_type = codes "avc1";
      config_type = codes "avcC";
      config =
          avc
            (0x42 ∷ 0xE0 ∷ 0x1E ∷ [])
            ((0x67 ∷ 0x42 ∷ 0xE0 ∷ 0x1E ∷ []) ∷ [])
            ((0x68 ∷ 0xCE ∷ 0x06 ∷ 0xE2 ∷ []) ∷ []);
    })
unfolding starts_with to_ascii_lowercase
read_init-build_init_segment_example =
    read_init-build_init_segment avc_writer avc_writer_fits (omega arith) (omega arith)
      (omega arith) (omega arith) (omega arith) (omega arith) (λ _. avc_writer-SetsFit)

-- The entries of an H.264 track and of an Opus track, as they are built.
built_tests :
    (built_entry avc_writer ≡ (
      codes "avc1",
      codes "avcC",
      1 ∷ 0x42 ∷ 0xE0 ∷ 0x1E ∷ 0xFF ∷ 0xE1 ∷ 0 ∷ 4 ∷ 0x67 ∷ 0x42 ∷ 0xE0 ∷ 0x1E ∷ 1 ∷ 0 ∷ 4 ∷ 0x68
          ∷ 0xCE ∷ 0x06 ∷ 0xE2 ∷ [],
    ))
    × (built_entry opus_writer
        ≡ (codes "Opus", codes "dOps", 0 ∷ 2 ∷ 0 ∷ 0 ∷ 0 ∷ 0 ∷ 0xBB ∷ 0x80 ∷ 0 ∷ 0 ∷ 0 ∷ []))
unfolding starts_with to_ascii_lowercase avcc_record dops_record
built_tests = (refl, refl)

-- The codec string that the VP9 adapter writes for eight bits.
abbrev vp9_writer : Fmp4Writer
vp9_writer = new 90000 1 640 480 (codes "vp09.00.10.08.01.01.01.01.00") []

build_vpcc-half_depth_example :
    (read_depth (build_vpcc vp9_writer true)
      ≡ some ((parse_codec true vp9_writer.codec_string).bit_depth / 2))
    × ((parse_codec true vp9_writer.codec_string).bit_depth / 2
        ≢ (parse_codec true vp9_writer.codec_string).bit_depth)
build_vpcc-half_depth_example = build_vpcc-half_depth vp9_writer true

vp9_depth : (parse_codec true vp9_writer.codec_string).bit_depth ≡ 8
unfolding parse_codec split_on to_ascii_lowercase parse_unsigned
vp9_depth = refl
