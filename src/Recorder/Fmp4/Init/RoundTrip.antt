-- ===== src/Recorder/Fmp4/Init/RoundTrip.antt =====
-- That a player reads the track of a writer back from the initialization segment.
use live.Prelude.{◌^◌, ◌<◌, ◌≡◌, sym, ◌∙◌, ap, Bytes, arith, some, length, codes, bytes_eq}
use live.Recorder.Fmp4.Boxes.{find_box}
use live.Recorder.Fmp4.Writer.{Fmp4Writer, is_video}
use live.Recorder.Fmp4.Init.{build_init_segment, build_moov, sample_entry}
use live.Recorder.Fmp4.Init.Config.{Config, entry_of, SetsFit}
use live.Recorder.Fmp4.Init.Entry.{entry_read, built_entry-read}
use live.Recorder.Fmp4.Init.Reading.{
  TrackInfo, read_init, read_entry, built_entry, handler_of, sample_entry-eq, read_entry-entry_box,
}
use live.Recorder.Fmp4.Init.Nesting.{
  length-build_stsd, media_payload, dinf_payload, stbl_payload, find_stbl, handler_found,
}
use live.Recorder.Fmp4.Init.Boxed.{
  read_segment, read_moov, read_mvex, read_trak, read_mdia, read_minf, read_stbl, stsd_fits,
}

-- The track of a writer, with the type of the sample entry, and its configuration box.
abbrev pub info_of : Fmp4Writer → Bytes × Bytes × Config → TrackInfo
info_of w (entry_type, config_type, config) = record {
  track_id = w.track_id;
  default_track_id = w.track_id;
  timescale = w.timescale;
  width = w.width;
  height = w.height;
  handler = handler_of (is_video w.kind);
  entry_type = entry_type;
  config_type = config_type;
  config = config;
}

entry_found :
    (w : Fmp4Writer)
    → length (build_moov w) < 2 ^ 32
    → read_entry (handler_of (is_video w.kind)) (sample_entry w) ≡ some (built_entry w)
entry_found w fits = rw ((sample_entry-eq w).0) (
    read_entry-entry_box w (built_entry w) (sample_entry-eq w).1
      (omega (arith, stsd_fits w fits, length-build_stsd w, ap length (sample_entry-eq w).0)))

-- What a player reads, with the configuration as it is built.
read_built :
    (w : Fmp4Writer)
    → length (build_moov w) < 2 ^ 32
    → w.track_id < 2 ^ 32
    → w.timescale < 2 ^ 32
    → w.width < 2 ^ 16
    → w.height < 2 ^ 16
    → read_init (build_init_segment w) ≡ some (info_of w (entry_read (built_entry w)))
unfolding read_init find_box bytes_eq
read_built w fits t s x y =
    rw
      (
        read_segment w fits,
        read_moov w fits,
        read_mvex w fits,
        read_trak w fits,
        read_mdia w fits,
        read_minf w fits,
        find_stbl (is_video w.kind) media_payload dinf_payload (stbl_payload w),
        read_stbl w fits,
        handler_found (is_video w.kind),
        entry_found w fits,
      )
      (ground arith)

-- A player reads back from an initialization segment the track id, in the track header and in the
-- defaults for fragments, the time scale, the size of the picture, the handler, and the sample entry.
-- That has a type that depends on how the codec string starts, whatever the case: `hev1` for hev1 and
-- hvc1, with the first configuration blob as the record of the decoder; `av01` for av01, with the
-- same; `vp09` and `vp08` for those, with a `vpcC` box whose content is not looked at; and `avc1` for
-- any other, with the first blob as its sequence parameter set, the other blobs as its picture
-- parameter sets, and the profile and level of the first blob. Sound has an `Opus` entry with its
-- channels and sample rate. The numbers fit their fields, as the parameter sets of an `avc1` entry do,
-- the first of which has more than three bytes, and `moov` fits 32 bits.
pub read_init-build_init_segment :
    (w : Fmp4Writer)
    → length (build_moov w) < 2 ^ 32
    → w.track_id < 2 ^ 32
    → w.timescale < 2 ^ 32
    → w.width < 2 ^ 16
    → w.height < 2 ^ 16
    → w.channels < 2 ^ 8
    → w.sample_rate < 2 ^ 32
    → ((entry_of w).0 ≡ codes "avc1" → SetsFit w.codec_config)
    → read_init (build_init_segment w) ≡ some (info_of w (entry_of w))
read_init-build_init_segment w fits t s x y c r sets =
    read_built w fits t s x y
    ∙ ap (λ (e : Bytes × Bytes × Config). some (info_of w e)) (sym (built_entry-read w sets c r))
