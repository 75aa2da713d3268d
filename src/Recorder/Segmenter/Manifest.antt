-- ===== src/Recorder/Segmenter/Manifest.antt =====
-- segmenter.rs, `write_manifest`: the text of the MPD. The numbers of `f64` are a parameter.
use live.Prelude.{
  ℕ, ◌+◌, ◌*◌, ◌/◌, min, max, flatten, ◌||◌, Bool, ◌&&◌, not, Bytes, List, [], ◌∷◌, ◌++◌, ltb,
  if◌then◌else◌, Option, none, some, is_some, is_empty, codes, decimal, u64,
}
use live.Recorder.Fmp4.Writer.{Fmp4Writer}
use live.Recorder.Segmenter.Interface.{Floats}
use live.Recorder.Segmenter.State.{Segmenter, SegmentInfo, default_seg_duration, store_file}
use live.Recorder.Segmenter.AspectRatio.{par_str}

timeline_entries : List SegmentInfo → Bytes
timeline_entries [] = []
timeline_entries (segment ∷ segments) =
    codes "                        <S t=\""
    ++ (decimal segment.start_time
        ++ (codes "\" d=\""
            ++ (decimal segment.duration ++ (codes "\" />\n" ++ timeline_entries segments))))

unfoldable pub generate_segment_timeline : List SegmentInfo → Bytes
unfolding timeline_entries
generate_segment_timeline segments =
    if is_empty segments
    then codes "                    <SegmentTimeline></SegmentTimeline>"
    else codes "                    <SegmentTimeline>\n"
      ++ (timeline_entries segments ++ codes "                    </SegmentTimeline>")

-- The end of the last segment, and the longest duration.
end_ticks : List SegmentInfo → ℕ
end_ticks [] = 0
end_ticks (last ∷ []) = u64 (last.start_time + last.duration)
end_ticks (_ ∷ next ∷ segments) = end_ticks (next ∷ segments)

max_duration : List SegmentInfo → ℕ
max_duration [] = 0
max_duration (segment ∷ segments) = max segment.duration (max_duration segments)

-- `saturating_mul` on `u64`.
saturating_mul : ℕ → ℕ → ℕ
saturating_mul a b = min (a * b) 0xFFFF_FFFF_FFFF_FFFF

unfoldable pub bandwidth : (total_bytes total_ticks timescale : ℕ) → ℕ
unfolding saturating_mul
bandwidth total_bytes total_ticks timescale =
    if ltb 0 total_ticks
    then saturating_mul (saturating_mul total_bytes 8) timescale / max total_ticks 1
    else 0

writer_timescale : Option Fmp4Writer → ℕ
writer_timescale none = 0
writer_timescale (some w) = w.timescale

module _ (FL : Floats) where
  open FL use {F64, from_u64, divide, multiply, maximum, is_zero, is_positive, print_3}

  -- Both durations in seconds, of the recording and of its longest segment, with one track more.
  with_segments : Bool → List SegmentInfo → ℕ → F64 × F64 → F64 × F64
  with_segments present segments timescale (media, longest) =
      if present
      then (
        maximum media (divide (from_u64 (end_ticks segments)) (from_u64 timescale)),
        maximum longest (divide (from_u64 (max_duration segments)) (from_u64 timescale)),
      )
      else (media, longest)

  durations : {A : Type 0} → Segmenter A F64 → F64 × F64
  durations s =
      let video =
        with_segments (is_some s.video_track_id && not (is_empty s.segments)) s.segments s.timescale
          (from_u64 0, from_u64 0) in
      let (media, longest) =
        with_segments (is_some s.audio_writer && not (is_empty s.audio_segments)) s.audio_segments
          (writer_timescale s.audio_writer) video in
      let longest' = if is_zero longest then from_u64 default_seg_duration else longest in
      (if is_zero media then longest' else media, longest')

  min_buffer_time : F64 → Bytes
  min_buffer_time longest =
      if is_positive (multiply longest (from_u64 3))
      then codes "PT" ++ (print_3 (multiply longest (from_u64 3)) ++ codes "S")
      else codes "PT1S"

-- `format!`: the pieces, one after the other.
video_section : {A F : Type 0} → Segmenter A F → Bytes
video_section s =
    let fps_val = if ltb 0 s.frame_rate then s.frame_rate else 30 in
    flatten (
      codes
        "        <AdaptationSet id=\"0\" contentType=\"video\" startWithSAP=\"1\" segmentAlignment=\"true\" bitstreamSwitching=\"true\" frameRate=\""
      ∷ decimal fps_val
      ∷ codes "/1\" maxWidth=\""
      ∷ decimal s.video_width
      ∷ codes "\" maxHeight=\""
      ∷ decimal s.video_height
      ∷ codes "\" par=\""
      ∷ par_str s.video_width s.video_height
      ∷ codes "\">\n            <Representation id=\"0\" mimeType=\"video/mp4\" codecs=\""
      ∷ s.video_codec
      ∷ codes "\" bandwidth=\""
      ∷ decimal (bandwidth s.total_bytes s.total_ticks s.timescale)
      ∷ codes "\" width=\""
      ∷ decimal s.video_width
      ∷ codes "\" height=\""
      ∷ decimal s.video_height
      ∷ codes "\" sar=\"1:1\">\n                <SegmentTemplate timescale=\""
      ∷ decimal s.timescale
      ∷ codes
          "\" initialization=\"v_init.m4s\" media=\"v_seg_$Number%04d$.m4s\" startNumber=\"1\">\n"
      ∷ generate_segment_timeline s.segments
      ∷ codes
          "\n                </SegmentTemplate>\n            </Representation>\n        </AdaptationSet>\n"
      ∷ [])

audio_section : {A F : Type 0} → Segmenter A F → Fmp4Writer → Bytes
audio_section s w =
    let id = if is_some s.video_track_id then 1 else 0 in
    flatten (
      codes "        <AdaptationSet id=\""
      ∷ decimal id
      ∷ codes
          "\" contentType=\"audio\" segmentAlignment=\"true\">\n            <Representation id=\""
      ∷ decimal id
      ∷ codes "\" mimeType=\"audio/mp4\" codecs=\""
      ∷ w.codec_string
      ∷ codes "\" bandwidth=\""
      ∷ decimal (bandwidth s.audio_total_bytes s.audio_total_ticks w.timescale)
      ∷ codes "\" audioSamplingRate=\""
      ∷ decimal w.sample_rate
      ∷ codes "\" >\n                <SegmentTemplate timescale=\""
      ∷ decimal w.timescale
      ∷ codes
          "\" initialization=\"a_init.m4s\" media=\"a_seg_$Number%04d$.m4s\" startNumber=\"1\">\n"
      ∷ generate_segment_timeline s.audio_segments
      ∷ codes
          "\n                </SegmentTemplate>\n            </Representation>\n        </AdaptationSet>\n"
      ∷ [])

adaptation_sets : {A F : Type 0} → Segmenter A F → Bytes
adaptation_sets s =
    (if is_some s.video_track_id then video_section s else [])
    ++ elim s.audio_writer [ none ↦ [] | some w ↦ audio_section s w ]

module _ (FL : Floats) where
  open FL use {F64, print_3}

  mpd_body : {A : Type 0} → Segmenter A F64 → Bytes
  mpd_body s =
      let (media, longest) = durations FL s in
      flatten (
        codes
          "<?xml version=\"1.0\" encoding=\"utf-8\"?>\n<MPD xmlns:xsi=\"http://www.w3.org/2001/XMLSchema-instance\"\n"
        ∷ codes "xmlns=\"urn:mpeg:dash:schema:mpd:2011\"\n"
        ∷ codes "xmlns:xlink=\"http://www.w3.org/1999/xlink\"\n"
        ∷ codes
            "xsi:schemaLocation=\"urn:mpeg:DASH:schema:MPD:2011 http://standards.iso.org/ittf/PubliclyAvailableStandards/MPEG-DASH_schema_files/DASH-MPD.xsd\"\n"
        ∷ codes "profiles=\"urn:mpeg:dash:profile:isoff-live:2011\"\n"
        ∷ codes "type=\"static\"\n"
        ∷ codes "mediaPresentationDuration=\"PT"
        ∷ print_3 media
        ∷ codes "S\"\nmaxSegmentDuration=\"PT"
        ∷ print_3 longest
        ∷ codes "S\"\nminBufferTime=\""
        ∷ min_buffer_time FL longest
        ∷ codes
            "\">\n<ProgramInformation/>\n    <ServiceDescription id=\"0\"/>\n    <Period id=\"0\" start=\"PT0.0S\">\n"
        ∷ adaptation_sets s
        ∷ codes "    </Period>\n</MPD>\n"
        ∷ [])

  unfoldable pub write_manifest : {A : Type 0} → Segmenter A F64 → Segmenter A F64
  unfolding writer_timescale with_segments durations min_buffer_time video_section audio_section
      adaptation_sets mpd_body end_ticks max_duration
  write_manifest s =
      if is_some s.video_track_id || is_some s.audio_writer
      then store_file (codes "manifest.mpd") (mpd_body s) s
      else s
