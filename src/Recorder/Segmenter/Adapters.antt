-- ===== src/Recorder/Segmenter/Adapters.antt =====
-- codec/mod.rs, `create_video_adapter`: the four adapters behind the trait `CodecAdapter`. What they
-- take from other crates is a parameter here too: the decoder of H.264 parameter sets, and of H.265
-- parameter sets with its writer of decoder configuration records. The conversions of VP9 and AV1 may
-- panic by their types, but never do: what they return is taken from Vp9/Adapter/Laws and
-- Av1/Adapter/Laws, and an AV1 adapter comes with the invariant that the latter asks for.
use live.Prelude.{ℕ, Bool, Bytes, IsBytes, List, [], ◌∷◌, Option, some, u8, arith}
use live.Recorder.Codec.{Converted}
use live.Recorder.H264.Adapter as H264
use live.Recorder.H265.Adapter as H265
use live.Recorder.Vp9.Adapter as Vp9
use live.Recorder.Av1.Adapter as Av1
use live.Recorder.Vp9.Adapter.Laws.{convert_frame-IsVp9Frame}
use live.Recorder.Av1.Adapter.Laws.{IsAdapter, new-IsAdapter, convert_frame-IsConverted}
use live.Recorder.Segmenter.Interface.{CodecAdapters, VideoCodec, h264, h265, vp9, av1}

pub data VideoAdapter : Type 0 where
  of_h264 : H264.H264Adapter → VideoAdapter
  of_h265 : H265.H265Adapter → VideoAdapter
  of_vp9 : Vp9.Vp9Adapter → VideoAdapter
  of_av1 : (a : Av1.Av1Adapter) → IsAdapter a → VideoAdapter

unfoldable pub create : VideoCodec → VideoAdapter
create h264 = of_h264 H264.new
create h265 = of_h265 H265.new
create vp9 = of_vp9 Vp9.new
create av1 = of_av1 Av1.new new-IsAdapter

unfoldable pub ready : VideoAdapter → Bool
ready (of_h264 a) = H264.ready a
ready (of_h265 a) = H265.ready a
ready (of_vp9 a) = Vp9.ready a
ready (of_av1 a good) = Av1.ready a

unfoldable pub codec_string : VideoAdapter → Option Bytes
codec_string (of_h264 a) = a.codec_string
codec_string (of_h265 a) = a.codec_string
codec_string (of_vp9 a) = some (Vp9.codec_string a)
codec_string (of_av1 a good) = a.codec_string

unfoldable pub width : VideoAdapter → ℕ
width (of_h264 a) = a.width
width (of_h265 a) = a.width
width (of_vp9 a) = a.width
width (of_av1 a good) = a.width

unfoldable pub height : VideoAdapter → ℕ
height (of_h264 a) = a.height
height (of_h265 a) = a.height
height (of_vp9 a) = a.height
height (of_av1 a good) = a.height

-- A frame as bytes: it holds nothing else.
pub as_bytes : Bytes → Bytes
as_bytes [] = []
as_bytes (x ∷ frame) = u8 x ∷ as_bytes frame

pub as_bytes-IsBytes : (frame : Bytes) → IsBytes (as_bytes frame)
unfolding as_bytes
as_bytes-IsBytes [] = tt
as_bytes-IsBytes (x ∷ frame) = (omega arith, as_bytes-IsBytes frame)

-- What `convert_frame` returns.
convert_vp9 : Vp9.Vp9Adapter → Bytes → VideoAdapter × Converted
convert_vp9 a frame = let r = convert_frame-IsVp9Frame a frame in (of_vp9 r.adapter, r.out)

convert_av1 : (a : Av1.Av1Adapter) → IsAdapter a → Bytes → VideoAdapter × Converted
convert_av1 a good frame =
    let r = convert_frame-IsConverted a (as_bytes frame) good (as_bytes-IsBytes frame) in
    (of_av1 r.adapter r.is_adapter, r.out)

module _ {I : Type 0} (dimensions : Bytes → Option (ℕ × ℕ)) (parse : Bytes → Option I)
    (cropped_width cropped_height : I → ℕ) (rbsp : I → H265.Rbsp)
    (mux : H265.HevcConfig → Option Bytes) where
  unfoldable pub convert_frame : VideoAdapter → Bytes → VideoAdapter × Converted
  unfolding convert_vp9 convert_av1
  convert_frame (of_h264 a) frame =
      let (a', c) = H264.convert_frame dimensions a frame in (of_h264 a', c)
  convert_frame (of_h265 a) frame =
      let (a', c) = H265.convert_frame parse cropped_width cropped_height a frame in (of_h265 a', c)
  convert_frame (of_vp9 a) frame = convert_vp9 a frame
  convert_frame (of_av1 a good) frame = convert_av1 a good frame

  unfoldable pub codec_config : VideoAdapter → Option (List Bytes)
  codec_config (of_h264 a) = H264.codec_config a
  codec_config (of_h265 a) = H265.codec_config parse rbsp mux a
  codec_config (of_vp9 a) = some []
  codec_config (of_av1 a good) = Av1.codec_config a

  abbrev pub video_adapters : CodecAdapters
  video_adapters = record {
    Adapter = VideoAdapter;
    create = create;
    timescale = λ _. 90000;
    ready = ready;
    convert_frame = convert_frame;
    codec_config = codec_config;
    codec_string = codec_string;
    width = width;
    height = height;
  }
