-- ===== src/Recorder/Segmenter/Interface.antt =====
-- What segmenter.rs uses of the codec adapters (the trait `CodecAdapter` of codec/mod.rs), and of the
-- arithmetic of `f64`.
use live.Prelude.{ℕ, Bool, Bytes, List, Option}
use live.Recorder.Codec.{Converted}

-- `VideoCodec`.
pub data VideoCodec : Type 0 where
  h264 : VideoCodec
  h265 : VideoCodec
  vp9 : VideoCodec
  av1 : VideoCodec

pub VideoCodec-discrete : Discrete VideoCodec
VideoCodec-discrete = hlevel

-- `create` is `create_video_adapter`. A method that takes `&mut self` returns the new adapter.
pub record CodecAdapters : Type 1 where
  pub Adapter : Type 0
  pub create : VideoCodec → Adapter
  pub timescale : Adapter → ℕ
  pub ready : Adapter → Bool
  pub convert_frame : Adapter → Bytes → Adapter × Converted
  pub codec_config : Adapter → Option (List Bytes)
  pub codec_string : Adapter → Option Bytes
  pub width : Adapter → ℕ
  pub height : Adapter → ℕ

-- The numbers of `f64`, with the operations on them that the manifest uses; `print_3` is `{:.3}`.
pub record Floats : Type 1 where
  pub F64 : Type 0
  pub from_u64 : ℕ → F64
  pub divide : F64 → F64 → F64
  pub multiply : F64 → F64 → F64
  pub maximum : F64 → F64 → F64
  pub is_zero : F64 → Bool
  pub is_positive : F64 → Bool
  pub print_3 : F64 → Bytes
