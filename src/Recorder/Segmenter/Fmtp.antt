-- ===== src/Recorder/Segmenter/Fmtp.antt =====
-- segmenter.rs, `parse_channels_from_fmtp` and `configure_audio_track`.
use live.Prelude.{
  ℕ, Bytes, List, [], ◌∷◌, ltb, if◌then◌else◌, Option, none, some, codes, bytes_eq, split_on, trim,
  strip_prefix, parse_unsigned, to_ascii_lowercase, is_empty, ◌≡◌, refl,
}
use live.Recorder.Segmenter.State.{Segmenter}

-- What `return` gives for `channels=`.
channels_value : Bytes → Option ℕ
channels_value value = elim (parse_unsigned 65535 (trim value)) [
  | none ↦ none
  | some v ↦ if ltb 0 v then some v else none
]

-- And for `stereo=` and `sprop-stereo=`.
stereo_value : Bytes → Option ℕ
stereo_value value =
    if bytes_eq (trim value) (codes "1")
    then some 2
    else if bytes_eq (trim value) (codes "0")
    then some 1
    else none

-- The closure of `find_map`.
channels_of : Bytes → Option ℕ
channels_of part = elim (strip_prefix (codes "channels=") part) [
  | some value ↦ channels_value value
  | none ↦ elim (strip_prefix (codes "stereo=") part) [
    | some value ↦ stereo_value value
    | none ↦ elim (strip_prefix (codes "sprop-stereo=") part) [
      | some value ↦ stereo_value value
      | none ↦ none
    ]
  ]
]

first_channels : List Bytes → Option ℕ
first_channels [] = none
first_channels (part ∷ parts) = elim (channels_of (trim part)) [
  | some v ↦ some v
  | none ↦ first_channels parts
]

unfoldable pub parse_channels_from_fmtp : Bytes → Option ℕ
unfolding channels_value stereo_value channels_of first_channels
parse_channels_from_fmtp fmtp = first_channels (split_on b';' fmtp)

derived_channels : ℕ → Option Bytes → ℕ
derived_channels channels none = channels
derived_channels channels (some fmtp_line) = elim (parse_channels_from_fmtp fmtp_line) [
  | none ↦ channels
  | some parsed ↦ parsed
]

last_part : List Bytes → Bytes
last_part [] = []
last_part (part ∷ []) = part
last_part (part ∷ next ∷ parts) = last_part (next ∷ parts)

-- The part of a codec name behind its last slash, in small letters.
codec_name : Bytes → Bytes
codec_name codec_input = to_ascii_lowercase (last_part (split_on b'/' codec_input))

unfoldable pub configure_audio_track :
    {A F : Type 0}
    → (sample_rate channels : ℕ) → (codec_input : Bytes) → (fmtp : Option Bytes) → Segmenter A F
    → Segmenter A F
unfolding derived_channels last_part codec_name
configure_audio_track sample_rate channels codec_input fmtp s =
    let derived = derived_channels channels fmtp in
    record s {
      audio_sample_rate = if ltb 0 sample_rate then sample_rate else s.audio_sample_rate;
      audio_channels = if ltb 0 derived then derived else s.audio_channels;
      audio_codec = if is_empty codec_input then s.audio_codec else codec_name codec_input;
    }

fmtp_tests :
    (parse_channels_from_fmtp (codes "minptime=10; stereo=1") ≡ some 2)
    × (parse_channels_from_fmtp (codes "sprop-stereo=0;channels=6") ≡ some 1)
    × (parse_channels_from_fmtp (codes "channels=0; stereo=1") ≡ some 2)
unfolding parse_channels_from_fmtp split_on trim strip_prefix parse_unsigned bytes_eq
fmtp_tests = (refl, refl, refl)
