-- ===== src/Recorder/Av1/ConfigRecord.antt =====
-- av1.rs, `build_codec_string` and `build_av1c_record`.
pub mod Layout
use live.Prelude.{
  ℕ, ◌+◌, ◌≡◌, refl, Bool, true, false, ◌&&◌, not, Bytes, List, [], ◌∷◌, ◌++◌, ltb, ◌==◌,
  if◌then◌else◌, bit_and, bit_or, ◌<<<◌, u8, codes, decimal, decimal_02,
}
use live.Recorder.Av1.ColorConfig.{ColorConfig}
use live.Recorder.Av1.SequenceHeader.{SequenceHeader}

-- `first().copied().unwrap_or(…)`
abbrev pub first_or {ℓ} : {A : Type ℓ} → List A → A → A
first_or [] default = default
first_or (x ∷ xs) default = x

abbrev pub bit : Bool → ℕ
bit b = if b then 1 else 0

-- The chroma format of the codec string.
chroma_of : ColorConfig → ℕ
chroma_of c =
    if c.mono_chrome
    then 0
    else if c.subsampling_x && c.subsampling_y
    then 1
    else if c.subsampling_x && not c.subsampling_y
    then 2
    else 3

unfoldable pub build_codec_string : SequenceHeader → Bytes
unfolding chroma_of decimal decimal_02
build_codec_string info =
    let c = info.color_config in
    codes "av01."
    ++ (decimal info.seq_profile
        ++ (b'.'
            ∷ ((if first_or info.seq_tier false then b'H' else b'M')
                ∷ (decimal_02 (first_or info.seq_level_idx 0)
                    ++ (b'.'
                        ∷ (decimal_02 c.bit_depth
                            ++ (b'.'
                                ∷ (decimal (chroma_of c)
                                    ++ (b'.'
                                        ∷ (decimal (bit c.color_range)
                                            ++ (b'.' ∷ decimal c.chroma_sample_position)))))))))))

-- The second byte of flags; each shift is one of a `u8`.
flags_byte : Bool → ColorConfig → ℕ
flags_byte tier c =
    bit_or
      (bit_or
        (bit_or
          (bit_or
            (bit_or (bit_or (u8 (bit tier <<< 7)) (u8 (bit (ltb 8 c.bit_depth) <<< 6)))
              (u8 (bit (c.bit_depth == 12) <<< 5)))
            (u8 (bit c.mono_chrome <<< 4)))
          (u8 (bit c.subsampling_x <<< 3)))
        (u8 (bit c.subsampling_y <<< 2)))
      (bit_and c.chroma_sample_position 0x03)

unfoldable pub build_av1c_record : SequenceHeader → Bytes → Bytes
unfolding flags_byte
build_av1c_record info sequence_header_with_size =
    let seq_level = bit_and (first_or info.seq_level_idx 0) 0x1f in
    0x81
    ∷ bit_or (u8 (bit_and info.seq_profile 0x07 <<< 5)) seq_level
    ∷ flags_byte (first_or info.seq_tier false) info.color_config
    ∷ 0
    ∷ sequence_header_with_size
