-- ===== src/Recorder/Av1/ConfigRecord/Layout.antt =====
-- The fields of the av1C record, at the bits where the AV1 file format has them.
use live.Prelude.{
  ℕ, ◌+◌, ◌*◌, ◌%◌, ◌<◌, ◌≡◌, refl, Bool, true, false, Bytes, ◌∷◌, arith, ltb, ◌==◌, bit_and,
  bit_or, ◌<<<◌, u8, and-mask, or-disjoint,
}
use live.Recorder.BitString.{bit_at, field}
use live.Recorder.Av1.ColorConfig.{ColorConfig}
use live.Recorder.Av1.SequenceHeader.{SequenceHeader}
use live.Recorder.Av1.ConfigRecord.{first_or, bit, flags_byte, build_av1c_record}

or_fields :
    (t h w m x y p : ℕ)
    → t < 2
    → h < 2
    → w < 2
    → m < 2
    → x < 2
    → y < 2
    → p < 4
    → bit_or
        (bit_or
          (bit_or
            (bit_or (bit_or (bit_or (u8 (t <<< 7)) (u8 (h <<< 6))) (u8 (w <<< 5))) (u8 (m <<< 4)))
            (u8 (x <<< 3)))
          (u8 (y <<< 2)))
        p
      ≡ t * 128 + h * 64 + w * 32 + m * 16 + x * 8 + y * 4 + p
or_fields t h w m x y p bt bh bw bm bx by bp =
    let a1 = u8 (t <<< 7) in
    let e1 = or-disjoint 7 a1 (u8 (h <<< 6)) (omega arith) (omega arith) in
    let a2 = bit_or a1 (u8 (h <<< 6)) in
    let e2 = or-disjoint 6 a2 (u8 (w <<< 5)) (omega arith) (omega arith) in
    let a3 = bit_or a2 (u8 (w <<< 5)) in
    let e3 = or-disjoint 5 a3 (u8 (m <<< 4)) (omega arith) (omega arith) in
    let a4 = bit_or a3 (u8 (m <<< 4)) in
    let e4 = or-disjoint 4 a4 (u8 (x <<< 3)) (omega arith) (omega arith) in
    let a5 = bit_or a4 (u8 (x <<< 3)) in
    let e5 = or-disjoint 3 a5 (u8 (y <<< 2)) (omega arith) (omega arith) in
    let a6 = bit_or a5 (u8 (y <<< 2)) in
    let e6 = or-disjoint 2 a6 p (omega arith) (omega arith) in omega arith

-- Fields of the second and the third byte, as parts of the number that the byte is.
profile_and_level :
    (a p l : ℕ) (rest : Bytes)
    → p < 8
    → l < 32
    → (field (a ∷ (p * 32 + l) ∷ rest) 8 3 ≡ p) × (field (a ∷ (p * 32 + l) ∷ rest) 11 5 ≡ l)
unfolding field bit_at
profile_and_level a p l rest hp hl = omega arith

flag_fields :
    (a b t h w m x y p : ℕ) (rest : Bytes)
    → t < 2
    → h < 2
    → w < 2
    → m < 2
    → x < 2
    → y < 2
    → p < 4
    → let r = a ∷ b ∷ (t * 128 + h * 64 + w * 32 + m * 16 + x * 8 + y * 4 + p) ∷ rest in
      (field r 16 1 ≡ t)
      × (field r 17 1 ≡ h)
      × (field r 18 1 ≡ w)
      × (field r 19 1 ≡ m)
      × (field r 20 1 ≡ x)
      × (field r 21 1 ≡ y)
      × (field r 22 2 ≡ p)
unfolding field bit_at
flag_fields a b t h w m x y p rest bt bh bw bm bx by bp = omega arith

bit-lt : (b : Bool) → bit b < 2
bit-lt true = omega arith
bit-lt false = omega arith

-- What the record says of a header, field by field, at the bit positions of the format.
pub record IsLaidOut (info : SequenceHeader) (r : Bytes) : Type 0 where
  pub marker : field r 0 1 ≡ 1
  pub version : field r 1 7 ≡ 1
  pub profile : field r 8 3 ≡ info.seq_profile
  pub level : field r 11 5 ≡ first_or info.seq_level_idx 0
  pub tier : field r 16 1 ≡ bit (first_or info.seq_tier false)
  pub high_bitdepth : field r 17 1 ≡ bit (ltb 8 info.color_config.bit_depth)
  pub twelve_bit : field r 18 1 ≡ bit (info.color_config.bit_depth == 12)
  pub monochrome : field r 19 1 ≡ bit info.color_config.mono_chrome
  pub chroma_x : field r 20 1 ≡ bit info.color_config.subsampling_x
  pub chroma_y : field r 21 1 ≡ bit info.color_config.subsampling_y
  pub chroma_position : field r 22 2 ≡ info.color_config.chroma_sample_position
  pub delay : field r 24 8 ≡ 0

flags_sum :
    (tier : Bool) (c : ColorConfig)
    → c.chroma_sample_position < 4
    → flags_byte tier c
      ≡ bit tier * 128
        + bit (ltb 8 c.bit_depth) * 64
        + bit (c.bit_depth == 12) * 32
        + bit c.mono_chrome * 16
        + bit c.subsampling_x * 8
        + bit c.subsampling_y * 4
        + c.chroma_sample_position
unfolding flags_byte
flags_sum tier c small = rw (and_low_two c.chroma_sample_position small) (
    or_fields (bit tier) _ _ _ _ _ c.chroma_sample_position (bit-lt tier) (bit-lt _) (bit-lt _)
      (bit-lt _) (bit-lt _) (bit-lt _) small)
  where
    and_low_two : (p : ℕ) → p < 4 → bit_and p 3 ≡ p
    and_low_two p h = omega (arith, and-mask 2 p)

second_byte :
    (p l : ℕ) → p < 8 → l < 32 → bit_or (u8 (bit_and p 0x07 <<< 5)) (bit_and l 0x1f) ≡ p * 32 + l
second_byte p l hp hl =
    rw (and-mask 3 p, and-mask 5 l)
      (omega (arith, or-disjoint 5 (u8 ((p % 8) <<< 5)) (l % 32) (omega arith) (omega arith)))

-- For a header whose numbers have the widths of their fields, the record carries each of them at
-- the bit position that the file format gives it.
pub build_av1c_record-IsLaidOut :
    (info : SequenceHeader) (sequence_header : Bytes)
    → info.seq_profile < 8
    → first_or info.seq_level_idx 0 < 32
    → info.color_config.chroma_sample_position < 4
    → IsLaidOut info (build_av1c_record info sequence_header)
unfolding build_av1c_record
build_av1c_record-IsLaidOut info sh hp hl hc =
    let c = info.color_config in
    let tier = first_or info.seq_tier false in
    let level = first_or info.seq_level_idx 0 in
    let flags =
      bit tier * 128
      + bit (ltb 8 c.bit_depth) * 64
      + bit (c.bit_depth == 12) * 32
      + bit c.mono_chrome * 16
      + bit c.subsampling_x * 8
      + bit c.subsampling_y * 4
      + c.chroma_sample_position in
    let second = profile_and_level 0x81 info.seq_profile level (flags ∷ 0 ∷ sh) hp hl in
    let third =
      flag_fields 0x81 (info.seq_profile * 32 + level) _ _ _ _ _ _ c.chroma_sample_position (0 ∷ sh)
        (bit-lt tier) (bit-lt (ltb 8 c.bit_depth)) (bit-lt (c.bit_depth == 12))
        (bit-lt c.mono_chrome) (bit-lt c.subsampling_x) (bit-lt c.subsampling_y) hc in
    rw (second_byte info.seq_profile level hp hl, flags_sum tier c hc)
      (record {
        marker = unfold field bit_at in refl;
        version = unfold field bit_at in refl;
        profile = second.0;
        level = second.1;
        tier = third.0;
        high_bitdepth = third.1;
        twelve_bit = third.2;
        monochrome = third.3;
        chroma_x = third.4;
        chroma_y = third.5;
        chroma_position = third.6;
        delay = unfold field bit_at in refl;
      })
