-- ===== src/Recorder/Vp9/Header/Bounds.antt =====
-- What `Vp9FrameHeader::parse` may return, for any bytes.
use live.Prelude.{
  ℕ, ◌^◌, ◌≤◌, ◌<◌, ◌≡◌, refl, Bool, true, false, ◌||◌, not, Bytes, arith, leb, ◌==◌, ◌!=◌,
  if◌then◌else◌, Option, none, some, is_some, u8, bit_or, ◌<<<◌, or-shift, Bool-cases, inl, inr,
  ◌⊎◌, ok, err, panic, Outcome, Returns,
}
use live.Recorder.Reader
use live.Recorder.Reader.{BitReader, ◌>>=◌, ◌>>◌, return, fail}
use live.Recorder.Reader.Reads.{
  IsReader, Reads, Reads-return, Reads-fail, Reads-if, Reads->>=, Reads-then,
}
use live.Recorder.Vp9.BitReader.{Missing, missing}
use live.Recorder.Vp9.BitReader.Reads.{
  skip_bits-Reads, bits_then, ensure_then, flag_then, skip_then,
}
use live.Recorder.Vp9.Header.{
  Vp9FrameSize, Vp9ColorConfig, Vp9FrameHeader, is_keyframe, has_sampling, read_depth,
  read_sampling, parse_color_config, parse_frame_size, skip_reserved, shown_existing, key_parts,
  decoded_frame, read_header, forget_reader, parse,
}

pub record IsDepth (profile depth : ℕ) : Type 0 where
  pub low : profile < 2 → depth ≡ 8
  pub high : 2 ≤ profile → (depth ≡ 10) ⊎ (depth ≡ 12)

-- Only profiles 1 and 3 have a subsampling other than 4:2:0; RGB has the full range.
pub record IsSampling (profile color_space : ℕ) (range x y : Bool) : Type 0 where
  pub fixed : has_sampling profile ≡ false → (x ≡ true) × (y ≡ true)
  pub rgb : color_space ≡ 7 → range ≡ true

pub record IsColorConfig (profile : ℕ) (c : Vp9ColorConfig) : Type 0 where
  pub depth : IsDepth profile c.bit_depth
  pub sampling : IsSampling profile c.color_space c.color_range c.subsampling_x c.subsampling_y
  pub space : c.color_space < 8

abbrev pub IsColorOf : ℕ → Option Vp9ColorConfig → Type 0
IsColorOf profile none = Unit
IsColorOf profile (some c) = IsColorConfig profile c

abbrev pub IsSizeOf : Option Vp9FrameSize → Type 0
IsSizeOf none = Unit
IsSizeOf (some s) = (s.frame_width_minus_one < 2 ^ 16) × (s.frame_height_minus_one < 2 ^ 16)

-- Key frames, and no others, have a colour configuration and a size.
pub record IsHeader (h : Vp9FrameHeader) : Type 0 where
  pub profile_small : h.profile < 4
  pub with_color : is_some h.color_config ≡ is_keyframe h
  pub with_size : is_some h.frame_size ≡ is_keyframe h
  pub color : IsColorOf h.profile h.color_config
  pub size : IsSizeOf h.frame_size

read_depth-Reads : (profile : ℕ) → Reads (λ d. IsDepth profile d.1) (read_depth profile)
unfolding read_depth
read_depth-Reads profile = elim (Bool-cases (leb 2 profile)) [
  | inl deep ↦ rw deep (flag_then _ (λ b. Reads-return _ (b, if b then 12 else 10) (ground arith)))
  | inr low ↦ rw low (Reads-return _ (false, 8) (ground arith))
]

read_sampling-Reads :
    (profile color_space : ℕ)
    → Reads
        (λ s. IsSampling profile color_space s.range s.x s.y)
        (read_sampling profile color_space)
unfolding read_sampling
read_sampling-Reads profile color_space = elim (Bool-cases (color_space != 7)) [
  | inl yuv ↦ rw yuv (
      flag_then _ (λ cr. elim (Bool-cases (has_sampling profile)) [
        | inl has ↦ rw has (
            flag_then _ (λ x.
              flag_then _ (λ y. skip_then _ 1 (omega arith) (Reads-return _ _ (ground arith)))))
        | inr none_there ↦ rw none_there (Reads-return _ _ (ground arith))
      ]))
  | inr rgb ↦ rw rgb (elim (Bool-cases (has_sampling profile)) [
    | inl has ↦ rw has (skip_then _ 1 (omega arith) (Reads-return _ _ (ground arith)))
    | inr none_there ↦ rw none_there (Reads-return _ _ (ground arith))
  ])
]

parse_color_config-Reads :
    (profile : ℕ) → Reads (IsColorConfig profile) (parse_color_config profile)
unfolding parse_color_config
parse_color_config-Reads profile = Reads->>= _ _ (read_depth-Reads profile) (λ d is_depth.
    bits_then _ 3 (omega arith) (λ space small.
      Reads->>= _ _ (read_sampling-Reads profile (u8 space)) (λ s is_sampling.
        Reads-return _ _
          (record { depth = is_depth; sampling = is_sampling; space = omega arith }))))

parse_frame_size-Reads : Reads (λ s. IsSizeOf (some s)) parse_frame_size
unfolding parse_frame_size
parse_frame_size-Reads = ensure_then _ 32 (
    bits_then _ 16 (omega arith)
      (λ w hw. bits_then _ 16 (omega arith) (λ h hh. Reads-return _ _ (omega arith))))

-- The colour configuration and the size are there exactly in a key frame.
record IsParts (profile : ℕ) (non_key : Bool) (parts : Option Vp9ColorConfig × Option Vp9FrameSize)
    : Type 0 where
  with_color : is_some parts.0 ≡ not non_key
  with_size : is_some parts.1 ≡ not non_key
  color : IsColorOf profile parts.0
  size : IsSizeOf parts.1

key_parts-Reads :
    (profile : ℕ) (non_key : Bool) → Reads (IsParts profile non_key) (key_parts profile non_key)
unfolding key_parts
key_parts-Reads profile true =
    Reads-return _ (none, none)
      (record { with_color = refl; with_size = refl; color = tt; size = tt })
key_parts-Reads profile false = ensure_then _ 24 (
    bits_then _ 8 (omega arith) (λ s0 _. bits_then _ 8 (omega arith) (λ s1 _.
      bits_then _ 8 (omega arith) (λ s2 _.
        Reads-if _ (u8 s0 != 0x49 || u8 s1 != 0x83 || u8 s2 != 0x42) (Reads-fail _ missing) (
          Reads->>= _ _ (parse_color_config-Reads profile) (λ c is_color.
            Reads->>= _ _ parse_frame_size-Reads (λ s is_size.
              Reads-return _ (some c, some s)
                (record {
                  with_color = refl;
                  with_size = refl;
                  color = is_color;
                  size = is_size;
                }))))))))

decoded_frame-Reads : (profile : ℕ) → profile < 4 → Reads IsHeader (decoded_frame profile)
unfolding decoded_frame
decoded_frame-Reads profile small = ensure_then _ 3 (
    flag_then _ (λ non_key. flag_then _ (λ _. flag_then _ (λ _.
      Reads->>= _ _ (key_parts-Reads profile non_key) (λ parts h. Reads-return _ _ (record {
        profile_small = small;
        with_color = h.with_color;
        with_size = h.with_size;
        color = h.color;
        size = h.size;
      }))))))

shown_existing-Reads : (profile : ℕ) → profile < 4 → Reads IsHeader (shown_existing profile)
unfolding shown_existing
shown_existing-Reads profile small = bits_then _ 3 (omega arith) (λ idx _.
    Reads-return _ _ (record {
      profile_small = small;
      with_color = refl;
      with_size = refl;
      color = tt;
      size = tt;
    }))

skip_reserved-Reads : (profile : ℕ) → Reads (λ _. Unit {0}) (skip_reserved profile)
unfolding skip_reserved
skip_reserved-Reads profile =
    Reads-if _ (profile == 3) (ensure_then _ 1 (skip_bits-Reads 1 (omega arith)))
      (Reads-return _ tt tt)

profile_of : (low high : ℕ) → low < 2 ^ 1 → high < 2 ^ 1 → bit_or (u8 (u8 high <<< 1)) (u8 low) < 4
profile_of low high hl hh = ground (arith, or-shift 1 high low)

read_header-Reads : Reads IsHeader read_header
unfolding read_header
read_header-Reads = ensure_then _ 4 (
    bits_then _ 2 (omega arith) (λ marker _. Reads-if _ (marker != 2) (Reads-fail _ missing) (
      bits_then _ 1 (omega arith) (λ low hl. bits_then _ 1 (omega arith) (λ high hh.
        Reads-then _ (skip_reserved-Reads _) (
          flag_then _ (λ existing.
            Reads-if _ existing (shown_existing-Reads _ (profile_of low high hl hh))
              (decoded_frame-Reads _ (profile_of low high hl hh)))))))))

forget-Returns :
    (r : Outcome Missing (Vp9FrameHeader × BitReader))
    → Returns (λ (p : Vp9FrameHeader × BitReader). IsHeader p.0 × IsReader p.1) r
    → Returns IsHeader (forget_reader r)
unfolding forget_reader
forget-Returns (ok (header, br)) h = h.0
forget-Returns (err e) h = tt
forget-Returns panic h = h

-- `Vp9FrameHeader::parse` panics on no bytes. A header that it returns has a profile below four;
-- it has a colour configuration and a frame size exactly if it is a key frame; the bit depth is 8
-- in profiles 0 and 1, and 10 or 12 in the others; profiles 0 and 2 are 4:2:0; and both dimensions
-- fit 16 bits after the subtraction of one.
pub parse-IsVp9Header : (bytes : Bytes) → Returns IsHeader (parse bytes)
unfolding parse Reader.new
parse-IsVp9Header bytes =
    forget-Returns (read_header (Reader.new bytes))
      (read_header-Reads.run (Reader.new bytes) (record { all_bits = refl; inside = omega arith }))
