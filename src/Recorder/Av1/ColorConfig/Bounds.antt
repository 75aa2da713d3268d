-- ===== src/Recorder/Av1/ColorConfig/Bounds.antt =====
-- What `ColorConfig::parse` may return, for any bits.
use live.Prelude.{
  ℕ, ◌≤◌, ◌<◌, ◌≡◌, refl, ◌⊎◌, inl, inr, Bool, true, false, ◌&&◌, Bool-cases, arith, ◌==◌,
  if◌then◌else◌, u8,
}
use live.Recorder.Reader.Reads.{Reads, Reads-return, Reads-if, Reads->>=}
use live.Recorder.Av1.BitReader.Reads.{bits_then, flag_then, read_flag-Reads}
use live.Recorder.Av1.ColorConfig.{
  ColorConfig, Description, parse_bit_depth, parse_mono_chrome, parse_description,
  parse_subsampling, parse_position, is_srgb, parse_sampling, parse_color_config,
}

-- `bit_depth` and `twelve_bit` agree, and twelve bits need profile 2.
pub record IsDepth (profile : ℕ) (twelve_bit : Bool) (bit_depth : ℕ) : Type 0 where
  pub values : (bit_depth ≡ 8) ⊎ (bit_depth ≡ 10) ⊎ (bit_depth ≡ 12)
  pub twelve : twelve_bit ≡ true → (bit_depth ≡ 12) × (profile ≡ 2)
  pub not_twelve : twelve_bit ≡ false → bit_depth ≤ 10

-- A chroma position is a two-bit number, and there is one only at 4:2:0.
pub record IsSampling (mono_chrome x y : Bool) (position : ℕ) : Type 0 where
  pub small : position < 4
  pub placed : 0 < position → (x ≡ true) × (y ≡ true)
  pub mono : mono_chrome ≡ true → (x ≡ true) × (y ≡ true) × (position ≡ 0)
  pub halved : y ≡ true → x ≡ true

pub record IsColorConfig (profile : ℕ) (c : ColorConfig) : Type 0 where
  pub depth : IsDepth profile c.twelve_bit c.bit_depth
  pub sampling : IsSampling c.mono_chrome c.subsampling_x c.subsampling_y c.chroma_sample_position
  pub not_mono : profile ≡ 1 → c.mono_chrome ≡ false
  pub primaries_byte : c.color_primaries < 256

IsDepth-Reads :
    (profile : ℕ) (high : Bool)
    → Reads (λ d. IsDepth profile d.0 d.1) (parse_bit_depth profile high)
unfolding parse_bit_depth
IsDepth-Reads profile high = elim (Bool-cases (profile == 2 && high)) [
  | inl deep ↦ rw deep (flag_then _ (λ b. Reads-return _ (b, if b then 12 else 10) (ground arith)))
  | inr _shallow ↦ rw _shallow (Reads-return _ (false, if high then 10 else 8) (ground arith))
]

mono-Reads : (profile : ℕ) → Reads (λ m. profile ≡ 1 → m ≡ false) (parse_mono_chrome profile)
unfolding parse_mono_chrome
mono-Reads profile = elim (Bool-cases (profile == 1)) [
  | inl one ↦ rw one (Reads-return _ false (λ _. refl))
  | inr other ↦ rw other (read_flag-Reads _ (λ b. ground arith))
]

description-Reads : (present : Bool) → Reads (λ d. d.primaries < 256) (parse_description present)
unfolding parse_description
description-Reads true = bits_then _ 8 (omega arith) (λ p hp.
    bits_then _ 8 (omega arith)
      (λ t ht. bits_then _ 8 (omega arith) (λ m hm. Reads-return _ _ (omega arith))))
description-Reads false = Reads-return _ _ (omega arith)

abbrev AgreesAt : ℕ → Bool × Bool → Type 0
AgreesAt profile xy = xy.1 ≡ true → xy.0 ≡ true

subsampling-Reads : (profile depth : ℕ) → Reads (AgreesAt profile) (parse_subsampling profile depth)
unfolding parse_subsampling
subsampling-Reads profile depth =
    Reads-if _ (profile == 0) (Reads-return _ (true, true) (λ _. refl)) (
      Reads-if _ (profile == 1) (Reads-return _ (false, false) (λ e. cc)) (
        Reads-if _ (depth == 12)
          (flag_then _ (λ x.
            Reads-if _ x (flag_then _ (λ y. Reads-return _ (true, y) (λ _. refl)))
              (Reads-return _ (false, false) (λ e. cc))))
          (Reads-return _ (true, false) (λ _. refl))))

position-Reads :
    (x y : Bool) → Reads (λ v. (v < 4) × (0 < v → (x ≡ true) × (y ≡ true))) (parse_position x y)
unfolding parse_position
position-Reads true true =
    bits_then _ 2 (omega arith) (λ v h. Reads-return _ (u8 v) (omega arith, λ _. (refl, refl)))
position-Reads true false = Reads-return _ 0 (omega arith, λ p. absurd (omega arith))
position-Reads false y = Reads-return _ 0 (omega arith, λ p. absurd (omega arith))

IsSampling-Reads :
    (profile depth : ℕ) (mono present : Bool) (d : Description)
    → Reads (λ s. IsSampling mono s.x s.y s.position) (parse_sampling profile depth mono present d)
unfolding parse_sampling
IsSampling-Reads profile depth true present d =
    flag_then _ (λ range. Reads-return _ _ (ground arith))
IsSampling-Reads profile depth false present d =
    Reads-if _ (is_srgb present d) (Reads-return _ _ (ground arith)) (
      flag_then _ (λ range. Reads->>= _ _ (subsampling-Reads profile depth) (λ xy agrees.
        Reads->>= _ _ (position-Reads xy.0 xy.1)
          (λ position placed. Reads-return _ _ (ground arith)))))

-- Whatever the bits are, a colour configuration that is returned has a bit depth of 8, 10 or 12,
-- of 12 only at profile 2; it is not monochrome at profile 1; its chroma position has two bits
-- and is given only at 4:2:0; and reading it does not panic.
pub parse_color_config-Reads :
    (profile : ℕ) → Reads (IsColorConfig profile) (parse_color_config profile)
unfolding parse_color_config
parse_color_config-Reads profile = flag_then _ (λ high.
    Reads->>= _ _ (IsDepth-Reads profile high) (λ depth is_depth.
      Reads->>= _ _ (mono-Reads profile) (λ mono not_mono. flag_then _ (λ present.
        Reads->>= _ _ (description-Reads present) (λ d byte.
          Reads->>= _ _ (IsSampling-Reads profile depth.1 mono present d) (λ s is_sampling.
            Reads-return _ _ (record {
              depth = is_depth;
              sampling = is_sampling;
              not_mono = not_mono;
              primaries_byte = byte;
            })))))))
