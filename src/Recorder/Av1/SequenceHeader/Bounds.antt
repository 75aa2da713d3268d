-- ===== src/Recorder/Av1/SequenceHeader/Bounds.antt =====
-- What `SequenceHeader::parse` may return, for any bytes.
use live.Prelude.{
  ℕ, zero, suc, ◌+◌, ◌^◌, ◌≤◌, ◌<◌, ◌≡◌, refl, sym, Bool, true, false, Bytes, List, [], ◌∷◌, ◌++◌,
  arith, ltb, ◌!=◌, All, All-append, length, length-append, two-pow_mono, u8, u32, Outcome, ok, err,
  panic, Returns, Bool-cases, inl, inr,
}
use live.Recorder.Av1.Error.{Error}
use live.Recorder.Reader
use live.Recorder.Reader.{BitReader, ◌>>=◌, ◌>>◌, return, fail}
use live.Recorder.Av1.BitReader.{read_bits}
use live.Recorder.Reader.Reads.{
  IsReader, Reads, Reads-return, Reads-fail, Reads-if, Reads->>=, Reads-then, Reads-weaken,
}
use live.Recorder.Av1.BitReader.Reads.{
  bits_then, flag_then, skip_then, read_flag-Reads, read_bits-Reads,
}
use live.Recorder.Av1.ColorConfig.Bounds.{IsColorConfig, parse_color_config-Reads}
use live.Recorder.Av1.SequenceHeader.{
  SequenceHeader, Points, obu_type, obu_type_sequence_header, parse_timing, parse_display_delay,
  parse_points, parse_levels, parse_frame_ids, parse_screen_content, parse_tools, parse_payload,
  forget_reader, parse,
}

abbrev Any : {A : Type 0} → A → Type 0
Any _ = Unit {0}

-- As many tiers as levels, at least `n` of them, and five bits to a level.
pub record IsPoints (n : ℕ) (levels : List ℕ) (tiers : List Bool) : Type 0 where
  pub paired : length levels ≡ length tiers
  pub enough : n ≤ length levels
  pub small : All (λ level. level < 32) levels

pub record IsHeader (info : SequenceHeader) : Type 0 where
  pub profile : info.seq_profile < 8
  pub points : IsPoints 1 info.seq_level_idx info.seq_tier
  pub width : info.max_frame_width_minus1 < 2 ^ 16
  pub height : info.max_frame_height_minus1 < 2 ^ 16
  pub color : IsColorConfig info.seq_profile info.color_config

timing-Reads : Reads Any parse_timing
unfolding parse_timing
timing-Reads = flag_then _ (λ present.
    Reads-if _ present
      (skip_then _ 32 (
        skip_then _ 32
          (flag_then _ (λ model. Reads-if _ model (Reads-fail _ _) (Reads-return _ tt tt)))))
      (Reads-return _ tt tt))

delay-Reads : (delay : Bool) → Reads Any (parse_display_delay delay)
unfolding parse_display_delay
delay-Reads delay =
    Reads-if _ delay
      (flag_then _ (λ present.
        Reads-if _ present (bits_then _ 4 (omega arith) (λ _ _. Reads-fail _ _))
          (Reads-return _ tt tt)))
      (Reads-return _ tt tt)

one_more : (n count : ℕ) → n + suc count ≡ n + 1 + count
one_more n count = omega arith

points-Reads :
    (count n : ℕ) (delay : Bool) (points : Points)
    → IsPoints n points.levels points.tiers
    → Reads (λ p. IsPoints (n + count) p.levels p.tiers) (parse_points count delay points)
unfolding parse_points
points-Reads zero n delay points h =
    Reads-return _ points (record { paired = h.paired; enough = omega arith; small = h.small })
points-Reads (suc count) n delay points h = skip_then _ 12 (
    bits_then _ 5 (omega arith) (λ level small.
      Reads->>= Any _
        (Reads-if _ (ltb 7 (u8 level)) (read_flag-Reads _ (λ _. tt)) (Reads-return _ false tt))
        (λ tier _. Reads-then _ (delay-Reads delay) (
          let points' = record points {
            levels = points.levels ++ (u8 level ∷ []);
            tiers = points.tiers ++ (tier ∷ []);
          } in
          let more : IsPoints (n + 1) points'.levels points'.tiers = record {
            paired = omega (
              arith,
              h,
              length-append points.levels (u8 level ∷ []),
              length-append points.tiers (tier ∷ []),
            );
            enough = omega (arith, h, length-append points.levels (u8 level ∷ []));
            small = All-append (λ x. x < 32) points.levels (u8 level ∷ []) h.small (omega arith);
          } in
          rw (sym (one_more n count)) at (points-Reads count (n + 1) delay points' more)))))

levels-Reads : (reduced : Bool) → Reads (λ p. IsPoints 1 p.levels p.tiers) (parse_levels reduced)
unfolding parse_levels
levels-Reads true = bits_then _ 5 (omega arith) (λ level small.
    Reads-return _ _ (record { paired = refl; enough = omega arith; small = omega arith }))
levels-Reads false = Reads-then _ timing-Reads (
    flag_then _ (λ delay. bits_then _ 5 (omega arith) (λ count small.
      Reads-weaken _ _
        (λ points h. record { paired = h.paired; enough = omega arith; small = h.small })
        (points-Reads (u8 count + 1) 0 delay _ none_yet))))
  where
    none_yet : IsPoints 0 [] []
    none_yet = record { paired = refl; enough = omega arith; small = tt }

frame_ids-Reads : (reduced : Bool) → Reads Any (parse_frame_ids reduced)
unfolding parse_frame_ids
frame_ids-Reads reduced =
    Reads->>= Any _ (Reads-if _ reduced (Reads-return _ false tt) (read_flag-Reads _ (λ _. tt)))
      (λ present _.
        Reads-if _ present
          (bits_then _ 4 (omega arith)
            (λ _ _. bits_then _ 3 (omega arith) (λ _ _. Reads-return _ tt tt)))
          (Reads-return _ tt tt))

screen_content-Reads : Reads Any parse_screen_content
unfolding parse_screen_content
screen_content-Reads = flag_then _ (λ choose.
    Reads->>= (λ v. v < 2 ^ 2) _ (Reads-if _ choose (Reads-return _ 2 (omega arith)) one_bit)
      (λ force _.
        Reads-if _ (ltb 0 (u8 force))
          (flag_then _ (λ integer.
            Reads-if _ integer (Reads-return _ tt tt)
              (bits_then _ 1 (omega arith) (λ _ _. Reads-return _ tt tt))))
          (Reads-return _ tt tt)))
  where
    one_bit : Reads (λ v. v < 2 ^ 2) (read_bits 1)
    one_bit = Reads-weaken _ _ (λ v h. omega arith) (read_bits-Reads 1 (omega arith))

tools-Reads : (reduced : Bool) → Reads Any (parse_tools reduced)
unfolding parse_tools
tools-Reads reduced = Reads-if _ reduced (Reads-return _ tt tt) (
    flag_then _ (λ _. flag_then _ (λ _. flag_then _ (λ _. flag_then _ (λ _. flag_then _ (λ order.
      Reads->>= Any _
        (Reads-if _ order (flag_then _ (λ _. read_flag-Reads _ (λ _. tt)))
          (Reads-return _ false tt))
        (λ _ _. Reads-then _ screen_content-Reads (
          Reads-if _ order (bits_then _ 3 (omega arith) (λ _ _. Reads-return _ tt tt))
            (Reads-return _ tt tt)))))))))

-- A dimension has as many bits as the four-bit field before it says, plus one.
dimension_bound : (bits v : ℕ) → bits < 2 ^ 4 → v < 2 ^ (bits + 1) → u32 v < 2 ^ 16
dimension_bound bits v h k = omega (arith, two-pow_mono {i = bits + 1} {j = 16} (omega arith))

payload-Reads : Reads IsHeader parse_payload
unfolding parse_payload
payload-Reads = bits_then _ 3 (omega arith) (λ profile small. flag_then _ (λ _.
    flag_then _ (λ reduced. Reads->>= _ _ (levels-Reads reduced) (λ points is_points.
      bits_then _ 4 (omega arith) (λ wb wb_small. bits_then _ 4 (omega arith) (λ hb hb_small.
        bits_then _ (wb + 1) (omega arith) (λ w w_small.
          bits_then _ (hb + 1) (omega arith) (λ h h_small. Reads-then _ (frame_ids-Reads reduced) (
            flag_then _ (λ _. flag_then _ (λ _. flag_then _ (λ _.
              Reads-then _ (tools-Reads reduced) (
                flag_then _ (λ _. flag_then _ (λ _. flag_then _ (λ _.
                  Reads->>= _ _ (parse_color_config-Reads (u8 profile)) (λ c is_color.
                    flag_then _ (λ _. Reads-return _ _ (record {
                      profile = omega arith;
                      points = is_points;
                      width = dimension_bound wb w wb_small w_small;
                      height = dimension_bound hb h hb_small h_small;
                      color = is_color;
                    })))))))))))))))))))

forget-Returns :
    (r : Outcome Error (SequenceHeader × BitReader))
    → Returns (λ (p : SequenceHeader × BitReader). IsHeader p.0 × IsReader p.1) r
    → Returns IsHeader (forget_reader r)
unfolding forget_reader
forget-Returns (ok (info, br)) h = h.0
forget-Returns (err e) h = tt
forget-Returns panic h = h

-- `SequenceHeader::parse` panics on no bytes. A header that it returns has a profile of three
-- bits, one tier for each of its levels, at least one level, levels of five bits, dimensions of
-- at most 2 ^ 16, and a colour configuration that fits the profile.
pub parse-IsHeader : (obu : Bytes) → Returns IsHeader (parse obu)
unfolding parse
parse-IsHeader [] = tt
parse-IsHeader (header ∷ payload) =
    elim (Bool-cases (obu_type header != obu_type_sequence_header)) [
      | inl other ↦ rw other tt
      | inr same ↦ rw same (
          forget-Returns (parse_payload (Reader.new payload))
            (payload-Reads.run (Reader.new payload) new_reader))
    ]
  where
    new_reader : IsReader (Reader.new payload)
    new_reader = unfold Reader.new in record { all_bits = refl; inside = omega arith }
