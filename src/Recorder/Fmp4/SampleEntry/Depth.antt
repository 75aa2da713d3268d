-- ===== src/Recorder/Fmp4/SampleEntry/Depth.antt =====
-- The bit depth that a `vpcC` box says.
use live.Prelude.{
  ℕ, ◌+◌, ◌*◌, ◌/◌, ◌%◌, ◌<◌, ◌≤◌, ◌≡◌, ◌≢◌, ap, refl, Bool, true, Bytes, arith, Option, none, some,
  get_elem?, bit_and, bit_or, ◌==◌, every_below, split_on, to_ascii_lowercase, every_below→holds,
}
use live.Recorder.Fmp4.Boxes.{make_box}
use live.Recorder.Fmp4.SampleEntry.{
  parse_codec, pack, vpcc_record, build_vpcc, clamp, depth_of, chroma_of, range_of, component,
}
use live.Recorder.Fmp4.Writer.{Fmp4Writer}

-- A reader of the box finds the depth in the upper four bits of the byte at 14 (the header of the
-- box has eight bytes).
pub read_depth : Bytes → Option ℕ
read_depth bytes = elim (get_elem? bytes 14) [ none ↦ none | some packed ↦ some (packed / 16) ]

-- The byte of a depth, a chroma sampling and a range.
abbrev packed : ℕ → ℕ → ℕ → ℕ
packed depth chroma range =
    bit_or (bit_or (bit_and depth 0x0F * 8) (bit_and (bit_and chroma 0x07) 0x07 * 2))
      (bit_and range 0x01)

packed_table : every_below (λ x. packed (x / 16) (x / 2 % 8) (x % 2) / 16 == x / 16 / 2) 256 ≡ true
unfolding every_below
packed_table = refl

packed-half :
    (depth chroma range : ℕ)
    → depth < 16
    → chroma < 8
    → range < 2
    → packed depth chroma range / 16 ≡ depth / 2
packed-half depth chroma range d c r = ground (
  arith,
  every_below→holds (λ x. packed (x / 16) (x / 2 % 8) (x % 2) / 16 == x / 16 / 2) 256 packed_table
      (depth * 16 + chroma * 2 + range) (omega arith),
  depth_back,
  chroma_back,
  range_back,
)
  where
    depth_back : (depth * 16 + chroma * 2 + range) / 16 ≡ depth
    depth_back = omega arith

    chroma_back : (depth * 16 + chroma * 2 + range) / 2 % 8 ≡ chroma
    chroma_back = omega arith

    range_back : (depth * 16 + chroma * 2 + range) % 2 ≡ range
    range_back = omega arith

depth_of_bounds : (o : Option ℕ) → (1 ≤ depth_of o) × (depth_of o < 16)
unfolding depth_of clamp
depth_of_bounds none = omega arith
depth_of_bounds (some v) = ground arith

chroma_of-lt : (o : Option ℕ) → chroma_of o < 8
unfolding chroma_of
chroma_of-lt none = omega arith
chroma_of-lt (some v) = ground arith

range_of-lt : (o : Option ℕ) → range_of o < 2
unfolding range_of
range_of-lt none = omega arith
range_of-lt (some v) = ground arith

-- Whatever the codec string is, a reader of the `vpcC` box finds half of the bit depth that the writer
-- reads from the codec string (at least 1 and at most 15), rounded down, and so never that depth.
pub build_vpcc-half_depth :
    (w : Fmp4Writer) (is_vp9 : Bool)
    → let depth = (parse_codec is_vp9 w.codec_string).bit_depth in
      (read_depth (build_vpcc w is_vp9) ≡ some (depth / 2)) × (depth / 2 ≢ depth)
unfolding read_depth build_vpcc vpcc_record make_box parse_codec pack
build_vpcc-half_depth w is_vp9 =
    let parts = split_on b'.' (to_ascii_lowercase w.codec_string) in
    let bounds = depth_of_bounds (component parts 3) in
    (
      ap some (
          packed-half (depth_of (component parts 3)) (chroma_of (component parts 4))
            (range_of (component parts 8)) bounds.1 (chroma_of-lt (component parts 4))
            (range_of-lt (component parts 8))),
      λ e. omega (arith, bounds.0),
    )
