-- ===== src/Recorder/Av1/Obu/RoundTrip.antt =====
-- Marshalling and parsing a temporal unit.
use mathlib.Core.WellFounded.{Acc}
use live.Prelude.{
  ℕ, ◌+◌, ◌^◌, ◌≤◌, ◌<◌, ◌≡◌, refl, ap, Bool, true, false, Bytes, List, [], ◌∷◌, ◌++◌, append-nil,
  append_assoc, arith, ◌==◌, ◌||◌, not, if◌then◌else◌, All, length, take, drop, length-append,
  take-append, drop-append, Shorter, shorter_wf, drop-Shorter, bit_and, bit_or, every_below,
  every_below→holds, ok,
}
use live.Recorder.Av1.Leb128.{read_leb128, leb128_size, write_leb128}
use live.Recorder.Av1.Leb128.RoundTrip.{read_leb128-write_leb128, length-write_leb128}
use live.Recorder.Av1.Obu.{
  with_size, pack_temporal_unit, marshal_loop, marshal_bitstream, parse_loop, parse_temporal_unit,
}

-- An OBU that both formats can carry: a header with neither the forbidden bit nor the size bit,
-- and a payload whose size fits five LEB128 bytes.
abbrev pub IsObu : Bytes → Type 0
IsObu [] = ⊥
IsObu (header ∷ payload) = (header < 128) × (bit_and header 2 ≡ 0) × (length payload < 2 ^ 35)

abbrev header_test : ℕ → Bool
header_test h =
    not (bit_and h 2 == 0)
    || (if bit_and (bit_or h 2) 0x80 == 0
        then (if bit_and (bit_or h 2) 2 == 0 then false else bit_and (bit_or h 2) 0xfd == h)
        else false)

header_table : every_below header_test 128 ≡ true
unfolding every_below
header_table = refl

-- Setting the size bit of such a header, and clearing it again.
header_bits :
    (h : ℕ)
    → h < 128
    → bit_and h 2 ≡ 0
    → (bit_and (bit_or h 2) 0x80 ≡ 0)
      × ((bit_and (bit_or h 2) 2 == 0) ≡ false)
      × (bit_and (bit_or h 2) 0xfd ≡ h)
header_bits h small clear = ground (arith, every_below→holds header_test 128 header_table h small)

module _ {ℓ} {A : Type ℓ} where
  drop-append_at : (n : ℕ) (xs ys : List A) → length xs ≡ n → drop n (xs ++ ys) ≡ ys
  drop-append_at n xs ys e = rw (← e) (drop-append xs ys)

  take-append_at : (n : ℕ) (xs ys : List A) → length xs ≡ n → take n (xs ++ ys) ≡ xs
  take-append_at n xs ys e = rw (← e) (take-append xs ys)

tail_of : Bytes → Bytes
tail_of [] = []
tail_of (x ∷ xs) = xs

-- The bytes behind the header, as `parse_temporal_unit` cuts them.
module _ (payload rest tail : Bytes) (fits : length payload < 2 ^ 35)
    (cut : tail ≡ (write_leb128 [] (length payload) ++ payload) ++ rest) where
  size_read : read_leb128 tail ≡ ok (length payload, leb128_size (length payload))
  size_read =
      rw (cut, append_assoc) (read_leb128-write_leb128 (length payload) (payload ++ rest) fits)

  rest_read : drop (leb128_size (length payload) + length payload) tail ≡ rest
  rest_read = rw cut (
      drop-append_at _ (write_leb128 [] (length payload) ++ payload) rest
        (rw (length-append, length-write_leb128 (length payload) (omega arith))))

  payload_read : take (length payload) (drop (leb128_size (length payload)) tail) ≡ payload
  payload_read =
      rw (cut, append_assoc)
        (rw
          (drop-append_at _ _ (payload ++ rest)
            (length-write_leb128 (length payload) (omega arith)))
          (take-append payload rest))

  enough_read : leb128_size (length payload) + length payload ≤ length tail
  enough_read = omega (
    arith,
    ap length cut,
    length-append (write_leb128 [] (length payload) ++ payload) rest,
    length-append (write_leb128 [] (length payload)) payload,
    length-write_leb128 (length payload) (omega arith),
  )

parse_loop-pack :
    (obus result : List Bytes) (cursor : Bytes) (w : Acc Shorter cursor)
    → cursor ≡ pack_temporal_unit obus
    → All IsObu obus
    → parse_loop result cursor w ≡ ok (result ++ obus)
unfolding parse_loop pack_temporal_unit
parse_loop-pack [] result [] w e h = rw append-nil
parse_loop-pack [] result (c ∷ t) w e h = cc
parse_loop-pack ([] ∷ obus) result cursor w e h = absurd h.0
parse_loop-pack ((header ∷ payload) ∷ obus) result [] w e h = cc
parse_loop-pack ((header ∷ payload) ∷ obus) result (c ∷ t) (Acc.intro _ smaller) e (ok_obu, h) =
    let rest = pack_temporal_unit obus in
    let cut : t ≡ (write_leb128 [] (length payload) ++ payload) ++ rest =
      unfold tail_of in ap tail_of e in
    ground (
      arith,
      header_bits header ok_obu.0 ok_obu.1,
      size_read payload rest t ok_obu.2 cut,
      payload_read payload rest t ok_obu.2 cut,
      enough_read payload rest t ok_obu.2 cut,
      append_assoc result ((header ∷ payload) ∷ []) obus,
      parse_loop-pack obus (result ++ ((header ∷ payload) ∷ []))
          (drop (leb128_size (length payload) + length payload) t)
          (smaller _ (drop-Shorter (leb128_size (length payload) + length payload) c t))
          (rest_read payload rest t ok_obu.2 cut) h,
    )

-- Parsing what `pack_temporal_unit` made of OBUs that both formats can carry gives those OBUs back.
pub parse-pack :
    (obus : List Bytes) → All IsObu obus → parse_temporal_unit (pack_temporal_unit obus) ≡ ok obus
unfolding parse_temporal_unit
parse-pack obus h = parse_loop-pack obus [] (pack_temporal_unit obus) (shorter_wf.apply _) refl h

marshal_loop-pack :
    (obus : List Bytes) (buf : Bytes)
    → All IsObu obus
    → marshal_loop buf obus ≡ ok (buf ++ pack_temporal_unit obus)
unfolding marshal_loop pack_temporal_unit
marshal_loop-pack [] buf h = rw append-nil
marshal_loop-pack ([] ∷ obus) buf h = absurd h.0
marshal_loop-pack ((header ∷ payload) ∷ obus) buf (ok_obu, h) = ground (
  arith,
  marshal_loop-pack obus (buf ++ with_size header payload) h,
  append_assoc buf (with_size header payload) (pack_temporal_unit obus),
)

-- On such OBUs the marshaller of the adapter and the packer of the RTP parser write the same
-- bytes, and the marshaller does not panic.
pub marshal-eq-pack :
    (obus : List Bytes) → All IsObu obus → marshal_bitstream obus ≡ ok (pack_temporal_unit obus)
unfolding marshal_bitstream
marshal-eq-pack obus h = marshal_loop-pack obus [] h
