-- ===== src/Recorder/Av1/Obu/Parsed.antt =====
-- What `parse_temporal_unit` answers, on any bytes, and what marshalling that gives.
use mathlib.Core.WellFounded.{Acc}
use live.Prelude.{
  ℕ, ◌+◌, ◌^◌, ◌<◌, ◌≡◌, refl, Bool, true, Bytes, List, [], ◌∷◌, ◌++◌, arith, ◌==◌, ◌||◌, ◌&&◌, not,
  All, IsBytes, length, take, drop, length-take, All-drop, All-append, Shorter, shorter_wf,
  drop-Shorter, bit_and, every_below, every_below→holds, ok, Returns, Returns->>=, ltb, Bool-cases,
  inl, inr,
}
use live.Recorder.Av1.Leb128.{read_leb128}
use live.Recorder.Av1.Leb128.Bounds.{IsSize, read_leb128-IsSize}
use live.Recorder.Av1.Obu.{pack_temporal_unit, marshal_bitstream, parse_loop, parse_temporal_unit}
use live.Recorder.Av1.Obu.RoundTrip.{IsObu, parse-pack, marshal-eq-pack}

abbrev cleared_test : ℕ → Bool
cleared_test h =
    not (bit_and h 0x80 == 0) || (ltb (bit_and h 0xfd) 128 && (bit_and (bit_and h 0xfd) 2 == 0))

cleared_table : every_below cleared_test 256 ≡ true
unfolding every_below
cleared_table = refl

-- A header byte with no forbidden bit and its size bit cleared.
cleared_bits :
    (h : ℕ)
    → h < 256
    → (bit_and h 0x80 == 0) ≡ true
    → (bit_and h 0xfd < 128) × (bit_and (bit_and h 0xfd) 2 ≡ 0)
cleared_bits h byte clear = ground (arith, every_below→holds cleared_test 256 cleared_table h byte)

cleared-IsObu :
    (header payload_len : ℕ) (bytes : Bytes)
    → header < 256
    → (bit_and header 0x80 == 0) ≡ true
    → payload_len < 2 ^ 35
    → IsObu (bit_and header 0xfd ∷ take payload_len bytes)
cleared-IsObu header payload_len bytes byte clear fits =
    let (small, no_size) = cleared_bits header byte clear in
    (small, no_size, omega (arith, length-take payload_len bytes))

parse_loop-IsObu :
    (result : List Bytes) (cursor : Bytes) (w : Acc Shorter cursor)
    → IsBytes cursor
    → All IsObu result
    → Returns (All IsObu) (parse_loop result cursor w)
unfolding parse_loop
parse_loop-IsObu result [] w b h = h
parse_loop-IsObu result (header ∷ tail) (Acc.intro _ smaller) (byte, b) h =
    elim (Bool-cases (bit_and header 0x80 == 0)) [
      | inr forbidden ↦ rw forbidden tt
      | inl clear ↦ rw clear (elim (Bool-cases (bit_and header 0x02 == 0)) [
        | inl missing ↦ rw missing tt
        | inr sized ↦ rw sized (
            Returns->>= (IsSize (length tail)) (All IsObu) (read_leb128 tail) _
              (read_leb128-IsSize tail)
              (λ p size. ground (
                arith,
                parse_loop-IsObu (result ++ ((bit_and header 0xfd ∷ take p.0 (drop p.1 tail)) ∷ []))
                    (drop (p.1 + p.0) tail) (smaller _ (drop-Shorter (p.1 + p.0) header tail))
                    (All-drop (λ x. x < 256) (p.1 + p.0) tail b)
                    (All-append IsObu result _ h
                      (cleared-IsObu header p.0 (drop p.1 tail) byte clear size.0, tt)),
              )))
      ])
    ]

-- Parsing panics on no bytes, and every OBU that it gives is one that both formats can carry.
pub parse-IsObu : (bytes : Bytes) → IsBytes bytes → Returns (All IsObu) (parse_temporal_unit bytes)
unfolding parse_temporal_unit
parse-IsObu bytes b = parse_loop-IsObu [] bytes (shorter_wf.apply bytes) b tt

-- What the adapter writes for a temporal unit that parses: marshalling the OBUs does not panic,
-- and the bytes that it gives parse to the same OBUs.
pub parse-marshal-parse :
    (bytes : Bytes) (obus : List Bytes)
    → IsBytes bytes
    → parse_temporal_unit bytes ≡ ok obus
    → (out : Bytes) × (marshal_bitstream obus ≡ ok out) × (parse_temporal_unit out ≡ ok obus)
parse-marshal-parse bytes obus b e =
    let h = rw e at (parse-IsObu bytes b) in
    (pack_temporal_unit obus, marshal-eq-pack obus h, parse-pack obus h)
