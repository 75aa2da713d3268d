-- ===== src/Recorder/Av1/Rtp/Invariant.antt =====
-- The parser never panics, and its buffers stay within the limits of the source.
use mathlib.Core.WellFounded.{Acc}
use live.Prelude.{
  ℕ, ◌+◌, ◌-◌, ◌≤◌, ◌<◌, ◌≡◌, Bool, true, false, ◌&&◌, ◌||◌, Bytes, List, [], ◌∷◌, ◌++◌, arith, ltb,
  ◌==◌, ◌!=◌, if◌then◌else◌, dec_lt, Option, none, some, length, is_empty, take, drop, flatten,
  total_length, All, All-append, length-append, length-drop, length-take, length-flatten,
  total_length-append, Shorter, shorter_wf, drop_drop-Shorter, u8, u16, bit_and, ◌>>>◌, ok, err,
  panic, Returns, Returns->>=, dite_holds, if_holds,
}
use live.Recorder.Codec.{Packet}
use live.Recorder.Av1.Error.{Error, Result}
use live.Recorder.Av1.Leb128.{read_leb128}
use live.Recorder.Av1.Leb128.Bounds.{IsSize, read_leb128-IsSize}
use live.Recorder.Av1.Rtp.{
  Av1RtpParser, Answer, new, reset_fragments, max_temporal_unit_size, max_obus_per_temporal_unit,
  split_loop, split_obus, pop, keep_last, is_expected, add_fragment, continue_obu, after_split,
  gather, flag, decode_payload, decode_obus, add_obus, after_decode, push_packet,
}

-- The sizes that the parser keeps are those of its buffers, and the buffers are bounded.
pub record IsParser (p : Av1RtpParser) : Type 0 where
  pub fragments_total : p.fragments_size ≡ total_length p.fragments
  pub fragments_small : p.fragments_size ≤ max_temporal_unit_size
  pub unit_total : p.temporal_unit_size ≡ total_length p.temporal_unit
  pub unit_small : p.temporal_unit_size ≤ max_temporal_unit_size
  pub unit_few : length p.temporal_unit ≤ max_obus_per_temporal_unit

pub new-IsParser : IsParser new
unfolding new
new-IsParser = omega arith

-- A good parser, and a result that is no panic.
pub record IsAnswer {A : Type 0} (a : Answer A) : Type 0 where
  pub parser : IsParser a.0
  pub no_panic : Returns (λ _. Unit {0}) a.1

-- An OBU of a packet is not empty, and is no longer than the limit.
abbrev IsPiece : Bytes → Type 0
IsPiece obu = (0 < length obu) × (length obu ≤ max_temporal_unit_size)

abbrev ArePieces : List Bytes → Type 0
ArePieces obus = All IsPiece obus × (0 < length obus)

split_loop-ArePieces :
    (w : ℕ) (obus : List Bytes) (payload : Bytes) (acc : Acc Shorter payload)
    → All IsPiece obus
    → length payload ≤ max_temporal_unit_size
    → 0 < length obus + length payload
    → Returns ArePieces (split_loop w obus payload acc)
unfolding split_loop
split_loop-ArePieces w obus [] acc h small some_left = (h, omega arith)
split_loop-ArePieces w obus (b ∷ bs) (Acc.intro _ smaller) h small some_left =
    if_holds (Returns ArePieces) (w == 0 || ltb (u8 (length obus)) (w - 1))
      (λ _.
        Returns->>= (IsSize (length (b ∷ bs))) ArePieces (read_leb128 (b ∷ bs)) _
          (read_leb128-IsSize (b ∷ bs))
          (λ p size.
            let rest = drop p.1 (b ∷ bs) in
            let obu = take p.0 rest in
            dite_holds (Returns ArePieces) (dec_lt 0 p.0) _ _
              (λ pos.
                if_holds (Returns ArePieces) (ltb (length rest) p.0) (λ _. tt)
                  (λ fits.
                    let long : p.0 ≤ length rest = ground arith in
                    let piece : IsPiece obu =
                      omega (arith, length-take p.0 rest, length-drop p.1 (b ∷ bs)) in
                    split_loop-ArePieces w (obus ++ (obu ∷ [])) (drop p.0 rest)
                      (smaller (drop p.0 rest) (drop_drop-Shorter p.1 p.0 b bs pos))
                      (All-append IsPiece obus (obu ∷ []) h (piece, tt))
                      (omega (arith, length-drop p.0 rest, length-drop p.1 (b ∷ bs)))
                      (omega (arith, length-append obus (obu ∷ [])))))
              (λ _. tt)))
      (λ _. (
        All-append IsPiece obus ((b ∷ bs) ∷ []) h ((omega arith, small), tt),
        omega (arith, length-append obus ((b ∷ bs) ∷ [])),
      ))

split_obus-ArePieces :
    (w b : ℕ) (bs : Bytes)
    → length (b ∷ bs) ≤ max_temporal_unit_size
    → Returns ArePieces (split_obus w (b ∷ bs))
unfolding split_obus
split_obus-ArePieces w b bs small =
    split_loop-ArePieces w [] (b ∷ bs) (shorter_wf.apply (b ∷ bs)) tt small (omega arith)

-- The last element has what all have.
PopHolds : {A : Type 0} → (A → Type 0) → Option (List A × A) → Type 0
PopHolds P none = Unit
PopHolds P (some (front, last)) = P last

pop-holds : {A : Type 0} (P : A → Type 0) (xs : List A) → All P xs → PopHolds P (pop xs)
unfolding pop PopHolds
pop-holds P [] h = tt
pop-holds {A} P (x ∷ xs) h = go (pop xs) (pop-holds P xs h.1)
  where
    go :
        (o : Option (List A × A))
        → PopHolds P o
        → PopHolds P (elim o [ none ↦ some ([], x) | some (front, last) ↦ some (x ∷ front, last) ])
    go none k = h.0
    go (some (front, last)) k = k

keep_last-IsAnswer :
    (p : Av1RtpParser) (pkt : Packet) (y : Bool) (obus : List Bytes)
    → IsParser p
    → All IsPiece obus
    → IsAnswer (keep_last p pkt y obus)
unfolding keep_last
keep_last-IsAnswer p pkt false obus h small = record { parser = omega arith; no_panic = tt }
keep_last-IsAnswer p pkt true obus h small = go (pop obus) (pop-holds IsPiece obus small)
  where
    go :
        (o : Option (List Bytes × Bytes))
        → PopHolds IsPiece o
        → IsAnswer (elim o [
          | none ↦ (p, ok none)
          | some (front, last) ↦ (
            record p {
              fragments_size = length last;
              fragments = last ∷ [];
              fragment_next_seq = some (u16 (pkt.sequence_number + 1));
            },
            ok (if is_empty front then none else some front),
          )
        ])
    go none k = record { parser = h; no_panic = tt }
    go (some (front, last)) k = unfold PopHolds in ground arith

reset-IsParser : {p : Av1RtpParser} → IsParser p → IsParser (reset_fragments p)
reset-IsParser h = omega arith

add_fragment-IsAnswer :
    (p : Av1RtpParser) (pkt : Packet) (y : Bool) (obus : List Bytes)
    → IsParser p
    → ArePieces obus
    → IsAnswer (add_fragment p pkt y obus)
unfolding add_fragment
add_fragment-IsAnswer p pkt y [] h small = absurd (omega arith)
add_fragment-IsAnswer p pkt y (obu ∷ obus) h small =
    let all = p.fragments ++ (obu ∷ []) in
    let total : total_length all ≡ p.fragments_size + length obu =
      omega (arith, total_length-append p.fragments (obu ∷ [])) in
    if_holds IsAnswer (ltb max_temporal_unit_size (p.fragments_size + length obu))
      (λ _. record { parser = omega arith; no_panic = tt })
      (λ fits.
        let below : p.fragments_size + length obu ≤ max_temporal_unit_size = ground arith in
        if_holds IsAnswer (length (obu ∷ obus) == 1 && y)
          (λ _. record { parser = omega arith; no_panic = tt })
          (λ _.
            keep_last-IsAnswer _ pkt y (flatten all ∷ obus) (omega arith)
              (omega (arith, length-flatten all), small.0.1)))

continue_obu-IsAnswer :
    (p : Av1RtpParser) (pkt : Packet) (y : Bool) (obus : List Bytes)
    → IsParser p
    → ArePieces obus
    → IsAnswer (continue_obu p pkt y obus)
unfolding continue_obu
continue_obu-IsAnswer p pkt y obus h small =
    if_holds IsAnswer (p.fragments_size == 0)
      (λ _. record { parser = omega arith; no_panic = ground arith })
      (λ _.
        if_holds IsAnswer (is_expected p.fragment_next_seq pkt.sequence_number)
          (λ _. add_fragment-IsAnswer _ pkt y obus (omega arith) small)
          (λ _. record { parser = omega arith; no_panic = tt }))

after_split-IsParser : (p : Av1RtpParser) (e : Error) → IsParser p → IsParser (after_split p e)
unfolding after_split
after_split-IsParser p e h = ground arith

gather-IsAnswer :
    (p : Av1RtpParser) (pkt : Packet) (z y : Bool) (w : ℕ) (r : Result (List Bytes))
    → IsParser p
    → Returns ArePieces r
    → IsAnswer (gather p pkt z y w r)
unfolding gather
gather-IsAnswer p pkt z y w (ok obus) h small =
    if_holds IsAnswer (w != 0 && length obus != w)
      (λ _. record { parser = omega arith; no_panic = tt })
      (λ _.
        if_holds IsAnswer z (λ _. continue_obu-IsAnswer p pkt y obus h small)
          (λ _. keep_last-IsAnswer _ pkt y obus (omega arith) small.0))
gather-IsAnswer p pkt z y w (err e) h small = record {
  parser = after_split-IsParser p e h;
  no_panic = tt;
}
gather-IsAnswer p pkt z y w panic h small = absurd small

decode_payload-IsAnswer :
    (p : Av1RtpParser) (pkt : Packet) (payload : Bytes)
    → IsParser p
    → length payload ≤ max_temporal_unit_size
    → IsAnswer (decode_payload p pkt payload)
unfolding decode_payload
decode_payload-IsAnswer p pkt [] h small = record { parser = omega arith; no_panic = tt }
decode_payload-IsAnswer p pkt (header ∷ []) h small = record { parser = omega arith; no_panic = tt }
decode_payload-IsAnswer p pkt (header ∷ b ∷ bs) h small =
    gather-IsAnswer p pkt (flag header 0x80) (flag header 0x40) (bit_and (header >>> 4) 0x03) _ h
      (split_obus-ArePieces (bit_and (header >>> 4) 0x03) b bs (omega arith))

add_obus-IsAnswer :
    (p : Av1RtpParser) (pkt : Packet) (obus : List Bytes)
    → IsParser p
    → IsAnswer (add_obus p pkt obus)
unfolding add_obus
add_obus-IsAnswer p pkt obus h =
    ground (arith, total_length-append p.temporal_unit obus, length-append p.temporal_unit obus)

-- Whatever packet comes, of at most the size of a temporal unit, `push_packet` does not panic and
-- leaves a parser whose sizes are those of its buffers, with at most ten OBUs collected and
-- neither buffer above three megabytes.
pub push_packet-IsAnswer :
    (p : Av1RtpParser) (pkt : Packet)
    → IsParser p
    → length pkt.payload ≤ max_temporal_unit_size
    → IsAnswer (push_packet p pkt)
unfolding push_packet
push_packet-IsAnswer p pkt h small = go (decode_obus p pkt) decoded
  where
    decoded : IsAnswer (decode_obus p pkt)
    decoded = unfold decode_obus in decode_payload-IsAnswer p pkt pkt.payload h small

    go : (a : Answer (List Bytes)) → IsAnswer a → IsAnswer (after_decode pkt a)
    go (p', ok (some obus)) k = add_obus-IsAnswer p' pkt obus k.parser
    go (p', ok none) k = record { parser = k.parser; no_panic = tt }
    go (p', err e) k = record { parser = k.parser; no_panic = tt }
    go (p', panic) k = absurd k.no_panic
