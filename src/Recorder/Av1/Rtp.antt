-- ===== src/Recorder/Av1/Rtp.antt =====
-- av1.rs, `Av1RtpParser`: OBUs out of RTP payloads, fragments joined, and the OBUs of a temporal
-- unit collected up to the packet with the marker.
pub mod Invariant
pub mod Reassembly
pub mod Loss
mod Tests
use mathlib.Core.WellFounded.{Acc}
use live.Prelude.{
  ℕ, zero, suc, ◌+◌, ◌-◌, ◌<◌, ◌≡◌, refl, Bool, true, false, ◌&&◌, ◌||◌, not, Bytes, List, [], ◌∷◌,
  ◌++◌, ltb, ◌==◌, ◌!=◌, if◌then◌else◌, dite, dec_lt, Option, none, some, length, is_empty, take,
  drop, flatten, total_length, Shorter, shorter_wf, drop_drop-Shorter, bit_and, ◌>>>◌, u8, u16, ok,
  err, panic, ◌>>=◌, ◌>>◌,
}
use live.Recorder.Codec.{Packet}
use live.Recorder.Av1.Error.{
  Error, Result, invalid_payload_size, invalid_obu_size, invalid_w_field, missing_fragments,
  unit_too_large, too_many_obus,
}
use live.Recorder.Av1.Leb128.{read_leb128}
use live.Recorder.Av1.Obu.{pack_temporal_unit}

abbrev pub max_temporal_unit_size : ℕ
max_temporal_unit_size = 3145728

abbrev pub max_obus_per_temporal_unit : ℕ
max_obus_per_temporal_unit = 10

pub record Av1RtpParser : Type 0 where
  pub first_packet_received : Bool
  pub fragments : List Bytes
  pub fragments_size : ℕ
  pub fragment_next_seq : Option ℕ
  pub temporal_unit : List Bytes
  pub temporal_unit_size : ℕ

unfoldable pub new : Av1RtpParser
new = record {
  first_packet_received = false;
  fragments = [];
  fragments_size = 0;
  fragment_next_seq = none;
  temporal_unit = [];
  temporal_unit_size = 0;
}

abbrev pub reset_fragments : Av1RtpParser → Av1RtpParser
reset_fragments p = record p { fragments = []; fragments_size = 0; fragment_next_seq = none }

abbrev pub reset_temporal_unit : Av1RtpParser → Av1RtpParser
reset_temporal_unit p = record p { temporal_unit = []; temporal_unit_size = 0 }

-- A method returns the parser as it leaves it, and its result.
abbrev pub Answer : Type 0 → Type 0
Answer A = Av1RtpParser × Result (Option A)

-- The loop that cuts the payload into OBUs; `w` is the W field of the aggregation header.
split_loop : ℕ → List Bytes → (payload : Bytes) → Acc Shorter payload → Result (List Bytes)
split_loop w obus [] _ = ok obus
split_loop w obus (b ∷ bs) (Acc.intro _ smaller) =
    if w == 0 || ltb (u8 (length obus)) (w - 1)
    then (do
      (size, leb_len) ← read_leb128 (b ∷ bs)
      dite (dec_lt 0 size)
          (λ h.
            let next = λ (obu : Bytes).
              split_loop w (obus ++ (obu ∷ [])) (drop size (drop leb_len (b ∷ bs))) (
                smaller (drop size (drop leb_len (b ∷ bs)))
                  (drop_drop-Shorter leb_len size b bs h)) in
            if ltb (length (drop leb_len (b ∷ bs))) size
            then err invalid_obu_size
            else next (take size (drop leb_len (b ∷ bs))))
          (λ _. err invalid_obu_size))
    else ok (obus ++ ((b ∷ bs) ∷ []))

unfoldable pub split_obus : ℕ → Bytes → Result (List Bytes)
unfolding split_loop shorter_wf dec_lt
split_obus w payload = split_loop w [] payload (shorter_wf.apply payload)

-- `Vec::pop`: what is left, and the last element.
pub pop {ℓ} : {A : Type ℓ} → List A → Option (List A × A)
pop [] = none
pop (x ∷ xs) = elim (pop xs) [ none ↦ some ([], x) | some (front, last) ↦ some (x ∷ front, last) ]

-- The part behind `if z`: the last OBU is kept as a fragment if the Y flag says that it goes on.
keep_last : Av1RtpParser → Packet → Bool → List Bytes → Answer (List Bytes)
keep_last p pkt y obus =
    let next_seq = some (u16 (pkt.sequence_number + 1)) in
    if y
    then elim (pop obus) [
      | none ↦ (p, ok none)
      | some (front, last) ↦ (
        record p {
          fragments_size = length last;
          fragments = last ∷ [];
          fragment_next_seq = next_seq;
        },
        ok (if is_empty front then none else some front),
      )
    ]
    else (record p { fragment_next_seq = next_seq }, ok (some obus))

is_expected : Option ℕ → ℕ → Bool
is_expected none seq = true
is_expected (some expected) seq = seq == expected

-- The first OBU of the packet, added to the fragments that were kept.
add_fragment : Av1RtpParser → Packet → Bool → List Bytes → Answer (List Bytes)
add_fragment p pkt y [] = (p, panic)
add_fragment p pkt y (obu ∷ obus) =
    let size = p.fragments_size + length obu in
    let joined = record p {
      fragments_size = size;
      fragments = p.fragments ++ (obu ∷ []);
      fragment_next_seq = some (u16 (pkt.sequence_number + 1));
    } in
    if ltb max_temporal_unit_size size
    then (reset_fragments p, err (unit_too_large size))
    else if length (obu ∷ obus) == 1 && y
    then (joined, ok none)
    else keep_last (reset_fragments joined) pkt y (flatten joined.fragments ∷ obus)

-- The branch `if z`.
continue_obu : Av1RtpParser → Packet → Bool → List Bytes → Answer (List Bytes)
continue_obu p pkt y obus =
    let started = record p { first_packet_received = true } in
    if p.fragments_size == 0
    then (reset_fragments p, if p.first_packet_received then err missing_fragments else ok none)
    else if is_expected p.fragment_next_seq pkt.sequence_number
    then add_fragment started pkt y obus
    else (reset_fragments started, ok none)

-- An error of `read_leb128` leaves by `?`, before the fragments are reset.
after_split : Av1RtpParser → Error → Av1RtpParser
after_split p invalid_obu_size = reset_fragments p
after_split p _ = p

gather : Av1RtpParser → Packet → Bool → Bool → ℕ → Result (List Bytes) → Answer (List Bytes)
gather p pkt z y w (ok obus) =
    if w != 0 && length obus != w
    then (reset_fragments p, err invalid_w_field)
    else if z
    then continue_obu p pkt y obus
    else keep_last (record p { first_packet_received = true }) pkt y obus
gather p pkt z y w (err e) = (after_split p e, err e)
gather p pkt z y w panic = (p, panic)

flag : ℕ → ℕ → Bool
flag header mask = bit_and header mask != 0

decode_payload : Av1RtpParser → Packet → Bytes → Answer (List Bytes)
decode_payload p pkt (header ∷ b ∷ bs) =
    let w = bit_and (header >>> 4) 0x03 in
    gather p pkt (flag header 0x80) (flag header 0x40) w (split_obus w (b ∷ bs))
decode_payload p pkt _ = (reset_fragments p, err invalid_payload_size)

unfoldable pub decode_obus : Av1RtpParser → Packet → Answer (List Bytes)
unfolding pop keep_last is_expected add_fragment continue_obu after_split gather flag decode_payload
decode_obus p pkt = decode_payload p pkt pkt.payload

-- The OBUs of one packet, added to the temporal unit.
add_obus : Av1RtpParser → Packet → List Bytes → Answer Bytes
add_obus p pkt obus =
    let obu_count = length p.temporal_unit + length obus in
    let additional_size = total_length obus in
    let size = p.temporal_unit_size + additional_size in
    let extended = record p {
      temporal_unit = p.temporal_unit ++ obus;
      temporal_unit_size = size;
    } in
    if ltb max_obus_per_temporal_unit obu_count
    then (reset_temporal_unit p, err (too_many_obus obu_count))
    else if ltb max_temporal_unit_size size
    then (reset_temporal_unit p, err (unit_too_large size))
    else if not pkt.marker
    then (extended, ok none)
    else if is_empty extended.temporal_unit
    then (extended, ok none)
    else (reset_temporal_unit extended, ok (some (pack_temporal_unit extended.temporal_unit)))

after_decode : Packet → Answer (List Bytes) → Answer Bytes
after_decode pkt (p, ok (some obus)) = add_obus p pkt obus
after_decode pkt (p, ok none) = (p, ok none)
after_decode pkt (p, err e) = (p, err e)
after_decode pkt (p, panic) = (p, panic)

unfoldable pub push_packet : Av1RtpParser → Packet → Answer Bytes
unfolding add_obus after_decode
push_packet p pkt = after_decode pkt (decode_obus p pkt)
