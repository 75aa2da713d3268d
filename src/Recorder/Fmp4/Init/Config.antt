-- ===== src/Recorder/Fmp4/Init/Config.antt =====
-- How a player reads the configuration box of a sample entry, and what it is to find for a writer.
use live.Prelude.{
  ℕ, zero, suc, ◌+◌, ◌*◌, ◌%◌, ◌^◌, ◌<◌, ◌≡◌, refl, ap, ◌∙◌, false, ◌||◌, Bytes, List, [], ◌∷◌,
  ◌++◌, arith, if◌then◌else◌, ltb, Option, none, some, length, take, drop, codes, bytes_eq, All,
  take-append, drop-append, length-append, to_ascii_lowercase, starts_with, u8, u16,
}
use live.Recorder.Fmp4.Boxes.{read_u32, be_u16}
use live.Recorder.Fmp4.Tables.{avcc_record, pps_entries}
use live.Recorder.Fmp4.Writer.{Fmp4Writer, is_video}

-- The parameter sets of H.264 with the profile, the compatibility flags and the level; the record of
-- the decoder for H.265 and AV1, as it is; channels and sample rate of Opus. The content of a `vpcC`
-- box is not read.
pub data Config : Type 0 where
  avc : (profile_level : Bytes) → (sps_list pps_list : List Bytes) → Config
  decoder_record : Bytes → Config
  vpx : Config
  opus : (channels sample_rate : ℕ) → Config
  unreadable : Config

-- Some sets, each behind its length in two bytes, and what follows them.
with_set : Bytes → Option (List Bytes × Bytes) → Option (List Bytes × Bytes)
with_set set none = none
with_set set (some (sets, rest)) = some (set ∷ sets, rest)

read_sets : ℕ → Bytes → Option (List Bytes × Bytes)
read_sets zero bytes = some ([], bytes)
read_sets (suc n) (high ∷ low ∷ bytes) =
    let size = high * 256 + low in
    let rest = read_sets n (drop size bytes) in
    if ltb (length bytes) size then none else with_set (take size bytes) rest
read_sets (suc n) _ = none

avc_of : (profile_level : Bytes) → (sps_list : List Bytes) → Option (List Bytes × Bytes) → Config
avc_of profile_level sps_list (some (pps_list, [])) = avc profile_level sps_list pps_list
avc_of profile_level sps_list _ = unreadable

-- The number of picture parameter sets stands behind the sequence parameter sets.
read_pps : (profile_level : Bytes) → Option (List Bytes × Bytes) → Config
read_pps profile_level (some (sps_list, count ∷ bytes)) =
    avc_of profile_level sps_list (read_sets count bytes)
read_pps profile_level _ = unreadable

unfoldable pub read_avcc : Bytes → Config
unfolding with_set read_sets avc_of read_pps
read_avcc (_ ∷ profile ∷ compatibility ∷ level ∷ _ ∷ count ∷ bytes) =
    read_pps (profile ∷ compatibility ∷ level ∷ []) (read_sets (count % 32) bytes)
read_avcc _ = unreadable

read_dops : Bytes → Config
read_dops (version ∷ channels ∷ bytes) = opus channels (read_u32 (drop 2 bytes))
read_dops _ = unreadable

unfoldable pub read_config : (config_type content : Bytes) → Config
unfolding read_avcc read_dops
read_config config_type content =
    if bytes_eq config_type (codes "avcC")
    then read_avcc content
    else if bytes_eq config_type (codes "hvcC") || bytes_eq config_type (codes "av1C")
    then decoder_record content
    else if bytes_eq config_type (codes "vpcC")
    then vpx
    else if bytes_eq config_type (codes "dOps")
    then read_dops content
    else unreadable

-- The configuration of a list of blobs: the sequence parameter set and the picture parameter sets,
-- or the one record.
abbrev pub sets_of : List Bytes → Config
sets_of [] = unreadable
sets_of (sps ∷ pps_list) = avc (take 3 (drop 1 sps)) (sps ∷ []) pps_list

abbrev pub one_record : List Bytes → Config
one_record [] = decoder_record []
one_record (blob ∷ _) = decoder_record blob

-- What stands in the sample entry, by the codec string.
abbrev pub video_entry_of : List Bytes → (codec : Bytes) → Bytes × Bytes × Config
video_entry_of blobs codec =
    if starts_with (codes "hev1") codec || starts_with (codes "hvc1") codec
    then (codes "hev1", codes "hvcC", one_record blobs)
    else if starts_with (codes "av01") codec
    then (codes "av01", codes "av1C", one_record blobs)
    else if starts_with (codes "vp09") codec
    then (codes "vp09", codes "vpcC", vpx)
    else if starts_with (codes "vp08") codec
    then (codes "vp08", codes "vpcC", vpx)
    else (codes "avc1", codes "avcC", sets_of blobs)

abbrev pub entry_of : Fmp4Writer → Bytes × Bytes × Config
entry_of w =
    if is_video w.kind
    then video_entry_of w.codec_config (to_ascii_lowercase w.codec_string)
    else (codes "Opus", codes "dOps", opus w.channels w.sample_rate)

-- The parameter sets fit the fields of `avcC`: fewer than 256 picture parameter sets, of less than
-- 2^16 bytes as the sequence parameter set, which has its profile and level.
abbrev pub SetsFit : List Bytes → Type 0
SetsFit [] = Unit
SetsFit (sps ∷ pps_list) =
    (3 < length sps)
    × (length pps_list < 256)
    × All (λ (set : Bytes). length set < 2 ^ 16) (sps ∷ pps_list)

read_sets-one :
    (n : ℕ) (set rest : Bytes)
    → length set < 2 ^ 16
    → read_sets (suc n) (be_u16 (u16 (length set)) ++ (set ++ rest))
      ≡ with_set set (read_sets n rest)
unfolding read_sets
read_sets-one n set rest h = go _ _ (omega arith)
  where
    go :
        (high low : ℕ)
        → high * 256 + low ≡ length set
        → read_sets (suc n) (high ∷ low ∷ (set ++ rest)) ≡ with_set set (read_sets n rest)
    go high low e =
        let within : ltb (length (set ++ rest)) (length set) ≡ false =
          ground (arith, length-append set rest) in
        rw (e, within, take-append set rest, drop-append set rest) refl

read_sets-entries :
    (sets : List Bytes)
    → All (λ (set : Bytes). length set < 2 ^ 16) sets
    → read_sets (length sets) (pps_entries sets) ≡ some (sets, [])
unfolding read_sets pps_entries with_set
read_sets-entries [] h = refl
read_sets-entries (set ∷ sets) h =
    read_sets-one (length sets) set (pps_entries sets) h.0 ∙ rw (read_sets-entries sets h.1) refl

pub read_avcc-avcc_record :
    (sps : Bytes) (pps_list : List Bytes)
    → SetsFit (sps ∷ pps_list)
    → read_avcc (avcc_record sps pps_list) ≡ sets_of (sps ∷ pps_list)
unfolding read_avcc read_sets avcc_record read_pps avc_of with_set
read_avcc-avcc_record (a ∷ b ∷ c ∷ d ∷ sps) pps_list (long, few, (fits, each)) =
    let set = a ∷ b ∷ c ∷ d ∷ sps in
    let count : u8 (length pps_list) ≡ length pps_list = omega (arith, few) in
    ap (read_pps (b ∷ c ∷ d ∷ []))
      (read_sets-one 0 set (u8 (length pps_list) ∷ pps_entries pps_list) fits)
    ∙ ap (λ (n : ℕ). avc_of (b ∷ c ∷ d ∷ []) (set ∷ []) (read_sets n (pps_entries pps_list))) count
    ∙ ap (avc_of (b ∷ c ∷ d ∷ []) (set ∷ [])) (read_sets-entries pps_list each)
read_avcc-avcc_record (a ∷ b ∷ c ∷ []) pps_list (long, few, (fits, each)) = absurd (omega arith)
read_avcc-avcc_record (a ∷ b ∷ []) pps_list (long, few, (fits, each)) = absurd (omega arith)
read_avcc-avcc_record (a ∷ []) pps_list (long, few, (fits, each)) = absurd (omega arith)
read_avcc-avcc_record [] pps_list (long, few, (fits, each)) = absurd (omega arith)
