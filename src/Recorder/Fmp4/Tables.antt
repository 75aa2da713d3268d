-- ===== src/Recorder/Fmp4/Tables.antt =====
-- fmp4.rs: the standalone box builders. A box's name is its type as bytes.
use live.Prelude.{
  ℕ, ◌+◌, Bytes, List, [], ◌∷◌, ◌++◌, none, some, length, codes, get_elem?, u8, u16, u32, ◌<<<◌,
}
use live.Recorder.AnnexB.{be_u32}
use live.Recorder.Fmp4.Boxes.{be_u16, zeroes, make_box}

-- The matrix that leaves a picture as it is.
unity_matrix : Bytes
unity_matrix =
    be_u32 0x0001_0000
    ++ (be_u32 0
        ++ (be_u32 0
            ++ (be_u32 0
                ++ (be_u32 0x0001_0000
                    ++ (be_u32 0 ++ (be_u32 0 ++ (be_u32 0 ++ be_u32 0x4000_0000)))))))

unfoldable pub build_mvhd : (timescale next_track_id : ℕ) → Bytes
unfolding unity_matrix
build_mvhd timescale next_track_id = make_box (codes "mvhd") (
    be_u32 0
    ++ (zeroes 8
        ++ (be_u32 timescale
            ++ (be_u32 0
                ++ (be_u32 0x0001_0000
                    ++ (be_u16 0x0100
                        ++ (be_u16 0
                            ++ (zeroes 8
                                ++ (unity_matrix ++ (zeroes 24 ++ be_u32 next_track_id))))))))))

unfoldable pub build_tkhd : (track_id width height : ℕ) → Bytes
unfolding unity_matrix
build_tkhd track_id width height = make_box (codes "tkhd") (
    be_u32 0x0000_0007
    ++ (zeroes 8
        ++ (be_u32 track_id
            ++ (be_u32 0
                ++ (be_u32 0
                    ++ (zeroes 8
                        ++ (be_u16 0
                            ++ (be_u16 0
                                ++ (be_u16 0
                                    ++ (be_u16 0
                                        ++ (unity_matrix
                                            ++ (be_u32 (u32 (width <<< 16))
                                                ++ be_u32 (u32 (height <<< 16))))))))))))))

unfoldable pub build_mdhd : ℕ → Bytes
build_mdhd timescale =
    make_box (codes "mdhd")
      (be_u32 0 ++ (zeroes 8 ++ (be_u32 timescale ++ (be_u32 0 ++ (be_u16 0 ++ be_u16 0)))))

unfoldable pub build_hdlr : (type name : Bytes) → Bytes
build_hdlr type name =
    make_box (codes "hdlr") (be_u32 0 ++ (be_u32 0 ++ (type ++ (zeroes 12 ++ name))))

-- The payload of `vmhd`, and of `smhd`.
media_header : Bytes
media_header = be_u32 0x0000_0001 ++ (be_u16 0 ++ (be_u16 0 ++ (be_u16 0 ++ be_u16 0)))

unfoldable pub build_vmhd : Bytes
unfolding media_header
build_vmhd = make_box (codes "vmhd") media_header

unfoldable pub build_smhd : Bytes
unfolding media_header
build_smhd = make_box (codes "smhd") media_header

unfoldable pub build_dinf : Bytes
build_dinf =
    let url_box = make_box (codes "url ") (be_u32 0x0000_0001) in
    let dref = make_box (codes "dref") (be_u32 0 ++ (be_u32 1 ++ url_box)) in
    make_box (codes "dinf") dref

unfoldable pub build_empty_full_box : Bytes → Bytes
build_empty_full_box type = make_box type (be_u32 0 ++ be_u32 0)

unfoldable pub build_empty_stsz : Bytes
build_empty_stsz = make_box (codes "stsz") (be_u32 0 ++ (be_u32 0 ++ be_u32 0))

-- `*sps.get(i).unwrap_or(&0)`.
byte_or_zero : Bytes → ℕ → ℕ
byte_or_zero sps i = elim (get_elem? sps i) [ none ↦ 0 | some b ↦ b ]

-- The loop over the picture parameter sets.
unfoldable pub pps_entries : List Bytes → Bytes
pps_entries [] = []
pps_entries (pps ∷ rest) = be_u16 (u16 (length pps)) ++ (pps ++ pps_entries rest)

-- The payload, where the first blob is the sequence parameter set.
unfoldable pub avcc_record : Bytes → List Bytes → Bytes
unfolding byte_or_zero pps_entries
avcc_record sps pps_list =
    (1 ∷ byte_or_zero sps 1 ∷ byte_or_zero sps 2 ∷ byte_or_zero sps 3 ∷ 0xFF ∷ 0xE1 ∷ [])
    ++ (be_u16 (u16 (length sps)) ++ (sps ++ (u8 (length pps_list) ∷ pps_entries pps_list)))

unfoldable pub build_avcc : List Bytes → Bytes
build_avcc [] = make_box (codes "avcC") []
build_avcc (sps ∷ pps_list) = make_box (codes "avcC") (avcc_record sps pps_list)

unfoldable pub build_mvex : ℕ → Bytes
build_mvex track_id =
    let trex_size : ℕ = 32 in
    let mvex_size : ℕ = 8 + trex_size in
    be_u32 mvex_size
    ++ (codes "mvex"
        ++ (be_u32 trex_size
            ++ (codes "trex"
                ++ (be_u32 0
                    ++ (be_u32 track_id
                        ++ (be_u32 1 ++ (be_u32 0 ++ (be_u32 0 ++ be_u32 0x0101_0000))))))))
