-- ===== src/Recorder/Vp9/Adapter/Laws.antt =====
-- The adapter of vp9.rs between two frames, and what it makes of a frame.
use live.Prelude.{
  ℕ, ◌≡◌, refl, ◌∙◌, Bool, false, ◌||◌, not, Bytes, arith, ◌!=◌, Option, none, some, ok, err, panic,
  Returns,
}
use live.Recorder.Codec.{Converted}
use live.Recorder.Vp9.BitReader.{Result, missing}
use live.Recorder.Vp9.Header
use live.Recorder.Vp9.Header.{
  Vp9FrameHeader, Vp9FrameSize, Vp9ColorConfig, frame_width, frame_height, is_keyframe,
  chroma_sampling,
}
use live.Recorder.Vp9.Header.Bounds.{IsHeader, parse-IsVp9Header}
use live.Recorder.Vp9.Adapter.{
  Vp9Adapter, ready, same_flag, set_profile, set_color, apply_header, update_dimensions, set_size,
  convert_header, convert_frame,
}

abbrev pub ColorAgrees : Option Vp9ColorConfig → Vp9Adapter → Type 0
ColorAgrees none a = Unit
ColorAgrees (some c) a =
    (a.bit_depth ≡ c.bit_depth)
    × (a.chroma_subsampling ≡ chroma_sampling c)
    × (a.color_range ≡ c.color_range)

abbrev pub SizeAgrees : Option Vp9FrameSize → Vp9Adapter → Type 0
SizeAgrees none a = Unit
SizeAgrees (some s) a = (a.width ≡ frame_width s) × (a.height ≡ frame_height s)

-- The adapter says of the stream what this header says.
pub record Describes (h : Vp9FrameHeader) (a : Vp9Adapter) : Type 0 where
  pub profile : a.profile ≡ h.profile
  pub color : ColorAgrees h.color_config a
  pub size : SizeAgrees h.frame_size a

set_profile_lem :
    (v : ℕ) (a : Vp9Adapter) (u : Bool)
    → set_profile v (a, u) ≡ (record a { profile = v }, a.profile != v || u)
unfolding apply_header
set_profile_lem v a u = ground arith

-- What the colour configuration of a header sets, and whether that is new.
colored : Option Vp9ColorConfig → Vp9Adapter → Vp9Adapter
colored none a = a
colored (some c) a = record a {
  bit_depth = c.bit_depth;
  chroma_subsampling = chroma_sampling c;
  color_range = c.color_range;
}

new_color : Option Vp9ColorConfig → Vp9Adapter → Bool
new_color none a = false
new_color (some c) a =
    not (same_flag a.color_range c.color_range)
    || a.chroma_subsampling != chroma_sampling c
    || a.bit_depth != c.bit_depth

set_color_lem :
    (c : Option Vp9ColorConfig) (a : Vp9Adapter) (u : Bool)
    → set_color c (a, u) ≡ (colored c a, new_color c a || u)
unfolding apply_header colored new_color
set_color_lem none a u = refl
set_color_lem (some c) a u = ground arith

resized : Option Vp9FrameSize → Vp9Adapter → Vp9Adapter
resized none a = a
resized (some s) a = record a { width = frame_width s; height = frame_height s }

new_size : Option Vp9FrameSize → Vp9Adapter → Bool
new_size none a = false
new_size (some s) a = not (ready a) || a.width != frame_width s || a.height != frame_height s

set_size_lem :
    (s : Option Vp9FrameSize) (a : Vp9Adapter) → set_size s a ≡ (resized s a, new_size s a)
unfolding convert_header update_dimensions resized new_size
set_size_lem none a = refl
set_size_lem (some s) a = ground arith

-- The adapter after a header, and whether it says anything new.
after_header : Vp9FrameHeader → Vp9Adapter → Vp9Adapter
after_header h a = resized h.frame_size (colored h.color_config (record a { profile = h.profile }))

new_header : Vp9FrameHeader → Vp9Adapter → Bool
new_header h a =
    new_size h.frame_size (colored h.color_config (record a { profile = h.profile }))
    || (new_color h.color_config (record a { profile = h.profile })
        || (a.profile != h.profile || false))

convert_header_lem :
    (h : Vp9FrameHeader) (frame : Bytes) (a : Vp9Adapter)
    → convert_header h frame a ≡ (
      after_header h a,
      record { payload = frame; is_sync = is_keyframe h; config_ready = new_header h a },
    )
unfolding convert_header apply_header after_header new_header
convert_header_lem h frame a =
    let described = record a { profile = h.profile } in
    rw
      (
        set_profile_lem h.profile a false,
        set_color_lem h.color_config described (a.profile != h.profile || false),
        set_size_lem h.frame_size (colored h.color_config described),
      )
      refl

colored-ColorAgrees :
    (c : Option Vp9ColorConfig) (s : Option Vp9FrameSize) (a : Vp9Adapter)
    → ColorAgrees c (resized s (colored c a))
unfolding colored resized
colored-ColorAgrees none s a = tt
colored-ColorAgrees (some c) none a = (refl, refl, refl)
colored-ColorAgrees (some c) (some s) a = (refl, refl, refl)

resized-SizeAgrees : (s : Option Vp9FrameSize) (a : Vp9Adapter) → SizeAgrees s (resized s a)
unfolding resized
resized-SizeAgrees none a = tt
resized-SizeAgrees (some s) a = (refl, refl)

kept_profile :
    (c : Option Vp9ColorConfig) (s : Option Vp9FrameSize) (a : Vp9Adapter)
    → (resized s (colored c a)).profile ≡ a.profile
unfolding colored resized
kept_profile none none a = refl
kept_profile none (some s) a = refl
kept_profile (some c) none a = refl
kept_profile (some c) (some s) a = refl

after_header-Describes : (h : Vp9FrameHeader) (a : Vp9Adapter) → Describes h (after_header h a)
unfolding after_header
after_header-Describes h a = record {
  profile = kept_profile h.color_config h.frame_size (record a { profile = h.profile });
  color = colored-ColorAgrees h.color_config h.frame_size (record a { profile = h.profile });
  size =
      resized-SizeAgrees h.frame_size (colored h.color_config (record a { profile = h.profile }));
}

colored_same :
    (c : Option Vp9ColorConfig) (a : Vp9Adapter) → new_color c a ≡ false → colored c a ≡ a
unfolding colored new_color same_flag
colored_same none a quiet = refl
colored_same (some c) a quiet = ground arith

resized_same : (s : Option Vp9FrameSize) (a : Vp9Adapter) → new_size s a ≡ false → resized s a ≡ a
unfolding resized new_size
resized_same none a quiet = refl
resized_same (some s) a quiet = ground arith

profile_same : (p : ℕ) (a : Vp9Adapter) → (a.profile != p) ≡ false → record a { profile = p } ≡ a
profile_same p a quiet = ground arith

quiet_same : (h : Vp9FrameHeader) (a : Vp9Adapter) → new_header h a ≡ false → after_header h a ≡ a
unfolding after_header new_header
quiet_same h a quiet =
    let described = record a { profile = h.profile } in
    let same : (a.profile != h.profile) ≡ false = ground arith in
    let no_color : new_color h.color_config described ≡ false = ground arith in
    let no_size : new_size h.frame_size (colored h.color_config described) ≡ false = ground arith in
    resized_same h.frame_size (colored h.color_config described) no_size
    ∙ colored_same h.color_config described no_color
    ∙ profile_same h.profile a same

color_quiet : (c : Option Vp9ColorConfig) (a : Vp9Adapter) → ColorAgrees c a → new_color c a ≡ false
unfolding new_color same_flag
color_quiet none a known = refl
color_quiet (some c) a known = ground arith

size_quiet : (s : Option Vp9FrameSize) (a : Vp9Adapter) → SizeAgrees s a → new_size s a ≡ false
unfolding new_size
size_quiet none a known = refl
size_quiet (some s) a known = ground arith

known_quiet : (h : Vp9FrameHeader) (a : Vp9Adapter) → Describes h a → new_header h a ≡ false
unfolding new_header
known_quiet h a known =
    let same : (a.profile != h.profile) ≡ false = ground (arith, known.profile) in
    let no_color = color_quiet h.color_config a known.color in
    rw
      (
        profile_same h.profile a same,
        colored_same h.color_config a no_color,
        no_color,
        size_quiet h.frame_size a known.size,
        same,
      )
      refl

-- What `convert_frame` makes of a frame whose header parsed.
pub record IsVp9Converted (frame : Bytes) (a : Vp9Adapter) (h : Vp9FrameHeader)
    (r : Vp9Adapter × Converted) : Type 0 where
  pub payload : r.1.payload ≡ frame
  pub is_sync : r.1.is_sync ≡ is_keyframe h
  pub describes : Describes h r.0
  pub quiet : r.1.config_ready ≡ false → r.0 ≡ a
  pub known : Describes h a → r.1.config_ready ≡ false

convert_header-IsVp9Converted :
    (frame : Bytes) (a : Vp9Adapter) (h : Vp9FrameHeader)
    → IsVp9Converted frame a h (convert_header h frame a)
convert_header-IsVp9Converted frame a h = rw (convert_header_lem h frame a) (record {
  payload = refl;
  is_sync = refl;
  describes = after_header-Describes h a;
  quiet = quiet_same h a;
  known = known_quiet h a;
})

-- The two cases of a frame.
pub record IsVp9Frame (frame : Bytes) (a : Vp9Adapter) (r : Result (Vp9Adapter × Converted))
    : Type 0 where
  pub adapter : Vp9Adapter
  pub out : Converted
  pub returns : r ≡ ok (adapter, out)
  pub with_header :
      (h : Vp9FrameHeader) → Header.parse frame ≡ ok h → IsVp9Converted frame a h (adapter, out)
  pub without_header :
      Header.parse frame ≡ err missing
      → (adapter ≡ a) × (out ≡ record { payload = frame; is_sync = false; config_ready = false })

-- On any adapter and any bytes `convert_frame` returns, without a panic, the bytes themselves. If
-- they start with a VP9 header, the frame is a keyframe exactly if the header says so, and the
-- adapter then agrees with the header in its profile, and in bit depth, chroma sampling, colour
-- range, width and height if the header has them; the configuration is reported as updated exactly
-- if the adapter did not agree with the header before, which is any change, not only the first time
-- that it is complete as the trait says; and where it is not, the adapter is as it was. Bytes without such a header leave the adapter as it was, and are no keyframe.
pub convert_frame-IsVp9Frame :
    (a : Vp9Adapter) (frame : Bytes) → IsVp9Frame frame a (convert_frame a frame)
unfolding convert_frame
convert_frame-IsVp9Frame a frame = go (Header.parse frame) refl (parse-IsVp9Header frame)
  where
    go :
        (r : Result Vp9FrameHeader)
        → Header.parse frame ≡ r
        → Returns IsHeader r
        → IsVp9Frame frame a (elim r [
          | ok header ↦ ok (convert_header header frame a)
          | err _ ↦ ok (a, record { payload = frame; is_sync = false; config_ready = false })
          | panic ↦ panic
        ])
    go (ok header) e good = record {
      adapter = (convert_header header frame a).0;
      out = (convert_header header frame a).1;
      returns = refl;
      with_header = λ h eh.
          let same : h ≡ header = cc in rw same (convert_header-IsVp9Converted frame a header);
      without_header = λ eh. cc;
    }
    go (err missing) e good = record {
      adapter = a;
      out = record { payload = frame; is_sync = false; config_ready = false };
      returns = refl;
      with_header = λ h eh. cc;
      without_header = λ _. (refl, refl);
    }
    go panic e good = absurd good
