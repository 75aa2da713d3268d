-- ===== src/Recorder/Segmenter/AspectRatio.antt =====
-- segmenter.rs, the loop of `write_manifest` that reduces the picture's aspect ratio.
use live.Prelude.{
  ℕ, ◌*◌, ◌/◌, ◌%◌, ◌<◌, ◌≡◌, refl, Bytes, ◌++◌, arith, ltb, ◌==◌, ◌&&◌, if◌then◌else◌, codes,
  decimal, lt_wf, dec_lt, dite, dite_holds, sym,
}
use mathlib.Core.WellFounded.{Acc}
use native.Mathlib.Nat
use mathlib.Core.Path.{subst}
use Prim.Native.Nat.{◌∣◌}

-- `while h != 0 { let tmp = h; h = w % h; w = tmp; }`, with the `w` that is left.
euclid : (w h : ℕ) → Acc ◌<◌ h → ℕ
euclid w h (Acc.intro _ smaller) =
    dite (dec_lt 0 h) (λ pos. euclid h (w % h) (smaller (w % h) (omega arith))) (λ _. w)

unfoldable pub reduce_by : (width height : ℕ) → ℕ
unfolding euclid lt_wf dec_lt
reduce_by width height = euclid width height (lt_wf.apply height)

-- The two terms of `par`.
unfoldable pub ratio : (width height : ℕ) → ℕ × ℕ
ratio width height =
    if ltb 0 width && ltb 0 height
    then (let w = reduce_by width height in if w == 0 then (1, 1) else (width / w, height / w))
    else (1, 1)

unfoldable pub par_str : (width height : ℕ) → Bytes
unfolding ratio
par_str width height = let (a, b) = ratio width height in decimal a ++ (codes ":" ++ decimal b)

full_hd : ratio 1920 1080 ≡ (16, 9)
unfolding ratio reduce_by
full_hd = refl

-- What the loop leaves divides both sides of the picture,
euclid-dvd : (w h : ℕ) (a : Acc ◌<◌ h) → (euclid w h a ∣ w) × (euclid w h a ∣ h)
unfolding euclid
euclid-dvd w h (Acc.intro _ smaller) =
    dite_holds (λ g. (g ∣ w) × (g ∣ h)) (dec_lt 0 h) _ _
      (λ pos.
        let (left, right) = euclid-dvd h (w % h) (smaller (w % h) (omega arith)) in
        ((Nat.dvd-mod_iff _ left).0 right, left))
      (λ n. (Nat.dvd_refl w, subst (λ (x : ℕ). w ∣ x) (sym (h_zero n)) (Nat.dvd-zero w)))
  where
    h_zero : ¬ (0 < h) → h ≡ 0
    h_zero n = omega arith

-- and every number that divides both divides it.
dvd-euclid : (k w h : ℕ) (a : Acc ◌<◌ h) → k ∣ w → k ∣ h → k ∣ euclid w h a
unfolding euclid
dvd-euclid k w h (Acc.intro _ smaller) in_w in_h =
    dite_holds (λ g. k ∣ g) (dec_lt 0 h) _ _
      (λ pos.
        dvd-euclid k h (w % h) (smaller (w % h) (omega arith)) in_h
          ((Nat.dvd-mod_iff _ in_h).1 in_w))
      (λ n. in_w)

-- Two numbers in the proportion of a picture, in lowest terms.
pub record IsReduced (width height a b : ℕ) : Type 0 where
  pub scale : ℕ
  pub width_scaled : width ≡ a * scale
  pub height_scaled : height ≡ b * scale
  pub lowest : (k : ℕ) → k ∣ a → k ∣ b → k ≡ 1

module _ (width height : ℕ) (wide : 0 < width) (high : 0 < height) where
  abbrev g : ℕ
  g = reduce_by width height

  divides : (g ∣ width) × (g ∣ height)
  unfolding reduce_by
  divides = euclid-dvd width height (lt_wf.apply height)

  g_pos : 0 < g
  g_pos = Nat.pos_of_dvd_of_pos divides.0 wide

  -- A common divisor of the reduced numbers, times what they were reduced by, divides that.
  lowest_terms : (k : ℕ) → k ∣ width / g → k ∣ height / g → k ≡ 1
  unfolding reduce_by
  lowest_terms k left right = Nat.eq-one_of_dvd-one (
      Nat.dvd_of_mul-dvd-mul_right k g_pos (
        subst (λ (x : ℕ). k * g ∣ x) (omega arith)
          (dvd-euclid (k * g) width height (lt_wf.apply height)
            (subst (λ (x : ℕ). k * g ∣ x) (Nat.div-mul_cancel g divides.0)
              (Nat.mul-dvd-mul_right k left g))
            (subst (λ (x : ℕ). k * g ∣ x) (Nat.div-mul_cancel g divides.1)
              (Nat.mul-dvd-mul_right k right g)))))

  ratio_lem : ratio width height ≡ (width / g, height / g)
  unfolding ratio
  ratio_lem = ground (arith, g_pos)

-- The loop ends for every picture that has an extent, and the aspect ratio of the manifest is the
-- proportion of the picture in lowest terms.
pub ratio-IsReduced :
    (width height : ℕ)
    → 0 < width
    → 0 < height
    → IsReduced width height (ratio width height).0 (ratio width height).1
ratio-IsReduced width height wide high = rw (ratio_lem width height wide high) (record {
  scale = reduce_by width height;
  width_scaled =
      sym (Nat.div-mul_cancel (reduce_by width height) (divides width height wide high).0);
  height_scaled =
      sym (Nat.div-mul_cancel (reduce_by width height) (divides width height wide high).1);
  lowest = lowest_terms width height wide high;
})
