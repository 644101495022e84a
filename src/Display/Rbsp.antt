-- ===== src/Display/Rbsp.antt =====
-- The emulation prevention of NAL units in src/services/ios/display/video/hevc.ts.
use appium_ios_remotexpc.Prelude.{
  ℕ, zero, suc, ◌<◌, ◌≡◌, refl, ap, ◌∙◌, inl, inr, false, [], ◌∷◌, arith, leb, ◌==◌, if◌then◌else◌,
  ne→==, Bool-cases,
}
use appium_ios_remotexpc.Prelude.Bytes.{Bytes}
use appium_ios_remotexpc.Display.HevcConfig.{strip_emulation, hevc_rbsp}

-- What an encoder does (H.265, 7.3.1.1): behind two zeros, a byte of at most 3 gets a 3 before it.
-- `zeros` counts the zeros just written, up to two.
pub data Zeros : Type 0 where
  no_zero one_zero two_zeros : Zeros

unfoldable pub prevent : Zeros → Bytes → Bytes
prevent zeros [] = []
prevent no_zero (zero ∷ bs) = 0 ∷ prevent one_zero bs
prevent no_zero (suc b ∷ bs) = suc b ∷ prevent no_zero bs
prevent one_zero (zero ∷ bs) = 0 ∷ prevent two_zeros bs
prevent one_zero (suc b ∷ bs) = suc b ∷ prevent no_zero bs
prevent two_zeros (zero ∷ bs) = 3 ∷ 0 ∷ prevent one_zero bs
prevent two_zeros (suc b ∷ bs) =
    let after = suc b ∷ prevent no_zero bs in if leb (suc b) 3 then 3 ∷ after else after

suc-ne-zero : (b : ℕ) → suc b == 0 ≡ false
suc-ne-zero b = ne→== (suc b) 0 (λ e. absurd (omega arith))

-- A byte that is not zero stays; and a zero before it; and two before any other byte than 3.
strip_emulation-suc :
    (b : ℕ) (bs : Bytes) → strip_emulation (suc b ∷ bs) ≡ suc b ∷ strip_emulation bs
unfolding strip_emulation
strip_emulation-suc b [] = refl
strip_emulation-suc b (c ∷ []) = refl
strip_emulation-suc b (c ∷ d ∷ bs) = rw (suc-ne-zero b)

strip_emulation-zero-suc :
    (b : ℕ) (bs : Bytes) → strip_emulation (0 ∷ suc b ∷ bs) ≡ 0 ∷ suc b ∷ strip_emulation bs
unfolding strip_emulation
strip_emulation-zero-suc b [] = refl
strip_emulation-zero-suc b (c ∷ bs) =
    rw (suc-ne-zero b) (ap (λ t. 0 ∷ t) (strip_emulation-suc b (c ∷ bs)))

strip_emulation-two-suc :
    (b : ℕ) (bs : Bytes)
    → suc b == 3 ≡ false
    → strip_emulation (0 ∷ 0 ∷ suc b ∷ bs) ≡ 0 ∷ 0 ∷ suc b ∷ strip_emulation bs
unfolding strip_emulation
strip_emulation-two-suc b bs h = rw h (ap (λ t. 0 ∷ t) (strip_emulation-zero-suc b bs))

above : (b : ℕ) → leb (suc b) 3 ≡ false → 3 < suc b
above b h = ground arith

mutual
  unfolding prevent strip_emulation

  stripped : (bs : Bytes) → strip_emulation (prevent no_zero bs) ≡ bs
  stripped [] = refl
  stripped (zero ∷ bs) = stripped_one bs
  stripped (suc b ∷ bs) =
      strip_emulation-suc b (prevent no_zero bs) ∙ ap (λ t. suc b ∷ t) (stripped bs)

  stripped_one : (bs : Bytes) → strip_emulation (0 ∷ prevent one_zero bs) ≡ 0 ∷ bs
  stripped_one [] = refl
  stripped_one (zero ∷ bs) = stripped_two bs
  stripped_one (suc b ∷ bs) =
      strip_emulation-zero-suc b (prevent no_zero bs) ∙ ap (λ t. 0 ∷ suc b ∷ t) (stripped bs)

  stripped_two : (bs : Bytes) → strip_emulation (0 ∷ 0 ∷ prevent two_zeros bs) ≡ 0 ∷ 0 ∷ bs
  stripped_two [] = refl
  stripped_two (zero ∷ bs) = ap (λ t. 0 ∷ 0 ∷ t) (stripped_one bs)
  stripped_two (suc b ∷ bs) = elim (Bool-cases (leb (suc b) 3)) [
    | inl small ↦ rw small (
        ap (λ t. 0 ∷ 0 ∷ t) (strip_emulation-suc b (prevent no_zero bs))
        ∙ ap (λ t. 0 ∷ 0 ∷ suc b ∷ t) (stripped bs))
    | inr large ↦ rw large (
        strip_emulation-two-suc b (prevent no_zero bs)
          (ne→== (suc b) 3 (λ e. absurd (omega (arith, e, above b large))))
        ∙ ap (λ t. 0 ∷ 0 ∷ suc b ∷ t) (stripped bs))
  ]

-- A payload whose emulation was prevented, behind any header of 2 bytes, is read as it was.
pub hevc_rbsp-prevent : (a b : ℕ) (rbsp : Bytes) → hevc_rbsp (a ∷ b ∷ prevent no_zero rbsp) ≡ rbsp
unfolding hevc_rbsp
hevc_rbsp-prevent a b rbsp = stripped rbsp
