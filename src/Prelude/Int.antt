-- ===== src/Prelude/Int.antt =====
-- Whole numbers with a sign, and two's complement.
use Prim.Native.Nat.{ℕ, ◌+◌, ◌-◌, ◌≤◌, ◌<◌}
use mathlib.Core.Path.{◌≡◌, ap, ◌∙◌}
use mathlib.Core.Bool.{Bool, true}
use native.Mathlib.Omega.{arith}
use appium_ios_remotexpc.Prelude.Tests.{ltb, if◌then◌else◌, le→ltb, ltb→lt}

-- `negsuc n` is -(n + 1).
pub data ℤ : Type 0 where
  pos negsuc : ℕ → ℤ

-- The number that a word stands for, where `half` is half of the words: 2 ^ 31 for `readInt32LE`.
unfoldable pub to_signed : ℕ → ℕ → ℤ
to_signed half n = if ltb n half then pos n else negsuc (half + half - 1 - n)

-- The word of a number that has one.
unfoldable pub of_signed : ℕ → ℤ → ℕ
of_signed half (pos n) = n
of_signed half (negsuc n) = half + half - 1 - n

-- Whether a number has a word.
unfoldable pub fits_signed : ℕ → ℤ → Bool
fits_signed half (pos n) = ltb n half
fits_signed half (negsuc n) = ltb n half

pub of_signed-range :
    (half : ℕ) (z : ℤ) → fits_signed half z ≡ true → of_signed half z < half + half
unfolding of_signed fits_signed
of_signed-range half (pos n) h = omega (arith, ltb→lt n half h)
of_signed-range half (negsuc n) h = omega (arith, ltb→lt n half h)

pub to_signed-of_signed :
    (half : ℕ) (z : ℤ) → fits_signed half z ≡ true → to_signed half (of_signed half z) ≡ z
unfolding to_signed of_signed fits_signed
to_signed-of_signed half (pos n) h = rw h
to_signed-of_signed half (negsuc n) h =
    upper (half + half - 1 - n) (omega (arith, ltb→lt n half h))
    ∙ ap negsuc (omega (arith, ltb→lt n half h))
  where
    upper :
        (m : ℕ)
        → half ≤ m
        → (if ltb m half then pos m else negsuc (half + half - 1 - m))
          ≡ negsuc (half + half - 1 - m)
    upper m k = rw (le→ltb m half k)
