-- ===== src/Prelude/Leaves.antt =====
-- Decoders that return what they leave of their input: what shows that a loop over one ends.
use Prim.Native.Nat.{ℕ, suc, ◌≤◌, ◌<◌}
use mathlib.Core.Path.{subst}
use mathlib.Core.Logic.{◌≢◌}
use native.Mathlib.Omega.{arith}
use appium_ios_remotexpc.Prelude.Lists.{length}
use appium_ios_remotexpc.Prelude.Result.{Result, ok, err, stuck, ◌>>=◌}
use appium_ios_remotexpc.Prelude.Bytes.{Bytes}

module _ {E A : Type 0} where
  -- An error, or a result with at most `n` bytes left.
  abbrev pub Leaves : ℕ → Result E (A × Bytes) → Type 0
  Leaves n (ok (a, rest)) = length rest ≤ n
  Leaves n (err e) = Unit {0}
  Leaves n stuck = ⊥

  -- An error, or a result with fewer than `n` bytes left.
  abbrev pub Shrinks : ℕ → Result E (A × Bytes) → Type 0
  Shrinks n (ok (a, rest)) = length rest < n
  Shrinks n (err e) = Unit {0}
  Shrinks n stuck = ⊥

  pub Shrinks-Leaves : (m n : ℕ) (r : Result E (A × Bytes)) → Shrinks m r → m ≤ suc n → Leaves n r
  Shrinks-Leaves m n (ok (a, rest)) h le = omega arith
  Shrinks-Leaves m n (err e) h le = tt
  Shrinks-Leaves m n stuck h le = h

  pub Leaves-Shrinks : (n : ℕ) (r : Result E (A × Bytes)) → Leaves n r → Shrinks (suc n) r
  Leaves-Shrinks n (ok (a, rest)) h = omega arith
  Leaves-Shrinks n (err e) h = tt
  Leaves-Shrinks n stuck h = h

pub Leaves-mono :
    {E A : Type 0} (m n : ℕ) (r : Result E (A × Bytes)) → Leaves m r → m ≤ n → Leaves n r
Leaves-mono m n (ok (a, rest)) h le = omega arith
Leaves-mono m n (err e) h le = tt
Leaves-mono m n stuck h le = h

pub Leaves-bind :
    {E A B : Type 0} (n : ℕ) (r : Result E (A × Bytes)) (f : A × Bytes → Result E (B × Bytes))
    → Leaves n r
    → ((a : A) (rest : Bytes) → length rest ≤ n → Leaves n (f (a, rest)))
    → Leaves n (r >>= f)
Leaves-bind n (ok (a, rest)) f h k = k a rest h
Leaves-bind n (err e) f h k = tt
Leaves-bind n stuck f h k = h

-- The same where the rest of the block leaves another number.
pub Leaves-then :
    {E A B : Type 0} (m n : ℕ) (r : Result E (A × Bytes)) (f : A × Bytes → Result E (B × Bytes))
    → Leaves m r
    → ((a : A) (rest : Bytes) → length rest ≤ m → Leaves n (f (a, rest)))
    → Leaves n (r >>= f)
Leaves-then m n (ok (a, rest)) f h k = k a rest h
Leaves-then m n (err e) f h k = tt
Leaves-then m n stuck f h k = h

-- The rest of a `do` block behind a call that takes a byte.
pub Shrinks-bind :
    {E A B : Type 0} (m n : ℕ) (r : Result E (A × Bytes)) (f : A × Bytes → Result E (B × Bytes))
    → Shrinks m r
    → ((a : A) (rest : Bytes) → length rest < m → Leaves n (f (a, rest)))
    → Leaves n (r >>= f)
Shrinks-bind m n (ok (a, rest)) f h k = k a rest h
Shrinks-bind m n (err e) f h k = tt
Shrinks-bind m n stuck f h k = h

-- A result that leaves something has been reached.
pub Leaves-ne-stuck : {E A : Type 0} (n : ℕ) (r : Result E (A × Bytes)) → Leaves n r → r ≢ stuck
Leaves-ne-stuck n r h e = subst (Leaves n) e h
