-- ===== src/Prelude/Bytes.antt =====
-- Buffers, and the fixed-width integers that Buffer.readUInt… and Buffer.writeUInt… move.
use Prim.Native.Nat.{ℕ, zero, suc, ◌+◌, ◌*◌, ◌/◌, ◌%◌, ◌<◌}
use mathlib.Core.Path.{◌≡◌, refl, ap}
use mathlib.Core.List.{List, [], ◌∷◌, ◌++◌}
use native.Mathlib.Omega.{arith}
use appium_ios_remotexpc.Prelude.Lists.{length, length-append, take, drop}

abbrev pub Bytes : Type 0
Bytes = List ℕ

abbrev pub IsByte : ℕ → Type 0
IsByte b = b < 256

-- The `n` bytes of `v`, lowest first: what `writeUInt…LE(v)` leaves for `v` in range.
abbrev pub le_bytes : ℕ → ℕ → Bytes
le_bytes zero v = []
le_bytes (suc n) v = v % 256 ∷ le_bytes n (v / 256)

abbrev pub of_le : Bytes → ℕ
of_le [] = 0
of_le (b ∷ bs) = b + 256 * of_le bs

-- The same, highest first.
abbrev pub be_bytes : ℕ → ℕ → Bytes
be_bytes zero v = []
be_bytes (suc n) v = be_bytes n (v / 256) ++ (v % 256 ∷ [])

abbrev pub of_be_from : ℕ → Bytes → ℕ
of_be_from acc [] = acc
of_be_from acc (b ∷ bs) = of_be_from (acc * 256 + b) bs

abbrev pub of_be : Bytes → ℕ
of_be = of_be_from 0

abbrev pub range : ℕ → ℕ
range zero = 1
range (suc n) = 256 * range n

-- `data[i]` and the readUInt…(i) of so many bytes, where the caller has checked that they are there.
abbrev pub byte_at : Bytes → ℕ → ℕ
byte_at [] i = 0
byte_at (b ∷ bs) zero = b
byte_at (b ∷ bs) (suc i) = byte_at bs i

abbrev pub read_be : ℕ → Bytes → ℕ → ℕ
read_be size data' i = of_be (take size (drop i data'))

abbrev pub read_le : ℕ → Bytes → ℕ → ℕ
read_le size data' i = of_le (take size (drop i data'))

pub of_le-le_bytes : (n v : ℕ) → v < range n → of_le (le_bytes n v) ≡ v
of_le-le_bytes zero v h = omega arith
of_le-le_bytes (suc n) v h = omega (arith, of_le-le_bytes n (v / 256) (omega arith))

pub length-le_bytes : (n v : ℕ) → length (le_bytes n v) ≡ n
length-le_bytes zero v = refl
length-le_bytes (suc n) v = ap suc (length-le_bytes n (v / 256))

pub of_be_from-append :
    (acc : ℕ) (xs : Bytes) (b : ℕ) → of_be_from acc (xs ++ (b ∷ [])) ≡ of_be_from acc xs * 256 + b
of_be_from-append acc [] b = refl
of_be_from-append acc (x ∷ xs) b = of_be_from-append (acc * 256 + x) xs b

pub of_be-be_bytes : (n v : ℕ) → v < range n → of_be (be_bytes n v) ≡ v
of_be-be_bytes zero v h = omega arith
of_be-be_bytes (suc n) v h = omega (
  arith,
  of_be_from-append 0 (be_bytes n (v / 256)) (v % 256),
  of_be-be_bytes n (v / 256) (omega arith),
)

pub length-be_bytes : (n v : ℕ) → length (be_bytes n v) ≡ n
length-be_bytes zero v = refl
length-be_bytes (suc n) v =
    omega
      (arith, length-append {0} (be_bytes n (v / 256)) (v % 256 ∷ []), length-be_bytes n (v / 256))

pub byte_at-append : (xs ys : Bytes) (i : ℕ) → i < length xs → byte_at (xs ++ ys) i ≡ byte_at xs i
byte_at-append [] ys i h = absurd (omega arith)
byte_at-append (x ∷ xs) ys zero h = refl
byte_at-append (x ∷ xs) ys (suc i) h = byte_at-append xs ys i (omega arith)
