-- ===== src/Xpc/BitsLaws.antt =====
-- What is read of the numbers, texts and paddings that were written.
use appium_ios_remotexpc.Prelude.{
  ℕ, suc, ◌+◌, ◌-◌, ◌*◌, ◌/◌, ◌%◌, ◌^◌, ◌<◌, ◌≡◌, refl, sym, ap, ◌∙◌, ◌≢◌, true, some, [], ◌∷◌,
  ◌++◌, arith, ltb, le→ltb, ltb→lt, ne→==, length, drop, All, length-append, length-replicate,
  take-length, drop-length,
}
use appium_ios_remotexpc.Prelude.Result.{ok, ◌>>=◌, guard, bind-eq-ok, guard-eq-ok, ok-injective}
use appium_ios_remotexpc.Prelude.Bytes.{Bytes, le_bytes, range, of_le-le_bytes, length-le_bytes}
use appium_ios_remotexpc.Prelude.Int.{
  ℤ, pos, negsuc, to_signed, of_signed, fits_signed, of_signed-range, to_signed-of_signed,
}
use appium_ios_remotexpc.Xpc.Value.{out_of_range}
use appium_ios_remotexpc.Xpc.Bits.{
  write_uint, read_uint, write_big_uint64_le, write_big_int64_le, read_big_int64_le, calc_padding,
  padding, before_null, terminated, read_key_bytes, times, quotient,
}

pub read_uint-le_bytes :
    (size v : ℕ) (rest : Bytes)
    → v < range size
    → read_uint size (le_bytes size v ++ rest) ≡ ok (v, rest)
unfolding read_uint
read_uint-le_bytes size v rest h = rw (
  le→ltb (length (le_bytes size v ++ rest)) size (omega (arith, long)),
  take-length size (le_bytes size v) rest (sym (length-le_bytes size v)),
  drop-length size (le_bytes size v) rest (sym (length-le_bytes size v)),
  of_le-le_bytes size v h,
)
  where
    long : length (le_bytes size v ++ rest) ≡ size + length rest
    long = length-append (le_bytes size v) rest ∙ ap (λ n. n + length rest) (length-le_bytes size v)

pub write_uint-eq-ok :
    (size v : ℕ) (b : Bytes) → write_uint size v ≡ ok b → (v < range size) × (b ≡ le_bytes size v)
unfolding write_uint
write_uint-eq-ok size v b h =
    let parts =
      bind-eq-ok (guard (ltb v (range size)) out_of_range) (λ _. ok (le_bytes size v)) h in
    (
      ltb→lt v (range size) (guard-eq-ok (ltb v (range size)) out_of_range parts.1),
      sym (ok-injective parts.2),
    )

pub write_big_int64_le-eq-ok :
    (z : ℤ) (b : Bytes)
    → write_big_int64_le z ≡ ok b
    → (fits_signed (2 ^ 63) z ≡ true) × (b ≡ le_bytes 8 (of_signed (2 ^ 63) z))
unfolding write_big_int64_le
write_big_int64_le-eq-ok z b h =
    let parts =
      bind-eq-ok (guard (fits_signed (2 ^ 63) z) out_of_range)
        (λ _. ok (le_bytes 8 (of_signed (2 ^ 63) z))) h in
    (guard-eq-ok (fits_signed (2 ^ 63) z) out_of_range parts.1, sym (ok-injective parts.2))

pub read_big_int64_le-of_signed :
    (z : ℤ) (rest : Bytes)
    → fits_signed (2 ^ 63) z ≡ true
    → read_big_int64_le (le_bytes 8 (of_signed (2 ^ 63) z) ++ rest) ≡ ok (z, rest)
unfolding read_big_int64_le
read_big_int64_le-of_signed z rest h =
    ap (λ r. r >>= λ (n, rest'). ok (to_signed (2 ^ 63) n, rest'))
      (read_uint-le_bytes 8 (of_signed (2 ^ 63) z) rest (of_signed-range (2 ^ 63) z h))
    ∙ ap (λ y. ok (y, rest)) (to_signed-of_signed (2 ^ 63) z h)

pub write_big_uint64_le-eq-ok :
    (z : ℤ) (b : Bytes)
    → write_big_uint64_le z ≡ ok b
    → (n : ℕ) × (z ≡ pos n) × (n < range 8) × (b ≡ le_bytes 8 n)
unfolding write_big_uint64_le
write_big_uint64_le-eq-ok (pos n) b h =
    let found = write_uint-eq-ok 8 n b h in (n, refl, found.0, found.1)
write_big_uint64_le-eq-ok (negsuc n) b h = cc

-- Milliseconds are read again from nanoseconds.
pub quotient-times : (z : ℤ) → quotient (times z 1_000_000) 1_000_000 ≡ z
unfolding quotient times
quotient-times (pos n) = ap pos (omega arith)
quotient-times (negsuc n) =
    let q : suc (suc n * 1_000_000 - 1) / 1_000_000 ≡ suc n = omega arith in
    rw q (rw (ne→== (suc n) 0 (λ e. absurd (omega arith))) (ap negsuc (omega arith)))

-- No byte is null.
abbrev pub NoNulls : Bytes → Type 0
NoNulls bytes = All (λ b. b ≢ 0) bytes

pub before_null-append :
    (bytes rest : Bytes) → NoNulls bytes → before_null (bytes ++ (0 ∷ rest)) ≡ some bytes
unfolding before_null
before_null-append [] rest h = refl
before_null-append (b ∷ bytes) rest h = rw (ne→== b 0 h.0, before_null-append bytes rest h.1)

pub terminated-append : (bytes : Bytes) → NoNulls bytes → terminated (bytes ++ (0 ∷ [])) ≡ bytes
unfolding terminated
terminated-append bytes h = rw (before_null-append bytes [] h, terminated)

pub read_key_bytes-append :
    (bytes rest : Bytes) → NoNulls bytes → read_key_bytes (bytes ++ (0 ∷ rest)) ≡ ok (bytes, rest)
unfolding read_key_bytes
read_key_bytes-append [] rest h = refl
read_key_bytes-append (b ∷ bytes) rest h = rw (ne→== b 0 h.0, read_key_bytes-append bytes rest h.1)

pub drop-padding : (n : ℕ) (rest : Bytes) → drop (calc_padding n) (padding n ++ rest) ≡ rest
drop-padding n rest =
    drop-length (calc_padding n) (padding n) rest
      (sym (length-replicate {A = ℕ} (calc_padding n) 0))

-- A length and its padding fill whole words.
pub length-padding : (n : ℕ) → (n + length (padding n)) % 4 ≡ 0
unfolding calc_padding
length-padding n = omega (arith, length-replicate {A = ℕ} (calc_padding n) 0)
