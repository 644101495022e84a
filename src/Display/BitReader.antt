-- ===== src/Display/BitReader.antt =====
-- The bit reader of src/services/ios/display/video/hevc.ts against numbers of whole bytes.
use appium_ios_remotexpc.Prelude.{
  ℕ, zero, suc, ◌+◌, ◌-◌, ◌*◌, ◌/◌, ◌%◌, ◌^◌, ◌<◌, ◌≡◌, refl, ap, ◌∙◌, Option, none, some, arith,
  get_elem?,
}
use appium_ios_remotexpc.Prelude.Result.{Result, ok, err, stuck, ◌>>=◌}
use appium_ios_remotexpc.Prelude.Bytes.{Bytes}
use appium_ios_remotexpc.Display.HevcConfig.{Error, past_the_end, bit_at, read_bits}

-- Reading goes on where it stopped.
pub read_bits-add :
    (bytes : Bytes) (m n position value : ℕ)
    → read_bits bytes (m + n) position value
      ≡ (read_bits bytes m position value >>= λ (v, q). read_bits bytes n q v)
unfolding read_bits
read_bits-add bytes zero n position value = ap (λ k. read_bits bytes k position value) (omega arith)
read_bits-add bytes (suc m) n position value =
    let e : suc m + n ≡ suc (m + n) = omega arith in
    ap (λ k. read_bits bytes k position value) e
    ∙ go (bit_at bytes position) (λ bit. read_bits-add bytes m n (suc position) (value * 2 + bit))
  where
    go :
        (r : Result Error ℕ)
        → ((bit : ℕ)
            → read_bits bytes (m + n) (suc position) (value * 2 + bit) ≡ (
                read_bits bytes m (suc position) (value * 2 + bit) >>= λ (v, q).
                read_bits bytes n q v))
        → (r >>= λ bit. read_bits bytes (m + n) (suc position) (value * 2 + bit)) ≡ (
            (r >>= λ bit. read_bits bytes m (suc position) (value * 2 + bit)) >>= λ (v, q).
            read_bits bytes n q v)
    go (ok bit) h = h bit
    go (err e) h = refl
    go stuck h = refl

module _ (bytes : Bytes) (i b : ℕ) (there : get_elem? bytes i ≡ some b) where
  -- The bits of the byte at `i`, from the highest.
  bit_at-byte : (k : ℕ) → k < 8 → bit_at bytes (8 * i + k) ≡ ok (b / 2 ^ (7 - k) % 2)
  unfolding bit_at
  bit_at-byte k h =
      ap (λ j. found (get_elem? bytes j) (7 - (8 * i + k) % 8)) (omega arith)
      ∙ ap (λ r. found r (7 - (8 * i + k) % 8)) there
      ∙ ap (λ j. ok (b / 2 ^ j % 2)) (omega arith)
    where
      found : Option ℕ → ℕ → Result Error ℕ
      found r shift = elim r [ none ↦ err past_the_end | some byte ↦ ok (byte / 2 ^ shift % 2) ]

  -- One bit more.
  read_bits-bit :
      (n k value : ℕ)
      → k < 8
      → read_bits bytes (suc n) (8 * i + k) value
        ≡ read_bits bytes n (8 * i + suc k) (value * 2 + b / 2 ^ (7 - k) % 2)
  unfolding read_bits
  read_bits-bit n k value h =
      ap (λ r. r >>= λ bit. read_bits bytes n (suc (8 * i + k)) (value * 2 + bit)) (bit_at-byte k h)
      ∙ ap (λ q. read_bits bytes n q (value * 2 + b / 2 ^ (7 - k) % 2)) (omega arith)

  -- The first byte in parts of 4, 3 and 1 bits, another in parts of 2, 1 and 5.
  pub read_bits-four : read_bits bytes 4 (8 * i + 0) 0 ≡ ok (b / 16 % 16, 8 * i + 4)
  unfolding read_bits
  read_bits-four =
      read_bits-bit 3 0 0 (omega arith)
      ∙ read_bits-bit 2 1 _ (omega arith)
      ∙ read_bits-bit 1 2 _ (omega arith)
      ∙ read_bits-bit 0 3 _ (omega arith)
      ∙ ap (λ v. ok (v, 8 * i + 4)) (omega arith)

  pub read_bits-three : read_bits bytes 3 (8 * i + 4) 0 ≡ ok (b / 2 % 8, 8 * i + 7)
  unfolding read_bits
  read_bits-three =
      read_bits-bit 2 4 0 (omega arith)
      ∙ read_bits-bit 1 5 _ (omega arith)
      ∙ read_bits-bit 0 6 _ (omega arith)
      ∙ ap (λ v. ok (v, 8 * i + 7)) (omega arith)

  pub read_bits-last : read_bits bytes 1 (8 * i + 7) 0 ≡ ok (b % 2, 8 * i + 8)
  unfolding read_bits
  read_bits-last = read_bits-bit 0 7 0 (omega arith) ∙ ap (λ v. ok (v, 8 * i + 8)) (omega arith)

  pub read_bits-two : read_bits bytes 2 (8 * i + 0) 0 ≡ ok (b / 64 % 4, 8 * i + 2)
  unfolding read_bits
  read_bits-two =
      read_bits-bit 1 0 0 (omega arith)
      ∙ read_bits-bit 0 1 _ (omega arith)
      ∙ ap (λ v. ok (v, 8 * i + 2)) (omega arith)

  pub read_bits-one : read_bits bytes 1 (8 * i + 2) 0 ≡ ok (b / 32 % 2, 8 * i + 3)
  unfolding read_bits
  read_bits-one = read_bits-bit 0 2 0 (omega arith) ∙ ap (λ v. ok (v, 8 * i + 3)) (omega arith)

  pub read_bits-five : read_bits bytes 5 (8 * i + 3) 0 ≡ ok (b % 32, 8 * i + 8)
  unfolding read_bits
  read_bits-five =
      read_bits-bit 4 3 0 (omega arith)
      ∙ read_bits-bit 3 4 _ (omega arith)
      ∙ read_bits-bit 2 5 _ (omega arith)
      ∙ read_bits-bit 1 6 _ (omega arith)
      ∙ read_bits-bit 0 7 _ (omega arith)
      ∙ ap (λ v. ok (v, 8 * i + 8)) (omega arith)

  -- A whole byte.
  pub read_bits-byte :
      (value : ℕ) → b < 256 → read_bits bytes 8 (8 * i + 0) value ≡ ok (value * 256 + b, 8 * i + 8)
  unfolding read_bits
  read_bits-byte value h =
      read_bits-bit 7 0 value (omega arith)
      ∙ read_bits-bit 6 1 _ (omega arith)
      ∙ read_bits-bit 5 2 _ (omega arith)
      ∙ read_bits-bit 4 3 _ (omega arith)
      ∙ read_bits-bit 3 4 _ (omega arith)
      ∙ read_bits-bit 2 5 _ (omega arith)
      ∙ read_bits-bit 1 6 _ (omega arith)
      ∙ read_bits-bit 0 7 _ (omega arith)
      ∙ ap (λ v. ok (v, 8 * i + 8)) (omega (arith, h))

  -- A whole byte in front of more.
  pub read_bits-next :
      (n value : ℕ)
      → b < 256
      → read_bits bytes (8 + n) (8 * i) value ≡ read_bits bytes n (8 * suc i) (value * 256 + b)
  read_bits-next n value h =
      read_bits-add bytes 8 n (8 * i) value
      ∙ ap (λ q. read_bits bytes 8 q value >>= λ (v, q'). read_bits bytes n q' v) start
      ∙ ap (λ r. r >>= λ (v, q). read_bits bytes n q v) (read_bits-byte value h)
      ∙ ap (λ q. read_bits bytes n q (value * 256 + b)) stop
    where
      start : 8 * i ≡ 8 * i + 0
      start = omega arith

      stop : 8 * i + 8 ≡ 8 * suc i
      stop = omega arith
