-- ===== src/Opack/Headers.antt =====
-- Each header that the encoder writes is read back with its number.
use mathlib.Core.Logic.{ite}
use native.Mathlib.Decide.{ℕ_discrete}
use appium_ios_remotexpc.Prelude.{
  ℕ, zero, suc, ◌+◌, ◌%◌, ◌≤◌, ◌<◌, ◌≡◌, refl, inl, inr, Bool, true, false, Option, none, some, [],
  ◌∷◌, ◌++◌, append_assoc, arith, leb, le→ltb, le→leb, Bool-cases, length, length-append,
  take-length, drop-length,
}
use appium_ios_remotexpc.Prelude.Result.{Result, ok, ◌>>=◌}
use appium_ios_remotexpc.Prelude.Bytes.{
  Bytes, le_bytes, be_bytes, range, of_le-le_bytes, length-le_bytes, of_be-be_bytes,
  length-be_bytes,
}
use appium_ios_remotexpc.Opack.Value.{
  Platform, IsPlatform, Value, Error, num, str, buf, max_safe_integer,
}
use appium_ios_remotexpc.Opack.Encode.{
  sized_header, encode_uint, encode_bytes, encode_string, encode_number,
}
use appium_ios_remotexpc.Opack.Decode.{
  Marker, small_int, string, string_sized, bytes, bytes_sized, array, dict, classify, take_bytes,
  decode_length, decode_string, decode_bytes, decode_uint, decode_uint64, decode_float,
  decode_marked, decode,
}

Marker-discrete : Discrete Marker
Marker-discrete = hlevel ℕ_discrete

-- Two functions into `Marker` that agree below a bound, by evaluation.
module _ (f g : ℕ → Marker) where
  agree_below : ℕ → Bool
  unfolding Marker-discrete
  agree_below zero = true
  agree_below (suc n) = ite (Marker-discrete (f n) (g n)) (agree_below n) false

  agree_below→eq : (n : ℕ) → agree_below n ≡ true → (i : ℕ) → i < n → f i ≡ g i
  unfolding agree_below
  agree_below→eq zero e i h = absurd (omega arith)
  agree_below→eq (suc n) e i h = ground (arith, agree_below→eq n (ground arith) i)

classify_small_int : (n : ℕ) → n < 0x28 → classify (n + 8) ≡ small_int n
unfolding classify agree_below ℕ_discrete
classify_small_int = agree_below→eq (λ n. classify (n + 8)) small_int 0x28 refl

classify_string : (n : ℕ) → n < 0x21 → classify (0x40 + n) ≡ string n
unfolding classify agree_below ℕ_discrete
classify_string = agree_below→eq (λ n. classify (0x40 + n)) string 0x21 refl

classify_bytes : (n : ℕ) → n < 0x21 → classify (0x70 + n) ≡ bytes n
unfolding classify agree_below ℕ_discrete
classify_bytes = agree_below→eq (λ n. classify (0x70 + n)) bytes 0x21 refl

pub classify_array : (n : ℕ) → n < 15 → classify (0xd0 + n) ≡ array n
unfolding classify agree_below ℕ_discrete
classify_array = agree_below→eq (λ n. classify (0xd0 + n)) array 15 refl

pub classify_dict : (n : ℕ) → n < 15 → classify (0xe0 + n) ≡ dict n
unfolding classify agree_below ℕ_discrete
classify_dict = agree_below→eq (λ n. classify (0xe0 + n)) dict 15 refl

pub take_bytes-append : (xs rest : Bytes) → take_bytes (length xs) (xs ++ rest) ≡ ok (xs, rest)
unfolding take_bytes
take_bytes-append xs rest = rw (
  le→ltb (length (xs ++ rest)) (length xs) (omega (arith, length-append {0} xs rest)),
  take-length (length xs) xs rest refl,
  drop-length (length xs) xs rest refl,
)

take_bytes_field :
    (n : ℕ) (xs rest : Bytes) → length xs ≡ n → take_bytes n (xs ++ rest) ≡ ok (xs, rest)
take_bytes_field n xs rest e = rw (← e) (take_bytes-append xs rest)

decode_length-be_bytes :
    (w n : ℕ) (rest : Bytes) → n < range w → decode_length w (be_bytes w n ++ rest) ≡ ok (n, rest)
unfolding decode_length
decode_length-be_bytes w n rest h =
    rw (take_bytes_field w (be_bytes w n) rest (length-be_bytes w n), of_be-be_bytes w n h)

-- A header that `sized_header` chose, read back in the same way for strings and for bytes.
module _ (p : Platform) (base marker : ℕ) (direct sized : ℕ → Marker)
    (use_size : ℕ → Bytes → Result Error (Value p.Text p.Number × Bytes))
    (small : (n : ℕ) → n < 0x21 → classify (base + n) ≡ direct n)
    (width_1 : classify marker ≡ sized 1) (width_2 : classify (marker + 1) ≡ sized 2)
    (width_4 : classify (marker + 2) ≡ sized 4)
    (use_direct : (f n : ℕ) (rest : Bytes)
      → decode_marked p (decode p f) (direct n) rest ≡ use_size n rest)
    (use_sized : (f w : ℕ) (rest : Bytes)
      → decode_marked p (decode p f) (sized w) rest
        ≡ (decode_length w rest >>= λ (n, r). use_size n r)) where
  abbrev HasHeader : ℕ → Type 0
  HasHeader size =
      (h : Bytes) × (sized_header base marker size ≡ ok h)
      × (0 < length h)
      × ((f : ℕ) (rest : Bytes) → decode p (suc f) (h ++ rest) ≡ use_size size rest)

  read_width :
      (f w m size : ℕ) (rest : Bytes)
      → classify m ≡ sized w
      → size < range w
      → decode p (suc f) (m ∷ (be_bytes w size ++ rest)) ≡ use_size size rest
  unfolding decode
  read_width f w m size rest e h =
      rw (e, use_sized f w (be_bytes w size ++ rest), decode_length-be_bytes w size rest h)

  header_round : (size : ℕ) → size ≤ 0xffff_ffff → HasHeader size
  unfolding sized_header
  header_round size bound = elim (Bool-cases (leb size 0x20)) [
    | inl a ↦ (
      (base + size) ∷ [],
      rw a,
      omega arith,
      λ f rest. unfold decode in (rw (small size (ground arith)) (use_direct f size rest)),
    )
    | inr a ↦ elim (Bool-cases (leb size 0xff)) [
      | inl b ↦ (
        marker ∷ size ∷ [],
        rw (a, b),
        omega arith,
        λ f rest.
            let e : size % 256 ≡ size = ground arith in
            rw e at (read_width f 1 marker size rest width_1 (ground arith)),
      )
      | inr b ↦ elim (Bool-cases (leb size 0xffff)) [
        | inl c ↦ (
          (marker + 1) ∷ be_bytes 2 size,
          rw (a, b, c),
          omega arith,
          λ f rest. read_width f 2 (marker + 1) size rest width_2 (ground arith),
        )
        | inr c ↦ (
          (marker + 2) ∷ be_bytes 4 size,
          rw (a, b, c, le→leb size 0xffff_ffff bound),
          omega arith,
          λ f rest. read_width f 4 (marker + 2) size rest width_4 (omega arith),
        )
      ]
    ]
  ]

-- An encoding, and that `decode` reads it back, whatever fuel it has beyond one.
abbrev pub Reads : (p : Platform) → Result Error Bytes → Value p.Text p.Number → Type 0
Reads p r v =
    (b : Bytes) × (r ≡ ok b)
    × (0 < length b)
    × ((f : ℕ) (rest : Bytes) → decode p (suc f) (b ++ rest) ≡ ok (v, rest))

module _ (p : Platform) where
  pub string_round :
      (t : p.Text)
      → length (p.to_utf8 t) ≤ 0xffff_ffff
      → Reads p (encode_string p t) (str (p.of_utf8 (p.to_utf8 t)))
  unfolding encode_string decode_string
  string_round t bound =
      let u = p.to_utf8 t in
      let (h, e, l, r) =
        header_round p 0x40 0x61 string string_sized (decode_string p) classify_string
          (unfold classify in refl) (unfold classify in refl) (unfold classify in refl)
          (λ f n rest. unfold decode_marked in refl) (λ f w rest. unfold decode_marked in refl)
          (length u) bound in
      (
        h ++ u,
        rw e,
        omega (arith, length-append {0} h u),
        λ f rest. rw (append_assoc, r, take_bytes-append u rest),
      )

  pub bytes_round : (b : Bytes) → length b ≤ 0xffff_ffff → Reads p (encode_bytes b) (buf b)
  unfolding encode_bytes decode_bytes
  bytes_round b bound =
      let (h, e, l, r) =
        header_round p 0x70 0x91 bytes bytes_sized (decode_bytes p) classify_bytes
          (unfold classify in refl) (unfold classify in refl) (unfold classify in refl)
          (λ f n rest. unfold decode_marked in refl) (λ f w rest. unfold decode_marked in refl)
          (length b) bound in
      (
        h ++ b,
        rw e,
        omega (arith, length-append {0} h b),
        λ f rest. rw (append_assoc, r, take_bytes-append b rest),
      )

  read_uint :
      (f w m n : ℕ) (rest : Bytes)
      → decode_marked p (decode p f) (classify m) (le_bytes w n ++ rest)
        ≡ decode_uint p w (le_bytes w n ++ rest)
      → n < range w
      → decode p (suc f) (m ∷ (le_bytes w n ++ rest)) ≡ ok (num (p.of_uint n), rest)
  unfolding decode decode_uint
  read_uint f w m n rest e h =
      rw (e, take_bytes_field w (le_bytes w n) rest (length-le_bytes w n), of_le-le_bytes w n h)

  read_uint64 :
      (f n : ℕ) (rest : Bytes)
      → n ≤ max_safe_integer
      → decode p (suc f) (0x33 ∷ (le_bytes 8 n ++ rest)) ≡ ok (num (p.of_uint n), rest)
  unfolding decode decode_marked classify decode_uint64
  read_uint64 f n rest h = rw (
    take_bytes_field 8 (le_bytes 8 n) rest (length-le_bytes 8 n),
    of_le-le_bytes 8 n (omega arith),
    le→leb n max_safe_integer h,
  )

  uint_round : (n : ℕ) → n ≤ max_safe_integer → Reads p (encode_uint n) (num (p.of_uint n))
  unfolding encode_uint
  uint_round n bound = elim (Bool-cases (leb n 0x27)) [
    | inl a ↦ (
      (n + 8) ∷ [],
      rw a,
      omega arith,
      λ f rest. unfold decode decode_marked in (rw (classify_small_int n (ground arith))),
    )
    | inr a ↦ elim (Bool-cases (leb n 0xff)) [
      | inl b ↦ (
        0x30 ∷ n ∷ [],
        rw (a, b),
        omega arith,
        λ f rest.
            let e : n % 256 ≡ n = ground arith in
            rw e at
              (read_uint f 1 0x30 n rest (unfold decode_marked classify in refl) (ground arith)),
      )
      | inr b ↦ elim (Bool-cases (leb n 0xffff_ffff)) [
        | inl c ↦ (
          0x32 ∷ le_bytes 4 n,
          rw (a, b, c),
          omega arith,
          λ f rest.
              read_uint f 4 0x32 n rest (unfold decode_marked classify in refl) (ground arith),
        )
        | inr c ↦ (
          0x33 ∷ le_bytes 8 n,
          rw (a, b, c, le→leb n max_safe_integer bound),
          omega arith,
          λ f rest. read_uint64 f n rest bound,
        )
      ]
    ]
  ]

  -- A number that the encoding keeps: a safe integer, or a float that 32 bits hold.
  abbrev pub IsNumber : p.Number → Option ℕ → Type 0
  IsNumber x (some n) = n ≤ max_safe_integer
  IsNumber x none = p.read_float_le (p.write_float_le x) ≡ x

  number_round_of :
      IsPlatform p
      → (x : p.Number) (u : Option ℕ) → p.to_uint x ≡ u
      → IsNumber x u
      → Reads p (encode_number p x) (num x)
  unfolding encode_number
  number_round_of laws x (some n) e h =
      rw (e, encode_number) (rw (laws.of_to_uint x n e h) at (uint_round n h))
  number_round_of laws x none e h = (
    0x35 ∷ p.write_float_le x,
    rw (e, encode_number),
    omega arith,
    λ f rest.
        unfold decode decode_marked classify decode_float in
        (rw (take_bytes_field 4 (p.write_float_le x) rest (laws.float_size x), h)),
  )

  pub number_round :
      IsPlatform p → (x : p.Number) → IsNumber x (p.to_uint x) → Reads p (encode_number p x) (num x)
  number_round laws x h = number_round_of laws x (p.to_uint x) refl h
