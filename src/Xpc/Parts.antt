-- ===== src/Xpc/Parts.antt =====
-- `decodeObject` on each kind of object that was encoded.
use appium_ios_remotexpc.Prelude.{
  ℕ, suc, ◌+◌, ◌^◌, ◌<◌, ◌≡◌, refl, sym, ap, ◌∙◌, ◌⊎◌, inl, inr, true, Option, none, some, [], ◌∷◌,
  ◌++◌, append_assoc, arith, le→ltb, length, take, drop, length-append, take-length, drop-length,
}
use appium_ios_remotexpc.Prelude.Result.{Result, ok, ◌>>=◌, bind-eq-ok, ok-injective}
use appium_ios_remotexpc.Prelude.Bytes.{Bytes, le_bytes}
use appium_ios_remotexpc.Prelude.Int.{ℤ, of_signed, fits_signed}
use appium_ios_remotexpc.Xpc.Value.{Platform, IsPlatform, num, str, buf, Error}
use appium_ios_remotexpc.Xpc.Bits.{write_uint, write_big_int64_le, calc_padding, padding}
use appium_ios_remotexpc.Xpc.Encode.{type_bytes, encode_string, encode_data, encode_number}
use appium_ios_remotexpc.Xpc.Decode.{
  kind_of, decode_double, decode_data, decode_string, decode_kind, decode_object,
}
use appium_ios_remotexpc.Xpc.BitsLaws.{
  NoNulls, read_uint-le_bytes, write_uint-eq-ok, write_big_int64_le-eq-ok,
  read_big_int64_le-of_signed, terminated-append, drop-padding,
}
use appium_ios_remotexpc.Xpc.Seen.{seen_text}

-- A slice with its padding, in front of anything.
take-padded : (n : ℕ) (s rest : Bytes) → n ≡ length s → take n ((s ++ padding n) ++ rest) ≡ s
take-padded n s rest e =
    ap (take n) (append_assoc s (padding n) rest) ∙ take-length n s (padding n ++ rest) e

drop-padded :
    (n : ℕ) (s rest : Bytes)
    → n ≡ length s
    → drop (calc_padding n) (drop n ((s ++ padding n) ++ rest)) ≡ rest
drop-padded n s rest e =
    ap (λ t. drop (calc_padding n) (drop n t)) (append_assoc s (padding n) rest)
    ∙ ap (drop (calc_padding n)) (drop-length n s (padding n ++ rest) e)
    ∙ drop-padding n rest

module _ (p : Platform) where
  open p use {
    Text, Number, to_utf8, of_utf8, to_int, of_int, write_double_le, read_double_le, to_hex,
  }

  -- The type is read, and the rest by its kind.
  pub decode_object-type_bytes :
      (f type : ℕ) (rest : Bytes)
      → type < 2 ^ 32
      → decode_object p (suc f) (type_bytes type ++ rest)
        ≡ decode_kind p (decode_object p f) (kind_of type) rest
  unfolding decode_object
  decode_object-type_bytes f type rest h =
      ap (λ r. r >>= λ (t, r'). decode_kind p (decode_object p f) (kind_of t) r')
        (read_uint-le_bytes 4 type rest h)

  -- A slice behind its size and type, as texts and buffers have it.
  abbrev pub block : (type n : ℕ) → Bytes → Bytes
  block type n s = type_bytes type ++ (le_bytes 4 n ++ (s ++ padding n))

  pub encode_data-block :
      (bytes b : Bytes)
      → encode_data p bytes ≡ ok b
      → (length bytes < 2 ^ 32) × (b ≡ block 0x8000 (length bytes) bytes)
  unfolding encode_data
  encode_data-block bytes b e =
      let parts = bind-eq-ok (write_uint 4 (length bytes)) body e in
      let size = write_uint-eq-ok 4 (length bytes) parts.0 parts.1 in
      (
        size.0,
        sym (ok-injective parts.2)
            ∙ ap (λ t. type_bytes 0x8000 ++ (t ++ (bytes ++ padding (length bytes)))) size.1,
      )
    where
      body : Bytes → Result Error Bytes
      body size = ok (type_bytes 0x8000 ++ (size ++ (bytes ++ padding (length bytes))))

  pub encode_string-block :
      (text : Text) (b : Bytes)
      → encode_string p text ≡ ok b
      → (length (to_utf8 text) + 1 < 2 ^ 32)
        × (b ≡ block 0x9000 (length (to_utf8 text) + 1) (to_utf8 text ++ (0 ∷ [])))
  unfolding encode_string
  encode_string-block text b e =
      let parts = bind-eq-ok (write_uint 4 n) body e in
      let size = write_uint-eq-ok 4 n parts.0 parts.1 in
      (
        size.0,
        sym (ok-injective parts.2)
            ∙ ap (λ t. type_bytes 0x9000 ++ (t ++ (to_utf8 text ++ (0 ∷ padding n)))) size.1
            ∙ ap (λ t. type_bytes 0x9000 ++ (le_bytes 4 n ++ t))
                (sym (append_assoc (to_utf8 text) (0 ∷ []) (padding n))),
      )
    where
      n : ℕ
      n = length (to_utf8 text) + 1

      body : Bytes → Result Error Bytes
      body size = ok (type_bytes 0x9000 ++ (size ++ (to_utf8 text ++ (0 ∷ padding n))))

  pub encode_data-read :
      (bytes b rest : Bytes) (f : ℕ)
      → encode_data p bytes ≡ ok b
      → decode_object p (suc f) (b ++ rest) ≡ ok (buf bytes, rest)
  unfolding decode_data kind_of decode_kind
  encode_data-read bytes b rest f e =
      let n = length bytes in
      let shape = encode_data-block bytes b e in
      rw (shape.1) (
        decode_object-type_bytes f 0x8000 (le_bytes 4 n ++ ((bytes ++ padding n) ++ rest))
          (omega arith)
        ∙ rw (
          read_uint-le_bytes 4 n ((bytes ++ padding n) ++ rest) shape.0,
          take-padded n bytes rest refl,
          drop-padded n bytes rest refl,
        ))

  pub encode_string-read :
      (text : Text) (b rest : Bytes) (f : ℕ)
      → NoNulls (to_utf8 text)
      → encode_string p text ≡ ok b
      → decode_object p (suc f) (b ++ rest) ≡ ok (str (seen_text p text), rest)
  unfolding decode_string kind_of decode_kind
  encode_string-read text b rest f h e = rw (shape.1) (
      decode_object-type_bytes f 0x9000 (le_bytes 4 n ++ ((s ++ padding n) ++ rest)) (omega arith)
      ∙ rw (
        read_uint-le_bytes 4 n ((s ++ padding n) ++ rest) shape.0,
        take-padded n s rest size,
        drop-padded n s rest size,
        terminated-append (to_utf8 text) h,
      ))
    where
      n : ℕ
      n = length (to_utf8 text) + 1

      s : Bytes
      s = to_utf8 text ++ (0 ∷ [])

      shape : (n < 2 ^ 32) × (b ≡ block 0x9000 n s)
      shape = encode_string-block text b e

      size : n ≡ length s
      size = sym (length-append (to_utf8 text) (0 ∷ []))

  -- A number, by whether it is an integer.
  pub encode_number-bytes :
      (x : Number) (b : Bytes)
      → encode_number p x ≡ ok b
      → ((to_int x ≡ none) × (b ≡ type_bytes 0x5000 ++ write_double_le x))
        ⊎ ((z : ℤ) × (to_int x ≡ some z)
            × (fits_signed (2 ^ 63) z ≡ true)
            × (b ≡ type_bytes 0x3000 ++ le_bytes 8 (of_signed (2 ^ 63) z)))
  unfolding encode_number
  encode_number-bytes x b e = go (to_int x) refl e
    where
      Shape : Option ℤ → Type 0
      Shape r =
          ((r ≡ none) × (b ≡ type_bytes 0x5000 ++ write_double_le x))
          ⊎ ((z : ℤ) × (r ≡ some z)
              × (fits_signed (2 ^ 63) z ≡ true)
              × (b ≡ type_bytes 0x3000 ++ le_bytes 8 (of_signed (2 ^ 63) z)))

      integer : Bytes → Result Error Bytes
      integer t = ok (type_bytes 0x3000 ++ t)

      written : Option ℤ → Result Error Bytes
      written r = elim r [
        | none ↦ ok (type_bytes 0x5000 ++ write_double_le x)
        | some z ↦ write_big_int64_le z >>= integer
      ]

      go : (r : Option ℤ) → to_int x ≡ r → written r ≡ ok b → Shape r
      go none k e = inl (refl, sym (ok-injective e))
      go (some z) k e =
          let parts = bind-eq-ok (write_big_int64_le z) integer e in
          let word = write_big_int64_le-eq-ok z parts.0 parts.1 in
          inr
            (z, refl, word.0, sym (ok-injective parts.2) ∙ ap (λ t. type_bytes 0x3000 ++ t) word.1)

  pub decode_object-int64 :
      (z : ℤ) (f : ℕ) (rest : Bytes)
      → fits_signed (2 ^ 63) z ≡ true
      → decode_object p (suc f) (type_bytes 0x3000 ++ (le_bytes 8 (of_signed (2 ^ 63) z) ++ rest))
        ≡ ok (num (of_int z), rest)
  unfolding kind_of decode_kind
  decode_object-int64 z f rest h =
      decode_object-type_bytes f 0x3000 (le_bytes 8 (of_signed (2 ^ 63) z) ++ rest) (omega arith)
      ∙ ap (λ r. r >>= λ (y, t). ok (num (of_int y), t)) (read_big_int64_le-of_signed z rest h)

  pub decode_object-double :
      (x : Number) (f : ℕ) (rest : Bytes)
      → IsPlatform p
      → decode_object p (suc f) (type_bytes 0x5000 ++ (write_double_le x ++ rest))
        ≡ ok (num x, rest)
  unfolding kind_of decode_kind decode_double
  decode_object-double x f rest v =
      decode_object-type_bytes f 0x5000 (write_double_le x ++ rest) (omega arith)
      ∙ rw (
        le→ltb (length (write_double_le x ++ rest)) 8
            (omega (arith, length-append (write_double_le x) rest, v.double_size x)),
        take-length 8 (write_double_le x) rest (sym (v.double_size x)),
        drop-length 8 (write_double_le x) rest (sym (v.double_size x)),
        v.read-write_double_le x,
      )
