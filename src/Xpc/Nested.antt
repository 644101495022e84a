-- ===== src/Xpc/Nested.antt =====
-- `decodeObject` on numbers, dates and UUIDs, and on arrays and dictionaries over their items.
use appium_ios_remotexpc.Prelude.{
  ℕ, suc, ◌+◌, ◌^◌, ◌<◌, ◌≡◌, sym, ap, ◌∙◌, ◌⊎◌, inl, inr, Bool, true, false, not, none, some, [],
  ◌∷◌, ◌++◌, append_assoc, arith, ◌==◌, if◌then◌else◌, length, drop, take-length, drop-length,
}
use appium_ios_remotexpc.Prelude.Result.{Result, ok, ◌>>=◌, bind-eq-ok, ok-injective}
use appium_ios_remotexpc.Prelude.Bytes.{Bytes, le_bytes}
use appium_ios_remotexpc.Prelude.Int.{ℤ, pos, of_signed, fits_signed}
use appium_ios_remotexpc.Xpc.Value.{
  Platform, IsPlatform, Items, Fields, bool, num, big, str, date, arr, obj, end, Error,
}
use appium_ios_remotexpc.Xpc.Bits.{
  write_uint, write_big_uint64_le, write_big_int64_le, padding, times, quotient,
}
use appium_ios_remotexpc.Xpc.Encode.{
  type_bytes, encode_object, encode_number, wrap, encode_dictionary_key,
}
use appium_ios_remotexpc.Xpc.Decode.{
  Decoder, kind_of, decode_bool, decode_uuid, decode_items, decode_array, read_dictionary_key,
  decode_fields, decode_dictionary, decode_kind, decode_object,
}
use appium_ios_remotexpc.Xpc.BitsLaws.{
  read_uint-le_bytes, write_uint-eq-ok, write_big_int64_le-eq-ok, read_big_int64_le-of_signed,
  write_big_uint64_le-eq-ok, quotient-times, read_key_bytes-append, drop-padding,
}
use appium_ios_remotexpc.Xpc.Seen.{seen, seen_text, seen_number, IsKey}
use appium_ios_remotexpc.Xpc.Parts.{
  decode_object-type_bytes, encode_number-bytes, decode_object-int64, decode_object-double,
}

module _ (p : Platform) where
  open p use {Text, Number, to_utf8, of_utf8, to_int, of_int, write_double_le, to_hex, utf16_length}

  pub encode_number-read :
      (x : Number) (b rest : Bytes) (f : ℕ)
      → IsPlatform p
      → encode_number p x ≡ ok b
      → decode_object p (suc f) (b ++ rest) ≡ ok (num (seen_number p (to_int x) x), rest)
  encode_number-read x b rest f v e = go (encode_number-bytes p x b e)
    where
      go :
          ((to_int x ≡ none) × (b ≡ type_bytes 0x5000 ++ write_double_le x))
            ⊎ ((z : ℤ) × (to_int x ≡ some z)
                × (fits_signed (2 ^ 63) z ≡ true)
                × (b ≡ type_bytes 0x3000 ++ le_bytes 8 (of_signed (2 ^ 63) z)))
          → decode_object p (suc f) (b ++ rest) ≡ ok (num (seen_number p (to_int x) x), rest)
      go (inl h) = rw (h.1, h.0) (decode_object-double p x f rest v)
      go (inr h) = rw (h.3, h.1) (decode_object-int64 p h.0 f rest h.2)

  pub encode_date-read :
      (ms : ℤ) (b rest : Bytes) (f : ℕ)
      → encode_object p (date ms) ≡ ok b
      → decode_object p (suc f) (b ++ rest) ≡ ok (date ms, rest)
  unfolding encode_object kind_of decode_kind
  encode_date-read ms b rest f e =
      let parts = bind-eq-ok (write_big_int64_le (times ms 1_000_000)) tagged e in
      let word = write_big_int64_le-eq-ok (times ms 1_000_000) parts.0 parts.1 in
      let shape : b ≡ type_bytes 0x7000 ++ le_bytes 8 (of_signed (2 ^ 63) (times ms 1_000_000)) =
        sym (ok-injective parts.2) ∙ ap (λ t. type_bytes 0x7000 ++ t) word.1 in
      rw shape (
        decode_object-type_bytes p f 0x7000
          (le_bytes 8 (of_signed (2 ^ 63) (times ms 1_000_000)) ++ rest) (omega arith)
        ∙ ap (λ r. r >>= λ (z, t). ok (date (quotient z 1_000_000), t))
            (read_big_int64_le-of_signed (times ms 1_000_000) rest word.0)
        ∙ ap (λ z. ok (date z, rest)) (quotient-times ms))
    where
      tagged : Bytes → Result Error Bytes
      tagged t = ok (type_bytes 0x7000 ++ t)

  pub encode_big-read :
      (z : ℤ) (b rest : Bytes) (f : ℕ)
      → encode_object p (big z) ≡ ok b
      → decode_object p (suc f) (b ++ rest) ≡ ok (seen p (big z), rest)
  unfolding encode_object kind_of decode_kind seen
  encode_big-read z b rest f e =
      let parts = bind-eq-ok (write_big_uint64_le z) tagged e in
      let word = write_big_uint64_le-eq-ok z parts.0 parts.1 in
      let n = word.0 in
      let shape : b ≡ type_bytes 0x4000 ++ le_bytes 8 n =
        sym (ok-injective parts.2) ∙ ap (λ t. type_bytes 0x4000 ++ t) word.3 in
      rw (shape, word.1)
        (decode_object-type_bytes p f 0x4000 (le_bytes 8 n ++ rest) (omega arith)
          ∙ ap (λ r. r >>= λ (k, t). ok (num (of_int (pos k)), t))
              (read_uint-le_bytes 8 n rest word.2))
    where
      tagged : Bytes → Result Error Bytes
      tagged t = ok (type_bytes 0x4000 ++ t)

  pub decode_object-uuid :
      (bytes rest : Bytes) (f : ℕ)
      → length bytes ≡ 16
      → decode_object p (suc f) ((type_bytes 0xa000 ++ bytes) ++ rest)
        ≡ ok (str (to_hex bytes), rest)
  unfolding kind_of decode_kind decode_uuid
  decode_object-uuid bytes rest f h =
      decode_object-type_bytes p f 0xa000 (bytes ++ rest) (omega arith)
      ∙ rw (take-length 16 bytes rest (sym h), drop-length 16 bytes rest (sym h))

  pub decode_object-bool :
      (c : Bool) (rest : Bytes) (f : ℕ)
      → decode_object p (suc f) (type_bytes 0x2000 ++ ((if c then 1 else 0) ∷ 0 ∷ 0 ∷ 0 ∷ rest))
        ≡ ok (bool c, rest)
  unfolding kind_of decode_kind decode_bool
  decode_object-bool true rest f =
      decode_object-type_bytes p f 0x2000 (1 ∷ 0 ∷ 0 ∷ 0 ∷ rest) (omega arith)
      ∙ ap (λ r. r >>= λ (t, r'). ok (bool (not (t == 0)), drop 3 r'))
          (read_uint-le_bytes 1 1 (0 ∷ 0 ∷ 0 ∷ rest) (omega arith))
  decode_object-bool false rest f =
      decode_object-type_bytes p f 0x2000 (0 ∷ 0 ∷ 0 ∷ 0 ∷ rest) (omega arith)
      ∙ ap (λ r. r >>= λ (t, r'). ok (bool (not (t == 0)), drop 3 r'))
          (read_uint-le_bytes 1 0 (0 ∷ 0 ∷ 0 ∷ rest) (omega arith))

  -- A counted payload, with its size and its type.
  abbrev pub wrapped : (type n : ℕ) → Bytes → Bytes
  wrapped type n items =
      type_bytes type ++ (le_bytes 4 (4 + length items) ++ (le_bytes 4 n ++ items))

  pub wrap-eq-ok :
      (type n : ℕ) (items b : Bytes)
      → wrap p type n items ≡ ok b
      → (n < 2 ^ 32) × (4 + length items < 2 ^ 32) × (b ≡ wrapped type n items)
  unfolding wrap
  wrap-eq-ok type n items b e =
      let first = bind-eq-ok (write_uint 4 n) sized e in
      let number = write_uint-eq-ok 4 n first.0 first.1 in
      let second = bind-eq-ok (write_uint 4 (length (first.0 ++ items))) (tagged first.0) first.2 in
      let size = write_uint-eq-ok 4 (length (first.0 ++ items)) second.0 second.1 in
      let same : length (first.0 ++ items) ≡ 4 + length items =
        omega (arith, ap (λ t. length (t ++ items)) number.1) in
      (
        number.0,
        omega (arith, size.0, same),
        sym (ok-injective second.2)
            ∙ ap (λ t. type_bytes type ++ (t ++ (first.0 ++ items))) (size.1 ∙ ap (le_bytes 4) same)
            ∙ ap (λ t. type_bytes type ++ (le_bytes 4 (4 + length items) ++ (t ++ items))) number.1,
      )
    where
      tagged : Bytes → Bytes → Result Error Bytes
      tagged number size = ok (type_bytes type ++ (size ++ (number ++ items)))

      sized : Bytes → Result Error Bytes
      sized number = write_uint 4 (length (number ++ items)) >>= tagged number

  pub decode_array-wrapped :
      (dec : Decoder p) (n : ℕ) (items rest : Bytes) (vs : Items Text Number)
      → n < 2 ^ 32
      → 4 + length items < 2 ^ 32
      → decode_items p dec n items ≡ ok (vs, [])
      → decode_array p dec (le_bytes 4 (4 + length items) ++ ((le_bytes 4 n ++ items) ++ rest))
        ≡ ok (arr vs, rest)
  unfolding decode_array
  decode_array-wrapped dec n items rest vs h k e =
      let payload = le_bytes 4 n ++ items in
      rw (
        read_uint-le_bytes 4 (4 + length items) (payload ++ rest) k,
        take-length (4 + length items) payload rest (omega arith),
        drop-length (4 + length items) payload rest (omega arith),
        read_uint-le_bytes 4 n items h,
        e,
      )

  pub decode_dictionary-wrapped :
      (dec : Decoder p) (n : ℕ) (items rest : Bytes) (fs : Fields Text Number)
      → n < 2 ^ 32
      → 4 + length items < 2 ^ 32
      → decode_fields p dec n items end ≡ ok fs
      → decode_dictionary p dec (le_bytes 4 (4 + length items) ++ ((le_bytes 4 n ++ items) ++ rest))
        ≡ ok (obj fs, rest)
  unfolding decode_dictionary
  decode_dictionary-wrapped dec n items rest fs h k e =
      let payload = le_bytes 4 n ++ items in
      rw (
        read_uint-le_bytes 4 (4 + length items) (payload ++ rest) k,
        take-length (4 + length items) payload rest (omega arith),
        drop-length (4 + length items) payload rest (omega arith),
        read_uint-le_bytes 4 n items h,
        e,
      )

  pub read_dictionary_key-encode :
      (key : Text) (rest : Bytes)
      → IsKey p key
      → read_dictionary_key p (encode_dictionary_key p key ++ rest) ≡ ok (seen_text p key, rest)
  unfolding read_dictionary_key encode_dictionary_key
  read_dictionary_key-encode key rest v =
      let bytes = to_utf8 key in
      let n = length bytes + 1 in
      rw
        (
          append_assoc bytes (0 ∷ padding n) rest,
          read_key_bytes-append bytes (padding n ++ rest) v.no_nulls,
          v.same_padding,
        )
        (ap (λ t. ok (seen_text p key, t)) (drop-padding n rest))
