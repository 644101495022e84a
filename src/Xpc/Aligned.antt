-- ===== src/Xpc/Aligned.antt =====
-- The sizes of encoded objects of src/lib/remote-xpc/xpc-protocol.ts.
use appium_ios_remotexpc.Prelude.{
  ℕ, ◌+◌, ◌%◌, ◌^◌, ◌≡◌, refl, sym, true, false, Option, none, some, [], ◌∷◌, ◌++◌, arith, length,
  length-append,
}
use appium_ios_remotexpc.Prelude.Result.{Result, ok, ◌>>=◌, bind-eq-ok, ok-injective}
use appium_ios_remotexpc.Prelude.Bytes.{Bytes, le_bytes}
use appium_ios_remotexpc.Prelude.Int.{ℤ, of_signed}
use mathlib.Core.Path.{subst}
use appium_ios_remotexpc.Xpc.Value.{
  Platform, IsPlatform, Value, Items, Fields, null, undefined, bool, num, big, str, date, uuid, buf,
  arr, obj, nil, cons, end, field, count, count_fields, Error,
}
use appium_ios_remotexpc.Xpc.Bits.{write_big_int64_le, write_big_uint64_le, padding, times}
use appium_ios_remotexpc.Xpc.Encode.{
  type_bytes, encode_object, encode_items, encode_fields, encode_dictionary_key, encode_number,
  encode_data, encode_string, wrap,
}
use appium_ios_remotexpc.Xpc.BitsLaws.{
  write_big_int64_le-eq-ok, write_big_uint64_le-eq-ok, length-padding,
}
use appium_ios_remotexpc.Xpc.Parts.{block, encode_data-block, encode_string-block}
use appium_ios_remotexpc.Xpc.Nested.{wrap-eq-ok}

-- Whole words of 4 bytes.
abbrev pub IsAligned : Bytes → Type 0
IsAligned b = length b % 4 ≡ 0

append-IsAligned : (a b : Bytes) → IsAligned a → IsAligned b → IsAligned (a ++ b)
append-IsAligned a b h k = omega (arith, length-append a b)

le_bytes-IsAligned : (v : ℕ) → IsAligned (le_bytes 8 v)
le_bytes-IsAligned v = omega arith

module _ (p : Platform) (v : IsPlatform p) where
  open p use {Text, Number, to_utf8, to_int, write_double_le}

  -- The encoding of an object, of items or of entries takes whole words.
  abbrev pub Aligns : Result Error Bytes → Type 0
  Aligns r = (b : Bytes) → r ≡ ok b → IsAligned b

  unfoldable mutual
    -- The UUIDs of a value have 16 bytes.
    pub HasWholeUuids : Value Text Number → Type 0
    HasWholeUuids null = Unit {0}
    HasWholeUuids undefined = Unit {0}
    HasWholeUuids (bool b) = Unit {0}
    HasWholeUuids (num x) = Unit {0}
    HasWholeUuids (big z) = Unit {0}
    HasWholeUuids (str t) = Unit {0}
    HasWholeUuids (date ms) = Unit {0}
    HasWholeUuids (uuid bytes) = length bytes ≡ 16
    HasWholeUuids (buf bytes) = Unit {0}
    HasWholeUuids (arr items) = HaveWholeUuids items
    HasWholeUuids (obj fields) = FieldsHaveWholeUuids fields

    pub HaveWholeUuids : Items Text Number → Type 0
    HaveWholeUuids nil = Unit {0}
    HaveWholeUuids (cons x xs) = HasWholeUuids x × HaveWholeUuids xs

    pub FieldsHaveWholeUuids : Fields Text Number → Type 0
    FieldsHaveWholeUuids end = Unit {0}
    FieldsHaveWholeUuids (field key x fs) = HasWholeUuids x × FieldsHaveWholeUuids fs

  block-IsAligned : (type n : ℕ) (s : Bytes) → n ≡ length s → IsAligned (block p type n s)
  block-IsAligned type n s h = omega (arith, length-append s (padding n), length-padding n)

  ok-Aligns : (b : Bytes) → IsAligned b → Aligns (ok b)
  ok-Aligns b h c e = subst IsAligned (ok-injective e) h

  -- What is written behind a type.
  tagged-Aligns :
      (type : ℕ) (m : Result Error Bytes) → Aligns m → Aligns (m >>= λ t. ok (type_bytes type ++ t))
  tagged-Aligns type m h b e =
      let parts = bind-eq-ok m (λ t. ok (type_bytes type ++ t)) e in
      ok-Aligns (type_bytes type ++ parts.0) (omega (arith, h parts.0 parts.1)) b parts.2

  write_big_int64_le-Aligns : (z : ℤ) → Aligns (write_big_int64_le z)
  write_big_int64_le-Aligns z b e =
      subst IsAligned (sym (write_big_int64_le-eq-ok z b e).1)
        (le_bytes-IsAligned (of_signed (2 ^ 63) z))

  write_big_uint64_le-Aligns : (z : ℤ) → Aligns (write_big_uint64_le z)
  write_big_uint64_le-Aligns z b e =
      let found = write_big_uint64_le-eq-ok z b e in
      subst IsAligned (sym found.3) (le_bytes-IsAligned found.0)

  encode_number-Aligns : (x : Number) → Aligns (encode_number p x)
  unfolding encode_number
  encode_number-Aligns x = go (to_int x)
    where
      go :
          (r : Option ℤ)
          → Aligns (elim r [
            | none ↦ ok (type_bytes 0x5000 ++ write_double_le x)
            | some z ↦ write_big_int64_le z >>= λ b. ok (type_bytes 0x3000 ++ b)
          ])
      go none = ok-Aligns (type_bytes 0x5000 ++ write_double_le x) (omega (arith, v.double_size x))
      go (some z) = tagged-Aligns 0x3000 (write_big_int64_le z) (write_big_int64_le-Aligns z)

  encode_data-Aligns : (bytes : Bytes) → Aligns (encode_data p bytes)
  encode_data-Aligns bytes b e =
      subst IsAligned (sym (encode_data-block p bytes b e).1)
        (block-IsAligned 0x8000 (length bytes) bytes refl)

  encode_string-Aligns : (text : Text) → Aligns (encode_string p text)
  encode_string-Aligns text b e = subst IsAligned (sym (encode_string-block p text b e).1) (
      block-IsAligned 0x9000 (length (to_utf8 text) + 1) (to_utf8 text ++ (0 ∷ []))
        (sym (length-append (to_utf8 text) (0 ∷ []))))

  encode_dictionary_key-IsAligned : (key : Text) → IsAligned (encode_dictionary_key p key)
  unfolding encode_dictionary_key
  encode_dictionary_key-IsAligned key =
      let n = length (to_utf8 key) + 1 in
      omega (arith, length-append (to_utf8 key) (0 ∷ padding n), length-padding n)

  wrap-Aligns : (type n : ℕ) (m : Result Error Bytes) → Aligns m → Aligns (m >>= wrap p type n)
  wrap-Aligns type n m h b e =
      let parts = bind-eq-ok m (wrap p type n) e in
      subst IsAligned (sym (wrap-eq-ok p type n parts.0 b parts.2).2)
        (omega (arith, h parts.0 parts.1))

  -- Two encodings, one behind the other.
  pair-Aligns :
      (pre : Bytes) (m k : Result Error Bytes)
      → IsAligned pre
      → Aligns m
      → Aligns k
      → Aligns (m >>= λ a. k >>= λ b. ok (pre ++ (a ++ b)))
  pair-Aligns pre m k hp hm hk b e =
      let first = bind-eq-ok m (λ a. k >>= λ c. ok (pre ++ (a ++ c))) e in
      let second = bind-eq-ok k (λ c. ok (pre ++ (first.0 ++ c))) first.2 in
      ok-Aligns (pre ++ (first.0 ++ second.0))
        (append-IsAligned pre (first.0 ++ second.0) hp
          (append-IsAligned first.0 second.0 (hm first.0 first.1) (hk second.0 second.1)))
        b second.2

  mutual
    unfolding encode_object encode_items encode_fields HasWholeUuids HaveWholeUuids
        FieldsHaveWholeUuids

    aligns : (x : Value Text Number) → HasWholeUuids x → Aligns (encode_object p x)
    aligns null h = ok-Aligns _ refl
    aligns undefined h = ok-Aligns _ refl
    aligns (bool true) h = ok-Aligns _ refl
    aligns (bool false) h = ok-Aligns _ refl
    aligns (num x) h = encode_number-Aligns x
    aligns (big z) h = tagged-Aligns 0x4000 (write_big_uint64_le z) (write_big_uint64_le-Aligns z)
    aligns (str t) h = encode_string-Aligns t
    aligns (date ms) h =
        tagged-Aligns 0x7000 (write_big_int64_le (times ms 1_000_000))
          (write_big_int64_le-Aligns (times ms 1_000_000))
    aligns (uuid bytes) h = ok-Aligns (type_bytes 0xa000 ++ bytes) (omega (arith, h))
    aligns (buf bytes) h = encode_data-Aligns bytes
    aligns (arr xs) h = wrap-Aligns 0xe000 (count xs) (encode_items p xs) (items_align xs h)
    aligns (obj fs) h =
        wrap-Aligns 0xf000 (count_fields fs) (encode_fields p fs) (fields_align fs h)

    items_align : (xs : Items Text Number) → HaveWholeUuids xs → Aligns (encode_items p xs)
    items_align nil h = ok-Aligns [] refl
    items_align (cons x xs) h =
        pair-Aligns [] (encode_object p x) (encode_items p xs) refl (aligns x h.0)
          (items_align xs h.1)

    fields_align : (fs : Fields Text Number) → FieldsHaveWholeUuids fs → Aligns (encode_fields p fs)
    fields_align end h = ok-Aligns [] refl
    fields_align (field key x fs) h =
        pair-Aligns (encode_dictionary_key p key) (encode_object p x) (encode_fields p fs)
          (encode_dictionary_key-IsAligned key) (aligns x h.0) (fields_align fs h.1)

  -- On a platform that works as documented, the encoding of a value whose UUIDs have 16 bytes takes
  -- a number of bytes that is a multiple of 4.
  pub length-encode_object :
      (x : Value Text Number) (b : Bytes)
      → HasWholeUuids x
      → encode_object p x ≡ ok b
      → length b % 4 ≡ 0
  length-encode_object x b h e = aligns x h b e
