-- ===== src/Xpc/Objects.antt =====
-- `decodeObject` of what `encodeObject` wrote, by induction on the object.
use appium_ios_remotexpc.Prelude.{
  ℕ, zero, suc, ◌+◌, ◌<◌, ◌≡◌, refl, sym, ap, ◌∙◌, [], ◌++◌, arith, length, length-append,
}
use appium_ios_remotexpc.Prelude.Result.{Result, ok, ◌>>=◌, bind-eq-ok, ok-injective}
use appium_ios_remotexpc.Prelude.Bytes.{Bytes, le_bytes}
use appium_ios_remotexpc.Xpc.Value.{
  Platform, IsPlatform, Value, Items, Fields, null, undefined, bool, num, big, str, date, uuid, buf,
  arr, obj, nil, cons, end, field, count, count_fields, Error,
}
use appium_ios_remotexpc.Xpc.Encode.{
  type_bytes, encode_object, encode_items, encode_fields, wrap, encode_dictionary_key,
}
use appium_ios_remotexpc.Xpc.Decode.{
  kind_of, decode_items, set_field, decode_fields, decode_kind, decode_object,
}
use appium_ios_remotexpc.Xpc.Seen.{
  seen, seen_items, seen_fields, seen_text, IsKey, IsReadable, AreReadable, HasReadable,
}
use appium_ios_remotexpc.Xpc.Parts.{decode_object-type_bytes, encode_data-read, encode_string-read}
use appium_ios_remotexpc.Xpc.Nested.{
  encode_number-read, encode_date-read, encode_big-read, decode_object-uuid, decode_object-bool,
  wrap-eq-ok, decode_array-wrapped, decode_dictionary-wrapped, read_dictionary_key-encode,
}

module _ (p : Platform) (v : IsPlatform p) where
  open p use {Text, Number}

  -- What is shown of an object, of the items of an array and of the entries of a dictionary.
  abbrev pub Reads : Value Text Number → Type 0
  Reads x =
      (b : Bytes)
      → encode_object p x ≡ ok b
      → (f : ℕ) → length b < f
      → (rest : Bytes) → decode_object p f (b ++ rest) ≡ ok (seen p x, rest)

  abbrev ReadsItems : Items Text Number → Type 0
  ReadsItems xs =
      (b : Bytes)
      → encode_items p xs ≡ ok b
      → (f : ℕ) → length b < f
      → decode_items p (decode_object p f) (count xs) b ≡ ok (seen_items p xs, [])

  abbrev pub ReadsFields : Fields Text Number → Type 0
  ReadsFields fs =
      (b : Bytes)
      → encode_fields p fs ≡ ok b
      → (f : ℕ) → length b < f
      → (dict : Fields Text Number)
      → decode_fields p (decode_object p f) (count_fields fs) b dict ≡ ok (seen_fields p dict fs)

  -- The statement at a fuel that is not zero.
  positive :
      (x : Value Text Number)
      → ((b : Bytes)
          → encode_object p x ≡ ok b
          → (f : ℕ) → length b < suc f
          → (rest : Bytes) → decode_object p (suc f) (b ++ rest) ≡ ok (seen p x, rest))
      → Reads x
  positive x h b e zero l rest = absurd (omega arith)
  positive x h b e (suc f) l rest = h b e f l rest

  arr-Reads : (xs : Items Text Number) → ReadsItems xs → Reads (arr xs)
  unfolding encode_object kind_of decode_kind seen
  arr-Reads xs h = positive (arr xs) λ b e f l rest.
      let parts = bind-eq-ok (encode_items p xs) (wrap p 0xe000 (count xs)) e in
      let shape = wrap-eq-ok p 0xe000 (count xs) parts.0 b parts.2 in
      let items = parts.0 in
      let short : length items < f = omega (arith, ap length shape.2) in
      rw (shape.2) (
        decode_object-type_bytes p f 0xe000
          (le_bytes 4 (4 + length items) ++ ((le_bytes 4 (count xs) ++ items) ++ rest))
          (omega arith)
        ∙ decode_array-wrapped p (decode_object p f) (count xs) items rest (seen_items p xs) shape.0
            shape.1 (h items parts.1 f short))

  pub obj-Reads : (fs : Fields Text Number) → ReadsFields fs → Reads (obj fs)
  unfolding encode_object kind_of decode_kind seen
  obj-Reads fs h = positive (obj fs) λ b e f l rest.
      let parts = bind-eq-ok (encode_fields p fs) (wrap p 0xf000 (count_fields fs)) e in
      let shape = wrap-eq-ok p 0xf000 (count_fields fs) parts.0 b parts.2 in
      let items = parts.0 in
      let short : length items < f = omega (arith, ap length shape.2) in
      rw (shape.2) (
        decode_object-type_bytes p f 0xf000
          (le_bytes 4 (4 + length items) ++ ((le_bytes 4 (count_fields fs) ++ items) ++ rest))
          (omega arith)
        ∙ decode_dictionary-wrapped p (decode_object p f) (count_fields fs) items rest
            (seen_fields p end fs) shape.0 shape.1 (h items parts.1 f short end))

  cons-ReadsItems :
      (x : Value Text Number) (xs : Items Text Number)
      → Reads x
      → ReadsItems xs
      → ReadsItems (cons x xs)
  unfolding encode_items decode_items seen_items
  cons-ReadsItems x xs hx hxs b e f l =
      let first = bind-eq-ok (encode_object p x) then_items e in
      let others = bind-eq-ok (encode_items p xs) (λ o. ok (first.0 ++ o)) first.2 in
      let shape : b ≡ first.0 ++ others.0 = sym (ok-injective others.2) in
      let size = ap length shape ∙ length-append first.0 others.0 in
      rw shape (
        rw (hx first.0 first.1 f (omega (arith, size)) others.0)
          (rw (hxs others.0 others.1 f (omega (arith, size)))))
    where
      then_items : Bytes → Result Error Bytes
      then_items first = encode_items p xs >>= λ others. ok (first ++ others)

  field-ReadsFields :
      (key : Text) (x : Value Text Number) (fs : Fields Text Number)
      → IsKey p key
      → Reads x
      → ReadsFields fs
      → ReadsFields (field key x fs)
  unfolding encode_fields decode_fields seen_fields
  field-ReadsFields key x fs k hx hfs b e f l dict =
      let first = bind-eq-ok (encode_object p x) then_fields e in
      let others =
        bind-eq-ok (encode_fields p fs) (λ o. ok (encode_dictionary_key p key ++ (first.0 ++ o)))
          first.2 in
      let shape : b ≡ encode_dictionary_key p key ++ (first.0 ++ others.0) =
        sym (ok-injective others.2) in
      let size =
        ap length shape ∙ length-append (encode_dictionary_key p key) (first.0 ++ others.0) in
      let inner = length-append first.0 others.0 in
      rw shape (
        rw
          (
            read_dictionary_key-encode p key (first.0 ++ others.0) k,
            hx first.0 first.1 f (omega (arith, size, inner)) others.0,
          )
          (hfs others.0 others.1 f (omega (arith, size, inner))
            (set_field p (seen_text p key) (seen p x) dict)))
    where
      then_fields : Bytes → Result Error Bytes
      then_fields first =
          encode_fields p fs >>= λ others. ok (encode_dictionary_key p key ++ (first ++ others))

  null-Reads :
      (x : Value Text Number)
      → encode_object p x ≡ ok (type_bytes 0x1000)
      → seen p x ≡ null
      → Reads x
  unfolding kind_of decode_kind
  null-Reads x k s = positive x λ b e f l rest.
      let shape : b ≡ type_bytes 0x1000 = ok-injective (sym e ∙ k) in
      rw (shape, s) (decode_object-type_bytes p f 0x1000 rest (omega arith))

  mutual
    unfolding encode_object encode_items encode_fields seen seen_items seen_fields decode_items
        decode_fields IsReadable AreReadable HasReadable

    pub reads : (x : Value Text Number) → IsReadable p x → Reads x
    reads null h = null-Reads null refl refl
    reads undefined h = null-Reads undefined refl refl
    reads (bool c) h =
        positive (bool c) λ b e f l rest. rw (sym (ok-injective e)) (decode_object-bool p c rest f)
    reads (num x) h = positive (num x) λ b e f l rest. encode_number-read p x b rest f v e
    reads (big z) h = positive (big z) λ b e f l rest. encode_big-read p z b rest f e
    reads (str t) h = positive (str t) λ b e f l rest. encode_string-read p t b rest f h e
    reads (date ms) h = positive (date ms) λ b e f l rest. encode_date-read p ms b rest f e
    reads (uuid bytes) h =
        positive (uuid bytes)
          λ b e f l rest. rw (sym (ok-injective e)) (decode_object-uuid p bytes rest f h)
    reads (buf bytes) h = positive (buf bytes) λ b e f l rest. encode_data-read p bytes b rest f e
    reads (arr xs) h = arr-Reads xs (reads_items xs h)
    reads (obj fs) h = obj-Reads fs (reads_fields fs h)

    reads_items : (xs : Items Text Number) → AreReadable p xs → ReadsItems xs
    reads_items nil h = λ b e f l. ap (λ t. ok (nil, t)) (sym (ok-injective e))
    reads_items (cons x xs) h = cons-ReadsItems x xs (reads x h.0) (reads_items xs h.1)

    pub reads_fields : (fs : Fields Text Number) → HasReadable p fs → ReadsFields fs
    reads_fields end h = λ b e f l dict. refl
    reads_fields (field key x fs) h =
        field-ReadsFields key x fs h.0 (reads x h.1) (reads_fields fs h.2)
