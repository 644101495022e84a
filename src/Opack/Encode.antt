-- ===== src/Opack/Encode.antt =====
-- `Opack2.dumps`.
use appium_ios_remotexpc.Prelude.{
  ℕ, ◌+◌, true, false, none, some, [], ◌∷◌, ◌++◌, ltb, leb, if◌then◌else◌, length,
}
use appium_ios_remotexpc.Prelude.Result.{Result, ok, err, ◌>>=◌}
use appium_ios_remotexpc.Prelude.Bytes.{Bytes, le_bytes, be_bytes}
use appium_ios_remotexpc.Opack.Value.{
  Platform, Value, Items, Fields, null, undefined, bool, num, str, buf, arr, obj, nil, cons, end,
  field, count, count_fields, Error, number_too_large, too_long, max_safe_integer,
}

-- `encodeString` and `encodeBytes` choose the header by the same ladder: the length in the marker,
-- then in 1, 2 or 4 bytes behind it.
unfoldable pub sized_header : ℕ → ℕ → ℕ → Result Error Bytes
sized_header base marker size =
    if leb size 0x20
    then ok ((base + size) ∷ [])
    else if leb size 0xff
    then ok (marker ∷ size ∷ [])
    else if leb size 0xffff
    then ok ((marker + 1) ∷ be_bytes 2 size)
    else if leb size 0xffff_ffff
    then ok ((marker + 2) ∷ be_bytes 4 size)
    else err too_long

unfoldable pub encode_bytes : Bytes → Result Error Bytes
encode_bytes bytes = sized_header 0x70 0x91 (length bytes) >>= λ header. ok (header ++ bytes)

-- The integers of `encodeNumber`.
unfoldable pub encode_uint : ℕ → Result Error Bytes
encode_uint n =
    if leb n 0x27
    then ok ((n + 8) ∷ [])
    else if leb n 0xff
    then ok (0x30 ∷ n ∷ [])
    else if leb n 0xffff_ffff
    then ok (0x32 ∷ le_bytes 4 n)
    else if leb n max_safe_integer
    then ok (0x33 ∷ le_bytes 8 n)
    else err number_too_large

-- `encodeArray` behind the encoding of the items: up to 15 items the count is in the marker.
unfoldable pub wrap_items : ℕ → Bytes → Bytes
wrap_items n items = if leb n 15 then (0xd0 + n) ∷ items else 0xdf ∷ (items ++ (0x03 ∷ []))

-- `encodeDict`: fewer than 15 entries have the count in the marker.
unfoldable pub wrap_fields : ℕ → Bytes → Bytes
wrap_fields n fields =
    if ltb n 15 then (0xe0 + n) ∷ fields else 0xef ∷ (fields ++ (0x03 ∷ 0x03 ∷ []))

module _ (p : Platform) where
  open p use {Text, Number, to_utf8, to_uint, write_float_le}

  unfoldable pub encode_string : Text → Result Error Bytes
  encode_string text =
      let encoded = to_utf8 text in
      sized_header 0x40 0x61 (length encoded) >>= λ header. ok (header ++ encoded)

  unfoldable pub encode_number : Number → Result Error Bytes
  encode_number x = elim (to_uint x) [
    | none ↦ ok (0x35 ∷ write_float_le x)
    | some n ↦ encode_uint n
  ]

  unfoldable mutual
    pub encode : Value Text Number → Result Error Bytes
    encode null = ok (0x03 ∷ [])
    encode undefined = ok (0x03 ∷ [])
    encode (bool true) = ok (0x01 ∷ [])
    encode (bool false) = ok (0x02 ∷ [])
    encode (num x) = encode_number x
    encode (str text) = encode_string text
    encode (buf bytes) = encode_bytes bytes
    encode (arr items) = encode_items items >>= λ parts. ok (wrap_items (count items) parts)
    encode (obj fields) =
        encode_fields fields >>= λ parts. ok (wrap_fields (count_fields fields) parts)

    pub encode_items : Items Text Number → Result Error Bytes
    encode_items nil = ok []
    encode_items (cons v vs) = do first ← encode v; others ← encode_items vs; ok (first ++ others)

    pub encode_fields : Fields Text Number → Result Error Bytes
    encode_fields end = ok []
    encode_fields (field key v fields) = do
      k ← encode_string key
      first ← encode v
      others ← encode_fields fields
      ok (k ++ (first ++ others))

  unfoldable pub dumps : Value Text Number → Result Error Bytes
  dumps v = encode v
