-- ===== src/Xpc/Encode.antt =====
-- `encodeMessage` of src/lib/remote-xpc/xpc-protocol.ts.
use appium_ios_remotexpc.Prelude.{ℕ, ◌+◌, Option, none, some, [], ◌∷◌, ◌++◌, if◌then◌else◌, length}
use appium_ios_remotexpc.Prelude.Result.{Result, ok, ◌>>=◌}
use appium_ios_remotexpc.Prelude.Bytes.{Bytes, le_bytes}
use appium_ios_remotexpc.Prelude.Int.{ℤ}
use appium_ios_remotexpc.Xpc.Value.{
  Platform, Value, Items, Fields, null, undefined, bool, num, big, str, date, uuid, buf, arr, obj,
  nil, cons, end, field, count, count_fields, Error,
}
use appium_ios_remotexpc.Xpc.Bits.{
  write_uint, write_big_uint64_le, write_big_int64_le, padding, times,
}

-- `XPC_TYPES`, each as the bytes that are written.
abbrev pub type_bytes : ℕ → Bytes
type_bytes type = le_bytes 4 type

abbrev pub wrapper_magic : ℕ
wrapper_magic = 0x29b0_0b92

abbrev pub object_magic : ℕ
object_magic = 0x4213_3742

abbrev pub body_version : ℕ
body_version = 5

-- `XPCMessage`, its defaults filled in.
pub record Message (Text Number : Type 0) : Type 0 where
  pub flags : ℕ
  pub id : ℤ
  pub body : Option (Fields Text Number)

module _ (p : Platform) where
  open p use {Text, Number, to_utf8, to_int, write_double_le}

  unfoldable pub encode_string : Text → Result Error Bytes
  encode_string text = do
    let bytes = to_utf8 text
    size ← write_uint 4 (length bytes + 1)
    ok (type_bytes 0x9000 ++ (size ++ (bytes ++ (0 ∷ padding (length bytes + 1)))))

  unfoldable pub encode_data : Bytes → Result Error Bytes
  encode_data bytes = do
    size ← write_uint 4 (length bytes)
    ok (type_bytes 0x8000 ++ (size ++ (bytes ++ padding (length bytes))))

  unfoldable pub encode_number : Number → Result Error Bytes
  encode_number x = elim (to_int x) [
    | none ↦ ok (type_bytes 0x5000 ++ write_double_le x)
    | some z ↦ write_big_int64_le z >>= λ b. ok (type_bytes 0x3000 ++ b)
  ]

  -- A counted payload behind its type and its length.
  unfoldable pub wrap : (type : ℕ) (n : ℕ) → Bytes → Result Error Bytes
  wrap type n items = do
    number ← write_uint 4 n
    size ← write_uint 4 (length (number ++ items))
    ok (type_bytes type ++ (size ++ (number ++ items)))

  -- `encodeDictionaryKey`
  unfoldable pub encode_dictionary_key : Text → Bytes
  encode_dictionary_key key = let bytes = to_utf8 key in bytes ++ (0 ∷ padding (length bytes + 1))

  -- `encodeObject`
  unfoldable mutual
    pub encode_object : Value Text Number → Result Error Bytes
    encode_object null = ok (type_bytes 0x1000)
    encode_object undefined = ok (type_bytes 0x1000)
    encode_object (bool b) = ok (type_bytes 0x2000 ++ ((if b then 1 else 0) ∷ 0 ∷ 0 ∷ 0 ∷ []))
    encode_object (num x) = encode_number x
    encode_object (big z) = write_big_uint64_le z >>= λ b. ok (type_bytes 0x4000 ++ b)
    encode_object (str text) = encode_string text
    encode_object (date ms) =
        write_big_int64_le (times ms 1_000_000) >>= λ b. ok (type_bytes 0x7000 ++ b)
    encode_object (uuid bytes) = ok (type_bytes 0xa000 ++ bytes)
    encode_object (buf bytes) = encode_data bytes
    encode_object (arr items) = encode_items items >>= wrap 0xe000 (count items)
    encode_object (obj fields) = encode_fields fields >>= wrap 0xf000 (count_fields fields)

    pub encode_items : Items Text Number → Result Error Bytes
    encode_items nil = ok []
    encode_items (cons v vs) = do
      first ← encode_object v
      others ← encode_items vs
      ok (first ++ others)

    pub encode_fields : Fields Text Number → Result Error Bytes
    encode_fields end = ok []
    encode_fields (field key v fields) = do
      first ← encode_object v
      others ← encode_fields fields
      ok (encode_dictionary_key key ++ (first ++ others))

  -- `encodeDictionary`
  unfoldable pub encode_dictionary : Fields Text Number → Result Error Bytes
  encode_dictionary fields = encode_fields fields >>= wrap 0xf000 (count_fields fields)

  abbrev pub encode_header : Message Text Number → ℕ → Result Error Bytes
  encode_header m size = do
    flags ← write_uint 4 m.flags
    body_size ← write_uint 8 size
    id ← write_big_uint64_le m.id
    ok (type_bytes wrapper_magic ++ (flags ++ (body_size ++ id)))

  -- `encodeMessage`
  unfoldable pub encode_message : Message Text Number → Result Error Bytes
  encode_message m = elim m.body [
    | none ↦ encode_header m 0
    | some body ↦ do
      bytes ← encode_dictionary body
      header ← encode_header m (length bytes + 8)
      ok (header ++ (type_bytes object_magic ++ (type_bytes body_version ++ bytes)))
  ]
