-- ===== src/Xpc/Decode.antt =====
-- `decodeMessage` of src/lib/remote-xpc/xpc-protocol.ts.
use appium_ios_remotexpc.Prelude.{
  ℕ, zero, suc, ◌+◌, ◌-◌, true, false, not, Option, none, some, ltb, leb, ◌==◌, if◌then◌else◌,
  length, take, drop,
}
use appium_ios_remotexpc.Prelude.Result.{Result, ok, err, stuck, ◌>>=◌, ◌>>◌, guard}
use appium_ios_remotexpc.Prelude.Bytes.{Bytes, read_le}
use appium_ios_remotexpc.Prelude.Int.{ℤ, pos}
use appium_ios_remotexpc.Xpc.Value.{
  Platform, Value, Items, Fields, null, bool, num, str, date, buf, arr, obj, nil, cons, end, field,
  Error, out_of_range, unsupported_type, incomplete, invalid_magic, invalid_object_magic,
  unexpected_version, not_dictionary,
}
use appium_ios_remotexpc.Xpc.Bits.{
  read_uint, read_big_int64_le, calc_padding, terminated, read_key_bytes, quotient,
}
use appium_ios_remotexpc.Xpc.Encode.{wrapper_magic, object_magic, body_version}

-- The cases of `decodeObject`.
pub data Kind : Type 0 where
  null_kind bool_kind int64_kind uint64_kind double_kind date_kind data_kind string_kind : Kind
  uuid_kind array_kind dictionary_kind unknown_kind : Kind

unfoldable pub kind_of : ℕ → Kind
kind_of type =
    if type == 0x1000
    then null_kind
    else if type == 0x2000
    then bool_kind
    else if type == 0x3000
    then int64_kind
    else if type == 0x4000
    then uint64_kind
    else if type == 0x5000
    then double_kind
    else if type == 0x7000
    then date_kind
    else if type == 0x8000
    then data_kind
    else if type == 0x9000
    then string_kind
    else if type == 0xa000
    then uuid_kind
    else if type == 0xe000
    then array_kind
    else if type == 0xf000
    then dictionary_kind
    else unknown_kind

-- `getXpcMessageByteLength`
unfoldable pub get_xpc_message_byte_length : Bytes → Result Error ℕ
get_xpc_message_byte_length buffer = do
  guard (leb 24 (length buffer)) incomplete
  guard (read_le 4 buffer 0 == wrapper_magic) invalid_magic
  let total = 24 + read_le 8 buffer 8
  guard (leb total (length buffer)) incomplete
  ok total

module _ (p : Platform) where
  open p use {Text, Number, text_eq, of_utf8, utf16_length, to_hex, of_int, read_double_le}

  -- A value, and what stands behind it.
  abbrev pub Decoder : Type 0
  Decoder = Bytes → Result Error (Value Text Number × Bytes)

  unfoldable pub decode_bool : Decoder
  decode_bool rest = read_uint 1 rest >>= λ (b, rest'). ok (bool (not (b == 0)), drop 3 rest')

  -- `readDoubleLE`
  unfoldable pub decode_double : Decoder
  decode_double rest =
      if ltb (length rest) 8
      then err out_of_range
      else ok (num (read_double_le (take 8 rest)), drop 8 rest)

  -- A slice ends with the buffer, also where it should be longer.
  unfoldable pub decode_data : Decoder
  decode_data rest =
      read_uint 4 rest >>= λ (n, r). ok (buf (take n r), drop (calc_padding n) (drop n r))

  unfoldable pub decode_string : Decoder
  decode_string rest = read_uint 4 rest >>= λ (n, r).
      ok (str (of_utf8 (terminated (take n r))), drop (calc_padding n) (drop n r))

  unfoldable pub decode_uuid : Decoder
  decode_uuid rest = ok (str (to_hex (take 16 rest)), drop 16 rest)

  -- The loops call `decodeObject` through `dec`.
  unfoldable pub decode_items : Decoder → ℕ → Bytes → Result Error (Items Text Number × Bytes)
  decode_items dec zero rest = ok (nil, rest)
  decode_items dec (suc n) rest = do
    (v, rest') ← dec rest
    (vs, rest'') ← decode_items dec n rest'
    ok (cons v vs, rest'')

  unfoldable pub decode_array : Decoder → Decoder
  decode_array dec rest = do
    (size, r) ← read_uint 4 rest
    (n, items) ← read_uint 4 (take size r)
    (vs, _) ← decode_items dec n items
    ok (arr vs, drop size r)

  -- `readDictionaryKey`: the padding goes by the length of the key as a string.
  unfoldable pub read_dictionary_key : Bytes → Result Error (Text × Bytes)
  read_dictionary_key rest = do
    (bytes, r) ← read_key_bytes rest
    let key = of_utf8 bytes
    ok (key, drop (calc_padding (utf16_length key + 1)) r)

  -- `dict[key] = value`: an old entry keeps its place.
  unfoldable pub set_field : Text → Value Text Number → Fields Text Number → Fields Text Number
  set_field key v end = field key v end
  set_field key v (field k w fields) = elim (text_eq k key) [
    | yes _ ↦ field k v fields
    | no _ ↦ field k w (set_field key v fields)
  ]

  unfoldable pub decode_fields :
      Decoder → ℕ → Bytes → Fields Text Number → Result Error (Fields Text Number)
  decode_fields dec zero rest dict = ok dict
  decode_fields dec (suc n) rest dict = do
    (key, r) ← read_dictionary_key rest
    (v, r') ← dec r
    decode_fields dec n r' (set_field key v dict)

  -- `decodeDictionary` on the payload, which no more is read of.
  unfoldable pub decode_dictionary : Decoder → Decoder
  decode_dictionary dec rest = do
    (size, r) ← read_uint 4 rest
    (n, entries) ← read_uint 4 (take size r)
    dict ← decode_fields dec n entries end
    ok (obj dict, drop size r)

  -- What `decodeObject` does behind the type.
  unfoldable pub decode_kind : Decoder → Kind → Decoder
  decode_kind dec null_kind rest = ok (null, rest)
  decode_kind dec bool_kind rest = decode_bool rest
  decode_kind dec int64_kind rest = read_big_int64_le rest >>= λ (z, r). ok (num (of_int z), r)
  decode_kind dec uint64_kind rest = read_uint 8 rest >>= λ (n, r). ok (num (of_int (pos n)), r)
  decode_kind dec double_kind rest = decode_double rest
  decode_kind dec date_kind rest =
      read_big_int64_le rest >>= λ (z, r). ok (date (quotient z 1_000_000), r)
  decode_kind dec data_kind rest = decode_data rest
  decode_kind dec string_kind rest = decode_string rest
  decode_kind dec uuid_kind rest = decode_uuid rest
  decode_kind dec array_kind rest = decode_array dec rest
  decode_kind dec dictionary_kind rest = decode_dictionary dec rest
  decode_kind dec unknown_kind rest = err unsupported_type

  -- `decodeObject`. A call reads 4 bytes before it makes another on what is left.
  unfoldable pub decode_object : ℕ → Decoder
  decode_object zero rest = stuck
  decode_object (suc fuel) rest = do
    (type, r) ← read_uint 4 rest
    decode_kind (decode_object fuel) (kind_of type) r

  -- `typeof decodedValue === 'object'`, not null and no array; a Date and a Buffer are objects too.
  abbrev pub as_body : Value Text Number → Result Error (Value Text Number)
  as_body (obj dict) = ok (obj dict)
  as_body (date ms) = ok (date ms)
  as_body (buf bytes) = ok (buf bytes)
  as_body v = err not_dictionary

  -- `DecodedXpcMessage`; a body of `null` is `none`.
  pub record Decoded : Type 0 where
    pub flags : ℕ
    pub id : ℤ
    pub body : Option (Value Text Number)
    pub bytes_consumed : ℕ

  -- The object behind the header of the body, in `body_len - 8` bytes.
  unfoldable pub decode_body : ℕ → Bytes → Result Error (Value Text Number)
  decode_body body_len rest = do
    (magic, r) ← read_uint 4 rest
    (version, r') ← read_uint 4 r
    guard (magic == object_magic) invalid_object_magic
    guard (version == body_version) unexpected_version
    let payload = take (body_len - 8) r'
    (v, _) ← decode_object (suc (length payload)) payload
    as_body v

  -- `decodeMessage`
  unfoldable pub decode_message : Bytes → Result Error Decoded
  decode_message buffer = do
    consumed ← get_xpc_message_byte_length buffer
    let flags = read_le 4 buffer 4
    let body_len = read_le 8 buffer 8
    let id = pos (read_le 8 buffer 16)
    elim (body_len == 0) [
      | true ↦ ok (record { flags = flags; id = id; body = none; bytes_consumed = consumed })
      | false ↦ do
        v ← decode_body body_len (drop 24 buffer)
        ok (record { flags = flags; id = id; body = some v; bytes_consumed = consumed })
    ]
