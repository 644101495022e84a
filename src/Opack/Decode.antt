-- ===== src/Opack/Decode.antt =====
-- `Opack2.loads`. The offset into the payload is the part of the payload from there on.
use appium_ios_remotexpc.Prelude.{
  ℕ, zero, suc, ◌+◌, ◌-◌, Bool, true, false, ◌&&◌, [], ◌∷◌, ltb, leb, ◌==◌, if◌then◌else◌, length,
  take, drop,
}
use appium_ios_remotexpc.Prelude.Result.{Result, ok, err, stuck, ◌>>=◌, ◌>>◌, guard}
use appium_ios_remotexpc.Prelude.Bytes.{Bytes, of_le, of_be}
use appium_ios_remotexpc.Opack.Value.{
  Platform, Value, Items, Fields, null, bool, num, str, buf, arr, obj, nil, cons, end, field, Error,
  unexpected_end, trailing_bytes, unsupported_marker, unsafe_integer, key_not_string,
  max_safe_integer,
}

-- What the marker announces. A `string_sized w` has its length in `w` bytes behind the marker.
pub data Marker : Type 0 where
  null_marker true_marker false_marker int8 int32 int64 float : Marker
  small_int string string_sized bytes bytes_sized array dict : ℕ → Marker
  variable_array variable_dict unsupported : Marker

-- The tests of `decode` on the marker, in their order.
unfoldable pub classify : ℕ → Marker
classify m =
    if m == 0x03
    then null_marker
    else if m == 0x01
    then true_marker
    else if m == 0x02
    then false_marker
    else if leb 8 m && leb m (8 + 0x27)
    then small_int (m - 8)
    else if m == 0x30
    then int8
    else if m == 0x32
    then int32
    else if m == 0x33
    then int64
    else if m == 0x35
    then float
    else if leb 0x40 m && leb m (0x40 + 0x20)
    then string (m - 0x40)
    else if m == 0x61
    then string_sized 1
    else if m == 0x62
    then string_sized 2
    else if m == 0x63
    then string_sized 4
    else if leb 0x70 m && leb m (0x70 + 0x20)
    then bytes (m - 0x70)
    else if m == 0x91
    then bytes_sized 1
    else if m == 0x92
    then bytes_sized 2
    else if m == 0x93
    then bytes_sized 4
    else if leb 0xd0 m && ltb m 0xdf
    then array (m - 0xd0)
    else if m == 0xdf
    then variable_array
    else if leb 0xe0 m && ltb m 0xef
    then dict (m - 0xe0)
    else if m == 0xef
    then variable_dict
    else unsupported

-- `ensureAvailable` and the slice behind it.
unfoldable pub take_bytes : ℕ → Bytes → Result Error (Bytes × Bytes)
take_bytes n rest =
    if ltb (length rest) n then err unexpected_end else ok (take n rest, drop n rest)

-- `decodeLength`
unfoldable pub decode_length : ℕ → Bytes → Result Error (ℕ × Bytes)
decode_length width rest = take_bytes width rest >>= λ (raw, rest'). ok (of_be raw, rest')

module _ (p : Platform) where
  open p use {Text, Number, text_eq, of_utf8, of_uint, read_float_le}

  -- A value, and the payload behind it.
  abbrev pub Decoder : Type 0
  Decoder = Bytes → Result Error (Value Text Number × Bytes)

  unfoldable pub decode_string : ℕ → Decoder
  decode_string n rest = take_bytes n rest >>= λ (text, rest'). ok (str (of_utf8 text), rest')

  unfoldable pub decode_bytes : ℕ → Decoder
  decode_bytes n rest = take_bytes n rest >>= λ (b, rest'). ok (buf b, rest')

  unfoldable pub decode_uint : ℕ → Decoder
  decode_uint width rest =
      take_bytes width rest >>= λ (raw, rest'). ok (num (of_uint (of_le raw)), rest')

  unfoldable pub decode_uint64 : Decoder
  decode_uint64 rest = do
    (raw, rest') ← take_bytes 8 rest
    guard (leb (of_le raw) max_safe_integer) unsafe_integer
    ok (num (of_uint (of_le raw)), rest')

  unfoldable pub decode_float : Decoder
  decode_float rest = take_bytes 4 rest >>= λ (raw, rest'). ok (num (read_float_le raw), rest')

  -- The loops call `decode` through `dec`.
  unfoldable pub decode_items : Decoder → ℕ → Bytes → Result Error (Items Text Number × Bytes)
  decode_items dec zero rest = ok (nil, rest)
  decode_items dec (suc n) rest = do
    (v, rest') ← dec rest
    (vs, rest'') ← decode_items dec n rest'
    ok (cons v vs, rest'')

  abbrev pub is_null : Value Text Number → Bool
  is_null null = true
  is_null v = false

  -- `while (true)`: each round takes a byte at least.
  unfoldable pub decode_variable_items :
      Decoder → ℕ → Bytes → Result Error (Items Text Number × Bytes)
  decode_variable_items dec zero rest = stuck
  decode_variable_items dec (suc fuel) rest = do
    (v, rest') ← dec rest
    elim (is_null v) [
      | true ↦ ok (nil, rest')
      | false ↦ decode_variable_items dec fuel rest' >>= λ (vs, rest''). ok (cons v vs, rest'')
    ]

  -- `result[key] = value`: an old entry keeps its place.
  unfoldable pub set_field : Text → Value Text Number → Fields Text Number → Fields Text Number
  set_field key v end = field key v end
  set_field key v (field k w fields) = elim (text_eq k key) [
    | yes _ ↦ field k v fields
    | no _ ↦ field k w (set_field key v fields)
  ]

  abbrev pub as_key : Value Text Number → Result Error Text
  as_key (str key) = ok key
  as_key v = err key_not_string

  unfoldable pub decode_fields :
      Decoder → ℕ → Bytes → Fields Text Number → Result Error (Fields Text Number × Bytes)
  decode_fields dec zero rest result = ok (result, rest)
  decode_fields dec (suc n) rest result = do
    (k, rest') ← dec rest
    key ← as_key k
    (v, rest'') ← dec rest'
    decode_fields dec n rest'' (set_field key v result)

  -- Whether an entry ends the dictionary: both its key and its value are null.
  abbrev pub both_null : Value Text Number → Value Text Number → Bool
  both_null null null = true
  both_null k v = false

  unfoldable pub decode_variable_fields :
      Decoder → ℕ → Bytes → Fields Text Number → Result Error (Fields Text Number × Bytes)
  decode_variable_fields dec zero rest result = stuck
  decode_variable_fields dec (suc fuel) rest result = do
    (k, rest') ← dec rest
    (v, rest'') ← dec rest'
    elim (both_null k v) [
      | true ↦ ok (result, rest'')
      | false ↦ as_key k >>= λ key. decode_variable_fields dec fuel rest'' (set_field key v result)
    ]

  -- What `decode` does behind the marker.
  unfoldable pub decode_marked : Decoder → Marker → Decoder
  decode_marked dec null_marker rest = ok (null, rest)
  decode_marked dec true_marker rest = ok (bool true, rest)
  decode_marked dec false_marker rest = ok (bool false, rest)
  decode_marked dec (small_int n) rest = ok (num (of_uint n), rest)
  decode_marked dec int8 rest = decode_uint 1 rest
  decode_marked dec int32 rest = decode_uint 4 rest
  decode_marked dec int64 rest = decode_uint64 rest
  decode_marked dec float rest = decode_float rest
  decode_marked dec (string n) rest = decode_string n rest
  decode_marked dec (string_sized w) rest = decode_length w rest >>= λ (n, r). decode_string n r
  decode_marked dec (bytes n) rest = decode_bytes n rest
  decode_marked dec (bytes_sized w) rest = decode_length w rest >>= λ (n, r). decode_bytes n r
  decode_marked dec (array n) rest = decode_items dec n rest >>= λ (vs, r). ok (arr vs, r)
  decode_marked dec variable_array rest =
      decode_variable_items dec (suc (length rest)) rest >>= λ (vs, r). ok (arr vs, r)
  decode_marked dec (dict n) rest = decode_fields dec n rest end >>= λ (fs, r). ok (obj fs, r)
  decode_marked dec variable_dict rest =
      decode_variable_fields dec (suc (length rest)) rest end >>= λ (fs, r). ok (obj fs, r)
  decode_marked dec unsupported rest = err unsupported_marker

  -- Each call takes a byte before it makes another, so `length data + 1` is fuel enough.
  unfoldable pub decode : ℕ → Decoder
  decode zero rest = stuck
  decode (suc fuel) [] = err unexpected_end
  decode (suc fuel) (m ∷ rest) = decode_marked (decode fuel) (classify m) rest

  unfoldable pub loads : Bytes → Result Error (Value Text Number)
  loads data' = do
    (v, rest) ← decode (suc (length data')) data'
    guard (length rest == 0) trailing_bytes
    ok v
