-- ===== src/Http/Frames.antt =====
-- The frames of src/lib/remote-xpc/handshake-frames.ts and their serialisation.
use appium_ios_remotexpc.Prelude.{
  ℕ, ◌+◌, ◌/◌, ◌%◌, ◌^◌, Bool, true, false, ◌||◌, not, Option, none, some, List, [], ◌∷◌, ◌++◌, ltb,
  ◌==◌, if◌then◌else◌, length, replicate,
}
use appium_ios_remotexpc.Prelude.Result.{Result, ok, ◌>>=◌, ◌>>◌, guard}
use appium_ios_remotexpc.Prelude.Bytes.{Bytes, be_bytes, range}

-- `StructType`: unsigned numbers of 2, 1 and 4 bytes, the highest byte first.
pub data StructType : Type 0 where
  h_type b_type l_type : StructType

pub data Error : Type 0 where
  wrong_count out_of_range ack_with_settings empty_padded padding_too_long : Error

abbrev pub width : StructType → ℕ
width h_type = 2
width b_type = 1
width l_type = 4

-- The loop of `pack`: a number that does not fit throws.
unfoldable pub pack_values : List StructType → List ℕ → Result Error Bytes
pack_values [] vs = ok []
pack_values (t ∷ ts) [] = ok []
pack_values (t ∷ ts) (v ∷ vs) = do
  guard (ltb v (range (width t))) out_of_range
  rest ← pack_values ts vs
  ok (be_bytes (width t) v ++ rest)

-- `Struct.pack`
unfoldable pub pack : List StructType → List ℕ → Result Error Bytes
unfolding pack_values
pack types values = guard (length values == length types) wrong_count >> pack_values types values

-- The names in `Flags`.
pub data Flag : Type 0 where
  ack end_stream end_headers padded priority : Flag

unfoldable pub same_flag : Flag → Flag → Bool
same_flag ack ack = true
same_flag end_stream end_stream = true
same_flag end_headers end_headers = true
same_flag padded padded = true
same_flag priority priority = true
same_flag f g = false

-- `Flags.has`
unfoldable pub has : List Flag → Flag → Bool
has [] f = false
has (g ∷ flags) f = same_flag g f || has flags f

-- The subclasses of `Frame` with their fields. `settings` are the entries in the order of
-- `Object.keys`.
pub data Body : Type 0 where
  settings_body : List (ℕ × ℕ) → Body
  data_body : Bytes → (pad_length : ℕ) → Body
  headers_body : Bytes → (pad_length depends_on stream_weight : ℕ) → (exclusive : Bool) → Body
  window_update_body : (window_increment : ℕ) → Body

pub record Frame : Type 0 where
  pub stream_id : ℕ
  pub flags : List Flag
  pub body : Body

-- The constructors; that of `SettingsFrame` refuses settings with ACK.
unfoldable pub settings_frame : ℕ → Option (List (ℕ × ℕ)) → List Flag → Result Error Frame
settings_frame id none flags =
    ok (record { stream_id = id; flags = flags; body = settings_body [] })
settings_frame id (some settings) flags = do
  guard (not (has flags ack)) ack_with_settings
  ok (record { stream_id = id; flags = flags; body = settings_body settings })

abbrev pub data_frame : ℕ → Bytes → List Flag → Frame
data_frame id d flags = record { stream_id = id; flags = flags; body = data_body d 0 }

abbrev pub headers_frame : ℕ → Bytes → List Flag → Frame
headers_frame id d flags = record {
  stream_id = id;
  flags = flags;
  body = headers_body d 0 0 0 false;
}

abbrev pub window_update_frame : ℕ → ℕ → List Flag → Frame
window_update_frame id increment flags = record {
  stream_id = id;
  flags = flags;
  body = window_update_body increment;
}

-- `type`
abbrev pub frame_type : Body → ℕ
frame_type (settings_body settings) = 4
frame_type (data_body d pad) = 0
frame_type (headers_body d pad depends weight exclusive) = 1
frame_type (window_update_body increment) = 8

-- A flag's bit, if the flag is there. The bits of a kind of frame differ, so their `|` is a sum.
abbrev pub bit : List Flag → Flag → ℕ → ℕ
bit flags f v = if has flags f then v else 0

-- `flagsVal`: only the flags that the kind of frame defines have a bit.
abbrev pub flags_value : Body → List Flag → ℕ
flags_value (settings_body settings) flags = bit flags ack 1
flags_value (data_body d pad) flags = bit flags end_stream 1 + bit flags padded 8
flags_value (headers_body d pad depends weight exclusive) flags =
    bit flags end_stream 1 + bit flags end_headers 4 + bit flags padded 8 + bit flags priority 0x20
flags_value (window_update_body increment) flags = 0

unfoldable pub serialize_settings : List (ℕ × ℕ) → Result Error Bytes
serialize_settings [] = ok []
serialize_settings ((key, value) ∷ settings) = do
  first ← pack (h_type ∷ l_type ∷ []) (key % 256 ∷ value ∷ [])
  others ← serialize_settings settings
  ok (first ++ others)

-- `serializePaddingData`
unfoldable pub serialize_padding_data : List Flag → ℕ → Result Error Bytes
serialize_padding_data flags pad = if has flags padded then pack (b_type ∷ []) (pad ∷ []) else ok []

-- `serializePriorityData`
unfoldable pub serialize_priority_data : ℕ → ℕ → Bool → Result Error Bytes
serialize_priority_data depends weight exclusive =
    let top = if exclusive then 0x8000_0000 else 0 in
    pack (l_type ∷ b_type ∷ []) ((depends + top) ∷ weight ∷ [])

-- `serializeBody`
unfoldable pub serialize_body : Body → List Flag → Result Error Bytes
serialize_body (settings_body settings) flags =
    if has flags ack then ok [] else serialize_settings settings
serialize_body (data_body d pad) flags = do
  padding_data ← serialize_padding_data flags pad
  ok (padding_data ++ (d ++ replicate pad 0))
serialize_body (headers_body d pad depends weight exclusive) flags = do
  padding_data ← serialize_padding_data flags pad
  priority_data ←
      if has flags priority then serialize_priority_data depends weight exclusive else ok []
  ok (padding_data ++ (priority_data ++ (d ++ replicate pad 0)))
serialize_body (window_update_body increment) flags = pack (l_type ∷ []) (increment % 2 ^ 31 ∷ [])

-- `serialize`
unfoldable pub serialize : Frame → Result Error Bytes
serialize f = do
  body ← serialize_body f.body f.flags
  header ← pack (h_type ∷ b_type ∷ b_type ∷ b_type ∷ l_type ∷ []) (
      length body / 256 % 65536
      ∷ length body % 256
      ∷ frame_type f.body
      ∷ flags_value f.body f.flags
      ∷ f.stream_id % 2 ^ 31
      ∷ [])
  ok (header ++ body)
