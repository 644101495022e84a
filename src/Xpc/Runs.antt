-- ===== src/Xpc/Runs.antt =====
-- Runs of the XPC codec over a small platform, and its theorems at these inputs.
use appium_ios_remotexpc.Prelude.{ℕ, ◌%◌, ◌≡◌, refl, ◌≢◌, some, [], ◌∷◌, ◌++◌, length}
use appium_ios_remotexpc.Prelude.Result.{ok, stuck}
use appium_ios_remotexpc.Prelude.Bytes.{Bytes}
use appium_ios_remotexpc.Prelude.Int.{pos}
use appium_ios_remotexpc.Xpc.Value.{Value, uuid, buf, arr, obj, nil, cons, end}
use appium_ios_remotexpc.Xpc.Bits.{write_uint, calc_padding}
use appium_ios_remotexpc.Xpc.Encode.{encode_object, encode_data, wrap}
use appium_ios_remotexpc.Xpc.Decode.{decode_message}
use appium_ios_remotexpc.Xpc.Seen.{seen_fields}
use appium_ios_remotexpc.Xpc.Messages.{decode_message-encode_message}
use appium_ios_remotexpc.Xpc.Ends.{decode_message-ne-stuck}
use appium_ios_remotexpc.Xpc.Aligned.{HasWholeUuids, length-encode_object}
use appium_ios_remotexpc.Xpc.Small.{
  small, small-IsPlatform, fields, request, request_bytes, encode_message-request,
  fields-HasReadable,
}

decode_message-encode_message_example :
    decode_message small (request_bytes ++ (9 ∷ []))
    ≡ ok (record {
      flags = 1;
      id = pos 5;
      body = some (obj (seen_fields small end fields));
      bytes_consumed = 100;
    })
decode_message-encode_message_example =
    decode_message-encode_message small small-IsPlatform request request_bytes (9 ∷ [])
      fields-HasReadable encode_message-request

decode_message-ne-stuck_example : decode_message small request_bytes ≢ stuck
decode_message-ne-stuck_example = decode_message-ne-stuck small request_bytes

-- A UUID and three bytes.
abbrev parts : Value Bytes ℕ
parts = arr (
    cons (uuid (1 ∷ 2 ∷ 3 ∷ 4 ∷ 5 ∷ 6 ∷ 7 ∷ 8 ∷ 9 ∷ 10 ∷ 11 ∷ 12 ∷ 13 ∷ 14 ∷ 15 ∷ 16 ∷ []))
      (cons (buf (7 ∷ 8 ∷ 9 ∷ [])) nil))

abbrev parts_bytes : Bytes
parts_bytes =
    0 ∷ 224 ∷ 0 ∷ 0 ∷ 36 ∷ 0 ∷ 0 ∷ 0 ∷ 2 ∷ 0 ∷ 0 ∷ 0 ∷ 0 ∷ 160 ∷ 0 ∷ 0 ∷ 1 ∷ 2 ∷ 3 ∷ 4 ∷ 5 ∷ 6 ∷ 7
    ∷ 8 ∷ 9 ∷ 10 ∷ 11 ∷ 12 ∷ 13 ∷ 14 ∷ 15 ∷ 16 ∷ 0 ∷ 128 ∷ 0 ∷ 0 ∷ 3 ∷ 0 ∷ 0 ∷ 0 ∷ 7 ∷ 8 ∷ 9 ∷ 0
    ∷ []

encode_object-parts : encode_object small parts ≡ ok parts_bytes
unfolding encode_object encode_data wrap write_uint calc_padding
encode_object-parts = refl

parts-HasWholeUuids : HasWholeUuids small small-IsPlatform parts
unfolding HasWholeUuids
parts-HasWholeUuids = (refl, (tt, tt))

length-encode_object_example : length parts_bytes % 4 ≡ 0
length-encode_object_example =
    length-encode_object small small-IsPlatform parts parts_bytes parts-HasWholeUuids
      encode_object-parts
