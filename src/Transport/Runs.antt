-- ===== src/Transport/Runs.antt =====
-- A run of the transport.
use appium_ios_remotexpc.Prelude.{ℕ, ◌≡◌, refl, true, List, [], ◌∷◌, ◌++◌, arith, take, drop}
use appium_ios_remotexpc.Prelude.Result.{ok}
use appium_ios_remotexpc.Prelude.Bytes.{Bytes}
use appium_ios_remotexpc.Xpc.Small.{
  small, small-IsPlatform, fields, request, request_bytes, encode_message-request,
  fields-HasReadable,
}
use appium_ios_remotexpc.Xpc.Value.{obj, end}
use appium_ios_remotexpc.Xpc.Seen.{seen_fields}
use appium_ios_remotexpc.Http.Frames.{
  serialize, serialize_body, serialize_padding_data, pack, pack_values, has,
}
use appium_ios_remotexpc.Transport.Receive.{
  Transport, reset_parsers, send_data_frame, Output, receive,
}
use appium_ios_remotexpc.Transport.Drain.{ingest_all, drain_all, ingest_all-concat}
use appium_ios_remotexpc.Transport.Frames.{bodies}
use appium_ios_remotexpc.Transport.Stream.{Pieces, ArePieces, receive-sent}

abbrev first_half : Bytes
first_half = take 50 request_bytes

abbrev second_half : Bytes
second_half = drop 50 request_bytes

abbrev frame_of : ℕ → Bytes → Bytes
frame_of size payload = 0 ∷ 0 ∷ size ∷ 0 ∷ 0 ∷ 0 ∷ 0 ∷ 0 ∷ 1 ∷ payload

-- The message is cut in two.
abbrev pieces : Pieces
pieces =
    ((first_half, 1), frame_of 50 first_half) ∷ ((second_half, 1), frame_of 50 second_half) ∷ []

pieces-ArePieces : ArePieces pieces
unfolding send_data_frame serialize serialize_body serialize_padding_data pack pack_values has
pieces-ArePieces = ((refl, omega arith), ((refl, omega arith), tt))

-- The chunks are cut elsewhere.
abbrev stream : Bytes
stream = frame_of 50 first_half ++ frame_of 50 second_half

receive-sent_example :
    (outputs : List (Output small)) × (after : Transport) × (receive small
        (reset_parsers true)
        (take 7 stream ∷ drop 7 stream ∷ [])
      ≡ ok (outputs, after))
    × (bodies small outputs ≡ obj (seen_fields small end fields) ∷ [])
    × (after.frame_buffer ≡ [])
    × (after.pending_xpc_data ≡ [])
receive-sent_example =
    receive-sent small small-IsPlatform ((request, request_bytes) ∷ []) pieces (take 7 stream)
      (drop 7 stream ∷ []) ((fields-HasReadable, encode_message-request), tt) pieces-ArePieces refl
      refl

ingest_all-concat_example :
    ingest_all small [] (first_half ∷ second_half ∷ [])
    ≡ drain_all small (first_half ++ (second_half ++ []))
ingest_all-concat_example = ingest_all-concat small (first_half ∷ second_half ∷ [])
