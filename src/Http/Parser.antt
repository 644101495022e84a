-- ===== src/Http/Parser.antt =====
-- `Http2FrameParser` of src/lib/remote-xpc/http2-frame-parser.ts.
use appium_ios_remotexpc.Prelude.{
  ℕ, ◌+◌, ◌-◌, ◌*◌, ◌/◌, ◌%◌, ◌^◌, ◌||◌, not, List, [], ◌∷◌, leb, ◌==◌, if◌then◌else◌, length, take,
  drop,
}
use appium_ios_remotexpc.Prelude.Result.{Result, ok, err, ◌>>=◌}
use appium_ios_remotexpc.Prelude.Bytes.{Bytes, byte_at, read_be}
use appium_ios_remotexpc.Framing.{Framing, accept}
use appium_ios_remotexpc.Http.Frames.{
  Error, empty_padded, padding_too_long, window_update_frame, serialize,
}

-- `ParsedFrame`
pub data ParsedFrame : Type 0 where
  data_parsed : (stream_id : ℕ) → Bytes → (body_len : ℕ) → ParsedFrame
  other : ParsedFrame

-- The three bytes of the length.
unfoldable pub frame_length : Bytes → ℕ
frame_length buffer = byte_at buffer 0 * 65536 + byte_at buffer 1 * 256 + byte_at buffer 2

-- `stripDataFramePadding`; `flags & FLAG_PADDED` is bit 3.
unfoldable pub strip_data_frame_padding : Bytes → ℕ → Result Error Bytes
strip_data_frame_padding body flags =
    let pad_length = byte_at body 0 in
    if flags / 8 % 2 == 0
    then ok body
    else if length body == 0
    then err empty_padded
    else if leb (length body) pad_length
    then err padding_too_long
    else ok (take (length body - pad_length - 1) (drop 1 body))

-- `parseFrame`
unfoldable pub parse_frame : Bytes → Result Error ParsedFrame
unfolding frame_length
parse_frame buffer =
    let size = frame_length buffer in
    let stream_id = read_be 4 buffer 5 % 2 ^ 31 in
    let parsed = strip_data_frame_padding (take size (drop 9 buffer)) (byte_at buffer 4) >>= λ d.
    ok (data_parsed stream_id d size) in
    if byte_at buffer 3 == 0 then parsed else ok other

unfoldable pub http_framing : Framing Error ParsedFrame
http_framing = record { header_size = 9; total_size = λ b. 9 + frame_length b; read = parse_frame }

-- `append`
unfoldable pub append : Bytes → Bytes → Result Error (List ParsedFrame × Bytes)
append buffer chunk = accept http_framing buffer chunk

-- `buildWindowUpdateFrames`
unfoldable pub build_window_update_frames : ℕ → ℕ → Result Error (List Bytes)
build_window_update_frames stream_id increment =
    let frames = do
      first ← serialize (window_update_frame 0 increment [])
      second ← serialize (window_update_frame stream_id increment [])
      ok (first ∷ second ∷ [])
    in if not (stream_id % 2 == 0) || (increment == 0) then ok [] else frames
