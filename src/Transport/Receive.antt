-- ===== src/Transport/Receive.antt =====
-- How `RemoteXpcFramedTransport` of src/lib/remote-xpc/remote-xpc-framed-transport.ts receives: the
-- bytes of the socket go through the HTTP/2 parser, and the data of its frames through the XPC codec.
use appium_ios_remotexpc.Prelude.{
  ℕ, zero, suc, Bool, Option, none, some, List, [], ◌∷◌, ◌++◌, map, if◌then◌else◌, length, drop,
}
use appium_ios_remotexpc.Prelude.Result.{Result, ok, err, stuck, ◌>>=◌}
use appium_ios_remotexpc.Prelude.Bytes.{Bytes}
use appium_ios_remotexpc.Xpc.Value.{Platform, Value}
use appium_ios_remotexpc.Xpc.Decode.{decode_message}
use appium_ios_remotexpc.Http.Frames.{Error, data_frame, serialize}
use appium_ios_remotexpc.Http.Parser.{
  ParsedFrame, data_parsed, other, append, build_window_update_frames,
}

-- What the parser and the transport hold back, and whether there is a socket.
pub record Transport : Type 0 where
  pub frame_buffer : Bytes
  pub pending_xpc_data : Bytes
  pub has_socket : Bool

-- `resetParsers`
abbrev pub reset_parsers : Bool → Transport
reset_parsers has_socket = record {
  frame_buffer = [];
  pending_xpc_data = [];
  has_socket = has_socket;
}

-- `sendDataFrame` on a socket that is writable: what it writes.
unfoldable pub send_data_frame : Bytes → (stream_id : ℕ) → Result Error Bytes
send_data_frame payload stream_id = serialize (data_frame stream_id payload [])

module _ (p : Platform) where
  open p use {Text, Number}

  abbrev pub Body : Type 0
  Body = Value Text Number

  -- What the transport does: it writes to the socket, and it emits a message.
  pub data Output : Type 0 where
    wrote : Bytes → Output
    message : Body → Output

  -- `if (message.body)`: an object is true. A listener of the message does not throw.
  abbrev pub emit : Option Body → List Body × Bytes → List Body × Bytes
  emit none out = out
  emit (some body) (bodies, pending) = (body ∷ bodies, pending)

  -- The loop of `ingestXpcData`: a message takes bytes, and any error ends the loop.
  unfoldable pub drain : ℕ → Bytes → List Body × Bytes
  drain zero pending = ([], pending)
  drain (suc fuel) [] = ([], [])
  drain (suc fuel) (b ∷ bs) = elim (decode_message p (b ∷ bs)) [
    | ok d ↦ emit d.body (drain fuel (drop d.bytes_consumed (b ∷ bs)))
    | err e ↦ ([], b ∷ bs)
    | stuck ↦ ([], b ∷ bs)
  ]

  -- `ingestXpcData`
  unfoldable pub ingest_xpc_data : Bytes → Bytes → List Body × Bytes
  ingest_xpc_data pending_xpc_data chunk =
      let pending = pending_xpc_data ++ chunk in drain (suc (length pending)) pending

  -- The loop of `handleData` on the frames.
  unfoldable pub handle_frames : List ParsedFrame → Bytes → Result Error (List Output × Bytes)
  handle_frames [] pending = ok ([], pending)
  handle_frames (other ∷ frames) pending = handle_frames frames pending
  handle_frames (data_parsed stream_id d body_len ∷ frames) pending = do
    updates ← build_window_update_frames stream_id body_len
    let (bodies, rest) = ingest_xpc_data pending d
    (outputs, rest') ← handle_frames frames rest
    ok (map wrote updates ++ (map message bodies ++ outputs), rest')

  -- `handleData`; an error is the one that is emitted.
  unfoldable pub handle_data : Transport → Bytes → Result Error (List Output × Transport)
  handle_data t chunk =
      if t.has_socket
      then (do
        (frames, buffer) ← append t.frame_buffer chunk
        (outputs, pending) ← handle_frames frames t.pending_xpc_data
        ok (outputs, record t { frame_buffer = buffer; pending_xpc_data = pending }))
      else ok ([], t)

  -- The chunks that the socket delivers, one after the other.
  unfoldable pub receive : Transport → List Bytes → Result Error (List Output × Transport)
  receive t [] = ok ([], t)
  receive t (chunk ∷ chunks) = do
    (outputs, t') ← handle_data t chunk
    (more, t'') ← receive t' chunks
    ok (outputs ++ more, t'')
