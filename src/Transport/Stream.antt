-- ===== src/Transport/Stream.antt =====
-- Messages that go through the transport of src/lib/remote-xpc/remote-xpc-framed-transport.ts.
use appium_ios_remotexpc.Prelude.{
  ℕ, ◌+◌, ◌^◌, ◌<◌, ◌≡◌, refl, sym, ap, ◌∙◌, true, Option, none, some, List, [], ◌∷◌, ◌++◌,
  append-nil, length, concat, drop-length,
}
use appium_ios_remotexpc.Prelude.Result.{ok}
use appium_ios_remotexpc.Prelude.Bytes.{Bytes}
use appium_ios_remotexpc.Xpc.Value.{Platform, IsPlatform}
use appium_ios_remotexpc.Xpc.Encode.{Message, encode_message}
use appium_ios_remotexpc.Xpc.Messages.{IsReadableBody, seen_body, decode_message-encode_message}
use appium_ios_remotexpc.Http.Frames.{Frame, data_frame, has}
use appium_ios_remotexpc.Http.ReadBack.{parsed_body}
use appium_ios_remotexpc.Http.Stream.{parsed_frames, sent_bytes, AreSent, append_all-serialize}
use appium_ios_remotexpc.Transport.Receive.{
  Transport, reset_parsers, send_data_frame, Body, Output, emit, drain, receive,
}
use appium_ios_remotexpc.Transport.Drain.{drain_all, drain_all-round, round, ingest_all-concat}
use appium_ios_remotexpc.Transport.Frames.{payloads, bodies, receive-Received}

-- A piece of the sender's data with its stream, and the bytes of its frame.
abbrev pub Pieces : Type 0
Pieces = List ((Bytes × ℕ) × Bytes)

-- Each piece was sent by `sendDataFrame`, and its frame can count it.
abbrev pub ArePieces : Pieces → Type 0
ArePieces [] = Unit {0}
ArePieces (((payload, stream_id), bytes) ∷ pieces) =
    ((send_data_frame payload stream_id ≡ ok bytes) × (length bytes < 9 + 2 ^ 24))
    × ArePieces pieces

abbrev pub piece_data : Pieces → Bytes
piece_data [] = []
piece_data (((payload, stream_id), bytes) ∷ pieces) = payload ++ piece_data pieces

abbrev pub piece_bytes : Pieces → Bytes
piece_bytes [] = []
piece_bytes (((payload, stream_id), bytes) ∷ pieces) = bytes ++ piece_bytes pieces

as_frames : Pieces → List (Frame × Bytes)
as_frames [] = []
as_frames (((payload, stream_id), bytes) ∷ pieces) =
    (data_frame stream_id payload [], bytes) ∷ as_frames pieces

as_frames-AreSent : (pieces : Pieces) → ArePieces pieces → AreSent (as_frames pieces)
unfolding as_frames send_data_frame
as_frames-AreSent [] h = tt
as_frames-AreSent (x ∷ pieces) h =
    (record { serialized = h.0.0; countable = h.0.1 }, as_frames-AreSent pieces h.1)

as_frames-bytes : (pieces : Pieces) → sent_bytes (as_frames pieces) ≡ piece_bytes pieces
unfolding as_frames
as_frames-bytes [] = refl
as_frames-bytes (x ∷ pieces) = ap (λ t. x.1 ++ t) (as_frames-bytes pieces)

as_frames-payloads :
    (pieces : Pieces) → concat (payloads (parsed_frames (as_frames pieces))) ≡ piece_data pieces
unfolding as_frames parsed_body has
as_frames-payloads [] = refl
as_frames-payloads (x ∷ pieces) =
    ap (λ t. t ++ concat (payloads (parsed_frames (as_frames pieces)))) (append-nil x.0.0)
    ∙ ap (λ t. x.0.0 ++ t) (as_frames-payloads pieces)

module _ (p : Platform) (v : IsPlatform p) where
  open p use {Text, Number}

  -- Messages with their bytes.
  abbrev pub Sent : Type 0
  Sent = List (Message Text Number × Bytes)

  -- Each was encoded and can be read.
  abbrev pub AreMessages : Sent → Type 0
  AreMessages [] = Unit {0}
  AreMessages ((m, bytes) ∷ sent) =
      (IsReadableBody p v m.body × (encode_message p m ≡ ok bytes)) × AreMessages sent

  abbrev pub message_bytes : Sent → Bytes
  message_bytes [] = []
  message_bytes ((m, bytes) ∷ sent) = bytes ++ message_bytes sent

  -- The bodies as the other side sees them; a message without one is not emitted.
  abbrev pub seen_bodies : Sent → List (Body p)
  seen_bodies [] = []
  seen_bodies ((m, bytes) ∷ sent) = (emit p (seen_body p v m.body) (seen_bodies sent, [])).0

  emit-nothing :
      (body : Option (Body p)) (found : List (Body p))
      → emit p body (found, []) ≡ ((emit p body (found, [])).0, [])
  emit-nothing none found = refl
  emit-nothing (some x) found = refl

  drain_all-message_bytes :
      (sent : Sent) → AreMessages sent → drain_all p (message_bytes sent) ≡ (seen_bodies sent, [])
  unfolding drain
  drain_all-message_bytes [] h = refl
  drain_all-message_bytes ((m, bytes) ∷ sent) h =
      let rest = message_bytes sent in
      drain_all-round p (bytes ++ rest)
      ∙ ap (round p (drain_all p) (bytes ++ rest))
          (decode_message-encode_message p v m bytes rest h.0.0 h.0.1)
      ∙ ap (λ t. emit p (seen_body p v m.body) (drain_all p t))
          (drop-length (length bytes) bytes rest refl)
      ∙ ap (emit p (seen_body p v m.body)) (drain_all-message_bytes sent h.1)
      ∙ emit-nothing (seen_body p v m.body) (seen_bodies sent)

  -- Messages that are encoded, cut into pieces in any way, sent as data frames, and delivered in
  -- chunks of any size are emitted one by one, in order, as the other side sees them, and both
  -- buffers are empty again. The platform works as documented, the bodies can be read, and the frames
  -- can count their data.
  pub receive-sent :
      (sent : Sent) (pieces : Pieces) (chunk : Bytes) (chunks : List Bytes)
      → AreMessages sent
      → ArePieces pieces
      → piece_data pieces ≡ message_bytes sent
      → concat (chunk ∷ chunks) ≡ piece_bytes pieces
      → (outputs : List (Output p)) × (after : Transport) × (receive p
            (reset_parsers true)
            (chunk ∷ chunks)
          ≡ ok (outputs, after))
        × (bodies p outputs ≡ seen_bodies sent)
        × (after.frame_buffer ≡ [])
        × (after.pending_xpc_data ≡ [])
  receive-sent sent pieces chunk chunks h k same cut =
      let frames = as_frames pieces in
      let parsed =
        append_all-serialize frames chunk chunks (as_frames-AreSent pieces k)
          (cut ∙ sym (as_frames-bytes pieces)) in
      let r =
        receive-Received p (reset_parsers true) (chunk ∷ chunks) (parsed_frames frames) [] refl
          parsed in
      let all : (bodies p r.outputs, r.after.pending_xpc_data) ≡ (seen_bodies sent, []) =
        r.ingested
        ∙ ingest_all-concat p (payloads (parsed_frames frames))
        ∙ ap (drain_all p) (as_frames-payloads pieces ∙ same)
        ∙ drain_all-message_bytes sent h in
      (r.outputs, r.after, r.received, ap (λ z. z.0) all, r.frame_buffer, ap (λ z. z.1) all)
