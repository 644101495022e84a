-- ===== src/Http/Stream.antt =====
-- What the parser reads of a stream of frames that were serialised.
use appium_ios_remotexpc.Prelude.{◌≡◌, ap, ◌∙◌, ◌≢◌, List, [], ◌∷◌, ◌++◌, map, arith, concat, All}
use appium_ios_remotexpc.Prelude.Result.{Result, ok, stuck}
use appium_ios_remotexpc.Prelude.Bytes.{Bytes}
use appium_ios_remotexpc.Framing.{
  accept, accept_all, read_buffer, accept_all-eq, read_buffer-frame, read_buffer-nil,
  read_buffer-ne-stuck,
}
use appium_ios_remotexpc.Http.Frames.{Error, Frame}
use appium_ios_remotexpc.Http.Parser.{ParsedFrame, append, http_framing}
use appium_ios_remotexpc.Http.ReadBack.{
  IsSent, parsed_body, http_framing-IsFraming, http_total, parse_frame-serialize,
}

-- `append` on a stream in chunks, one call to a chunk.
abbrev pub append_all : List Bytes → Result Error (List ParsedFrame × Bytes)
append_all chunks = accept_all http_framing [] chunks

-- What is read of the frames, and their bytes.
abbrev pub parsed_frames : List (Frame × Bytes) → List ParsedFrame
parsed_frames sent = map (λ (f, bytes). parsed_body f.body f.flags f.stream_id) sent

abbrev pub sent_bytes : List (Frame × Bytes) → Bytes
sent_bytes sent = concat (map (λ (f, bytes). bytes) sent)

abbrev pub AreSent : List (Frame × Bytes) → Type 0
AreSent sent = All (λ (f, bytes). IsSent f bytes) sent

read_buffer-sent :
    (sent : List (Frame × Bytes))
    → AreSent sent
    → read_buffer http_framing (sent_bytes sent) ≡ ok (parsed_frames sent, [])
unfolding http_framing
read_buffer-sent [] v = read_buffer-nil http_framing http_framing-IsFraming (omega arith)
read_buffer-sent ((f, bytes) ∷ sent) v =
    let size = http_total f bytes v.0 in
    read_buffer-frame http_framing http_framing-IsFraming (parsed_body f.body f.flags f.stream_id)
      bytes (sent_bytes sent) size.0 size.1 (parse_frame-serialize f bytes v.0)
    ∙ rw (read_buffer-sent sent v.1)

-- A stream of serialised frames, each with a body below 2^24 bytes, is parsed to just these frames,
-- in order and with nothing left over, however it is cut into chunks. Of a data frame its stream, its
-- data and the size of its body come back, the padding off where it is announced.
pub append_all-serialize :
    (sent : List (Frame × Bytes)) (chunk : Bytes) (chunks : List Bytes)
    → AreSent sent
    → concat (chunk ∷ chunks) ≡ sent_bytes sent
    → append_all (chunk ∷ chunks) ≡ ok (parsed_frames sent, [])
append_all-serialize sent chunk chunks v e =
    accept_all-eq http_framing http_framing-IsFraming [] chunk chunks
    ∙ ap (read_buffer http_framing) e
    ∙ read_buffer-sent sent v

-- The loop of `append` ends on every buffer and chunk.
pub append-ne-stuck : (buffer chunk : Bytes) → append buffer chunk ≢ stuck
unfolding append accept
append-ne-stuck buffer chunk =
    read_buffer-ne-stuck http_framing http_framing-IsFraming (buffer ++ chunk)
