-- ===== src/Afc/Packets.antt =====
-- The packets of src/services/ios/afc/codec.ts.
use appium_ios_remotexpc.Prelude.{
  ℕ, ◌+◌, ◌-◌, ◌^◌, ◌<◌, ◌≡◌, ap, ◌∙◌, Bool, true, false, ◌&&◌, [], ◌∷◌, ◌++◌, arith, ltb, leb,
  ◌==◌, if◌then◌else◌, lt→ltb, le→leb, length, take, drop, length-append, take-length, drop-length,
}
use appium_ios_remotexpc.Prelude.Result.{Result, ok, err, ◌>>=◌, ◌>>◌, guard}
use appium_ios_remotexpc.Prelude.Bytes.{Bytes, le_bytes, read_le, of_le-le_bytes}

-- A read that the stream does not fill waits until it times out.
pub data Error : Type 0 where
  timed_out invalid_magic out_of_range : Error

-- `AfcHeader`, behind the magic.
pub record Header : Type 0 where
  pub entire_length : ℕ
  pub this_length : ℕ
  pub packet_num : ℕ
  pub operation : ℕ

-- `AfcResponse`
pub record Response : Type 0 where
  pub status : ℕ
  pub payload : Bytes
  pub operation : ℕ
  pub raw_header : Header

-- `AFCMAGIC`, the text CFA6LPAA
abbrev pub magic : Bytes
magic = 67 ∷ 70 ∷ 65 ∷ 54 ∷ 76 ∷ 80 ∷ 65 ∷ 65 ∷ []

unfoldable pub same_bytes : Bytes → Bytes → Bool
same_bytes [] [] = true
same_bytes [] (y ∷ ys) = false
same_bytes (x ∷ xs) [] = false
same_bytes (x ∷ xs) (y ∷ ys) = (x == y) && same_bytes xs ys

-- `writeUInt64LE`: more than 64 bits throw.
unfoldable pub write_uint64_le : ℕ → Result Error Bytes
write_uint64_le v = guard (ltb v (2 ^ 64)) out_of_range >> ok (le_bytes 8 v)

-- `encodeHeaderExplicit`
unfoldable pub encode_header_explicit : (op packet_num entire_len this_len : ℕ) → Result Error Bytes
encode_header_explicit op packet_num entire_len this_len = do
  entire ← write_uint64_le entire_len
  this ← write_uint64_le this_len
  num ← write_uint64_le packet_num
  operation ← write_uint64_le op
  ok (magic ++ (entire ++ (this ++ (num ++ operation))))

-- `encodeHeader`
unfoldable pub encode_header : (op packet_num payload_len : ℕ) → Result Error Bytes
encode_header op packet_num payload_len =
    encode_header_explicit op packet_num (40 + payload_len) (40 + payload_len)

-- What `sendAfcPacket` writes in its three writes.
unfoldable pub send_afc_packet : (op packet_num : ℕ) → Bytes → Bytes → Result Error Bytes
send_afc_packet op packet_num header_payload content = do
  let this_len = 40 + length header_payload
  let entire_len = this_len + length content
  header ← encode_header_explicit op packet_num entire_len this_len
  ok (header ++ (header_payload ++ content))

-- `readExact` on the bytes that come from the socket, and those behind.
unfoldable pub read_exact : ℕ → Bytes → Result Error (Bytes × Bytes)
read_exact n stream =
    if leb n (length stream) then ok (take n stream, drop n stream) else err timed_out

-- `readAfcHeader`
unfoldable pub read_afc_header : Bytes → Result Error (Header × Bytes)
read_afc_header stream = do
  (buf, rest) ← read_exact 40 stream
  guard (same_bytes (take 8 buf) magic) invalid_magic
  let header : Header = record {
    entire_length = read_le 8 buf 8;
    this_length = read_le 8 buf 16;
    packet_num = read_le 8 buf 24;
    operation = read_le 8 buf 32;
  }
  ok (header, rest)

-- The response of a header and its payload: that of the operation STATUS holds the status.
unfoldable pub response_of : Header → Bytes → Result Error Response
response_of header payload =
    let answer : ℕ → Bytes → Response = λ status d. record {
      status = status;
      payload = d;
      operation = header.operation;
      raw_header = header;
    } in
    let status =
      guard (leb 8 (length payload)) out_of_range >> ok (answer (read_le 8 payload 0) []) in
    if header.operation == 1 then status else ok (answer 0 payload)

-- `readAfcResponse`
unfoldable pub read_afc_response : Bytes → Result Error (Response × Bytes)
read_afc_response stream = do
  (header, rest) ← read_afc_header stream
  (payload, rest') ← read_exact (header.entire_length - 40) rest
  response ← response_of header payload
  ok (response, rest')

-- A packet whose numbers have 64 bits.
pub record Fits (op packet_num : ℕ) (header_payload content : Bytes) : Type 0 where
  pub op_fits : op < 2 ^ 64
  pub num_fits : packet_num < 2 ^ 64
  pub size_fits : 40 + length header_payload + length content < 2 ^ 64

abbrev pub header_of : (op packet_num : ℕ) → Bytes → Bytes → Header
header_of op packet_num header_payload content = record {
  entire_length = 40 + length header_payload + length content;
  this_length = 40 + length header_payload;
  packet_num = packet_num;
  operation = op;
}

abbrev pub header_bytes : Header → Bytes
header_bytes h =
    magic
    ++ (le_bytes 8 h.entire_length
        ++ (le_bytes 8 h.this_length ++ (le_bytes 8 h.packet_num ++ le_bytes 8 h.operation)))

write_uint64_le-fits : (v : ℕ) → v < 2 ^ 64 → write_uint64_le v ≡ ok (le_bytes 8 v)
unfolding write_uint64_le
write_uint64_le-fits v h = rw (lt→ltb v (2 ^ 64) h)

send_afc_packet-bytes :
    (op packet_num : ℕ) (p c : Bytes)
    → Fits op packet_num p c
    → send_afc_packet op packet_num p c
      ≡ ok (header_bytes (header_of op packet_num p c) ++ (p ++ c))
unfolding send_afc_packet encode_header_explicit
send_afc_packet-bytes op packet_num p c v = rw (
  write_uint64_le-fits (40 + length p + length c) v.size_fits,
  write_uint64_le-fits (40 + length p) (omega (arith, v.size_fits)),
  write_uint64_le-fits packet_num v.num_fits,
  write_uint64_le-fits op v.op_fits,
)

read_exact-length : (n : ℕ) (a b : Bytes) → n ≡ length a → read_exact n (a ++ b) ≡ ok (a, b)
unfolding read_exact
read_exact-length n a b e = rw (
  le→leb n (length (a ++ b)) (omega (arith, length-append a b)),
  take-length n a b e,
  drop-length n a b e,
)

read_afc_header-bytes :
    (op packet_num : ℕ) (p c rest : Bytes)
    → Fits op packet_num p c
    → read_afc_header (header_bytes (header_of op packet_num p c) ++ rest)
      ≡ ok (header_of op packet_num p c, rest)
unfolding read_afc_header same_bytes
read_afc_header-bytes op packet_num p c rest v =
    rw (read_exact-length 40 (header_bytes (header_of op packet_num p c)) rest (omega arith)) fields
  where
    header : Header
    header = header_of op packet_num p c

    read_back : Bytes → Header
    read_back buf = record {
      entire_length = read_le 8 buf 8;
      this_length = read_le 8 buf 16;
      packet_num = read_le 8 buf 24;
      operation = read_le 8 buf 32;
    }

    answer : Result Error (Header × Bytes)
    answer = ok (read_back (header_bytes header), rest)

    fields : answer ≡ ok (header, rest)
    fields = λ i. ok (
      record {
        entire_length = of_le-le_bytes 8 header.entire_length v.size_fits i;
        this_length = of_le-le_bytes 8 header.this_length (omega (arith, v.size_fits)) i;
        packet_num = of_le-le_bytes 8 packet_num v.num_fits i;
        operation = of_le-le_bytes 8 op v.op_fits i;
      },
      rest,
    )

-- What `sendAfcPacket` writes is read by `readAfcResponse` as one packet, with its payload and its
-- content joined, and nothing of what stands behind it is taken: the response is that of its
-- operation, the status for STATUS and the bytes for any other.
pub read_afc_response-send_afc_packet :
    (op packet_num : ℕ) (p c rest : Bytes)
    → Fits op packet_num p c
    → (send_afc_packet op packet_num p c >>= λ b. read_afc_response (b ++ rest))
      ≡ (response_of (header_of op packet_num p c) (p ++ c) >>= λ r. ok (r, rest))
unfolding read_afc_response
read_afc_response-send_afc_packet op packet_num p c rest v =
    ap (λ r. r >>= λ b. read_afc_response (b ++ rest)) (send_afc_packet-bytes op packet_num p c v)
    ∙ rw (
      read_afc_header-bytes op packet_num p c ((p ++ c) ++ rest) v,
      read_exact-length (40 + length p + length c - 40) (p ++ c) rest size,
    )
  where
    size : 40 + length p + length c - 40 ≡ length (p ++ c)
    size = omega (arith, length-append p c)
