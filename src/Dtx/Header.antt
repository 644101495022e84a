-- ===== src/Dtx/Header.antt =====
-- The two headers of a DTX message, from src/services/ios/dvt/dtx-message.ts.
use appium_ios_remotexpc.Prelude.{
  ℕ, ◌^◌, ◌≤◌, ◌<◌, ◌≡◌, ap, ◌∙◌, inl, inr, Bool, true, ◌&&◌, ◌++◌, arith, ltb, if◌then◌else◌,
  lt→ltb, le→ltb, Bool-cases, length,
}
use appium_ios_remotexpc.Prelude.Result.{Result, ok, err, ◌>>=◌, ◌>>◌, guard}
use appium_ios_remotexpc.Prelude.Bytes.{Bytes, le_bytes, of_le, read_le, of_le-le_bytes}
use appium_ios_remotexpc.Prelude.Int.{
  ℤ, to_signed, of_signed, fits_signed, of_signed-range, to_signed-of_signed,
}

pub data Error : Type 0 where
  too_small out_of_range : Error

-- `DTXMessageHeader`
pub record MessageHeader : Type 0 where
  pub magic : ℕ
  pub cb : ℕ
  pub fragment_id : ℕ
  pub fragment_count : ℕ
  pub size : ℕ
  pub identifier : ℕ
  pub conversation_index : ℕ
  pub channel_code : ℤ
  pub expects_reply : ℕ

-- `DTXMessagePayloadHeader`
pub record PayloadHeader : Type 0 where
  pub flags : ℕ
  pub auxiliary_length : ℕ
  pub total_length : ℕ

-- Whether `writeUInt…LE` of so many bytes takes a number.
unfoldable pub fits : ℕ → ℕ → Bool
fits size v = ltb v (256 ^ size)

-- `parseMessageHeader`
unfoldable pub parse_message_header : Bytes → Result Error MessageHeader
parse_message_header buffer =
    if ltb (length buffer) 32
    then err too_small
    else ok (record {
      magic = read_le 4 buffer 0;
      cb = read_le 4 buffer 4;
      fragment_id = read_le 2 buffer 8;
      fragment_count = read_le 2 buffer 10;
      size = read_le 4 buffer 12;
      identifier = read_le 4 buffer 16;
      conversation_index = read_le 4 buffer 20;
      channel_code = to_signed (2 ^ 31) (read_le 4 buffer 24);
      expects_reply = read_le 4 buffer 28;
    })

-- Whether each number fits its field; a write that does not fit throws a `RangeError`.
unfoldable pub header_fits : MessageHeader → Bool
header_fits h =
    fits 4 h.magic
    && fits 4 h.cb
    && fits 2 h.fragment_id
    && fits 2 h.fragment_count
    && fits 4 h.size
    && fits 4 h.identifier
    && fits 4 h.conversation_index
    && fits_signed (2 ^ 31) h.channel_code
    && fits 4 h.expects_reply

abbrev pub header_bytes : MessageHeader → Bytes
header_bytes h =
    le_bytes 4 h.magic
    ++ (le_bytes 4 h.cb
        ++ (le_bytes 2 h.fragment_id
            ++ (le_bytes 2 h.fragment_count
                ++ (le_bytes 4 h.size
                    ++ (le_bytes 4 h.identifier
                        ++ (le_bytes 4 h.conversation_index
                            ++ (le_bytes 4 (of_signed (2 ^ 31) h.channel_code)
                                ++ le_bytes 4 h.expects_reply)))))))

-- `buildMessageHeader`
unfoldable pub build_message_header : MessageHeader → Result Error Bytes
build_message_header h = guard (header_fits h) out_of_range >> ok (header_bytes h)

-- `parsePayloadHeader`
unfoldable pub parse_payload_header : Bytes → Result Error PayloadHeader
parse_payload_header buffer =
    if ltb (length buffer) 16
    then err too_small
    else ok (record {
      flags = read_le 4 buffer 0;
      auxiliary_length = read_le 4 buffer 4;
      total_length = read_le 8 buffer 8;
    })

-- `buildPayloadHeader`
unfoldable pub build_payload_header : PayloadHeader → Result Error Bytes
build_payload_header h = do
  guard (fits 4 h.flags && fits 4 h.auxiliary_length && fits 8 h.total_length) out_of_range
  ok (le_bytes 4 h.flags ++ (le_bytes 4 h.auxiliary_length ++ le_bytes 8 h.total_length))

-- The numbers of a header that fits, each in its range.
record IsInRange (h : MessageHeader) : Type 0 where
  magic : h.magic < 2 ^ 32
  cb : h.cb < 2 ^ 32
  fragment_id : h.fragment_id < 2 ^ 16
  fragment_count : h.fragment_count < 2 ^ 16
  size : h.size < 2 ^ 32
  identifier : h.identifier < 2 ^ 32
  conversation_index : h.conversation_index < 2 ^ 32
  channel_code : fits_signed (2 ^ 31) h.channel_code ≡ true
  expects_reply : h.expects_reply < 2 ^ 32

header_fits-IsInRange : (h : MessageHeader) → header_fits h ≡ true → IsInRange h
unfolding header_fits fits
header_fits-IsInRange h e = record {
  magic = ground arith;
  cb = ground arith;
  fragment_id = ground arith;
  fragment_count = ground arith;
  size = ground arith;
  identifier = ground arith;
  conversation_index = ground arith;
  channel_code = ground arith;
  expects_reply = ground arith;
}

-- The check for the size of a buffer that is large enough.
long_enough : {A : Type 0} (a b : ℕ) (x y : A) → b ≤ a → (if ltb a b then x else y) ≡ y
long_enough a b x y h = rw (le→ltb a b h)

parse-header_bytes :
    (h : MessageHeader) (rest : Bytes)
    → IsInRange h
    → parse_message_header (header_bytes h ++ rest) ≡ ok h
unfolding parse_message_header
parse-header_bytes h rest r =
    long_enough (length (header_bytes h ++ rest)) 32 _ _ (omega arith) ∙ λ i. ok (record {
      magic = of_le-le_bytes 4 h.magic r.magic i;
      cb = of_le-le_bytes 4 h.cb r.cb i;
      fragment_id = of_le-le_bytes 2 h.fragment_id r.fragment_id i;
      fragment_count = of_le-le_bytes 2 h.fragment_count r.fragment_count i;
      size = of_le-le_bytes 4 h.size r.size i;
      identifier = of_le-le_bytes 4 h.identifier r.identifier i;
      conversation_index = of_le-le_bytes 4 h.conversation_index r.conversation_index i;
      channel_code = code i;
      expects_reply = of_le-le_bytes 4 h.expects_reply r.expects_reply i;
    })
  where
    code :
        to_signed (2 ^ 31) (of_le (le_bytes 4 (of_signed (2 ^ 31) h.channel_code))) ≡ h.channel_code
    code =
        ap (to_signed (2 ^ 31)) (
          of_le-le_bytes 4 (of_signed (2 ^ 31) h.channel_code)
            (of_signed-range (2 ^ 31) h.channel_code r.channel_code))
        ∙ to_signed-of_signed (2 ^ 31) h.channel_code r.channel_code

-- A header that is built is read again, whatever stands behind it, the code of the channel with its
-- sign; and `buildMessageHeader` throws exactly if a number does not fit its field.
pub parse_message_header-build :
    (h : MessageHeader) (rest : Bytes)
    → (build_message_header h >>= λ b. parse_message_header (b ++ rest))
      ≡ (if header_fits h then ok h else err out_of_range)
unfolding build_message_header
parse_message_header-build h rest = elim (Bool-cases (header_fits h)) [
  | inl e ↦ good e
  | inr e ↦ rw e
]
  where
    good :
        header_fits h ≡ true
        → (build_message_header h >>= λ b. parse_message_header (b ++ rest))
          ≡ (if header_fits h then ok h else err out_of_range)
    good e = rw (e, parse-header_bytes h rest (header_fits-IsInRange h e))

-- The same for the header of the payload, whose total length has 64 bits.
pub parse_payload_header-build :
    (h : PayloadHeader) (rest : Bytes)
    → h.flags < 2 ^ 32
    → h.auxiliary_length < 2 ^ 32
    → h.total_length < 2 ^ 64
    → (build_payload_header h >>= λ b. parse_payload_header (b ++ rest)) ≡ ok h
unfolding build_payload_header parse_payload_header fits
parse_payload_header-build h rest p q r =
    built ∙ long_enough (length (bytes ++ rest)) 16 _ _ (omega arith) ∙ λ i. ok (record {
      flags = of_le-le_bytes 4 h.flags p i;
      auxiliary_length = of_le-le_bytes 4 h.auxiliary_length q i;
      total_length = of_le-le_bytes 8 h.total_length r i;
    })
  where
    bytes : Bytes
    bytes = le_bytes 4 h.flags ++ (le_bytes 4 h.auxiliary_length ++ le_bytes 8 h.total_length)

    built :
        (build_payload_header h >>= λ b. parse_payload_header (b ++ rest))
        ≡ parse_payload_header (bytes ++ rest)
    built = rw (
      lt→ltb h.flags (2 ^ 32) p,
      lt→ltb h.auxiliary_length (2 ^ 32) q,
      lt→ltb h.total_length (2 ^ 64) r,
    )
