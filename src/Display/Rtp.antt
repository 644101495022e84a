-- ===== src/Display/Rtp.antt =====
-- `parseRtpPacket` and `isNextSequence` of src/services/ios/display/transport/rtp.ts. On a byte
-- `x & 0x7f` is `x % 128`, `x & 0x80` is bit 7 and so on.
use appium_ios_remotexpc.Prelude.{
  ℕ, ◌+◌, ◌*◌, ◌/◌, ◌%◌, ◌^◌, ◌≤◌, ◌<◌, ◌≡◌, refl, sym, ap, ◌∙◌, ◌⊎◌, inl, inr, Bool, true, false,
  ◌&&◌, not, Option, none, some, [], ◌∷◌, ◌++◌, append_assoc, arith, ltb, leb, ◌==◌, if◌then◌else◌,
  le→ltb, gt→leb, ne→==, length, drop, length-append, take-length, drop-length,
}
use appium_ios_remotexpc.Prelude.Bytes.{
  Bytes, be_bytes, range, byte_at, read_be, of_be-be_bytes, length-be_bytes,
}

-- `RtpPacket`
pub record RtpPacket : Type 0 where
  pub payload_type : ℕ
  pub marker : Bool
  pub sequence : ℕ
  pub timestamp : ℕ
  pub ssrc : ℕ
  pub payload : Bytes

abbrev pub rtp_header_size : ℕ
rtp_header_size = 12

-- The fields behind the header checks, with the payload from `header_length` on.
unfoldable pub packet_at : Bytes → ℕ → Option RtpPacket
packet_at b header_length =
    if ltb (length b) header_length
    then none
    else some (record {
      payload_type = byte_at b 1 % 128;
      marker = not ((byte_at b 1 / 128) % 2 == 0);
      sequence = read_be 2 b 2;
      timestamp = read_be 4 b 4;
      ssrc = read_be 4 b 8;
      payload = drop header_length b;
    })

unfoldable pub parse_rtp_packet : Bytes → Option RtpPacket
parse_rtp_packet b =
    let payload_type = byte_at b 1 % 128 in
    let fixed = rtp_header_size + byte_at b 0 % 16 * 4 in
    if ltb (length b) rtp_header_size
    then none
    else if leb 64 payload_type && leb payload_type 95
    then none
    else if (byte_at b 0 / 16) % 2 == 0
    then packet_at b fixed
    else if ltb (length b) (fixed + 4)
    then none
    else packet_at b (fixed + (4 + read_be 2 b (fixed + 2) * 4))

-- `sequence === ((previous + 1) & 0xffff)`
unfoldable pub is_next_sequence : ℕ → ℕ → Bool
is_next_sequence previous sequence = sequence == (previous + 1) % 65536

-- An RTP packet as RFC 3550 lays it out: version 2, no padding, the CSRC list, and an extension of
-- whole words with its profile.
pub data Extension : Type 0 where
  no_extension : Extension
  extension : (profile words : ℕ) → Bytes → Extension

abbrev pub extension_bit : Extension → ℕ
extension_bit no_extension = 0
extension_bit (extension profile words body) = 16

abbrev pub extension_bytes : Extension → Bytes
extension_bytes no_extension = []
extension_bytes (extension profile words body) = be_bytes 2 profile ++ (be_bytes 2 words ++ body)

abbrev pub marker_bit : Bool → ℕ
marker_bit true = 128
marker_bit false = 0

unfoldable pub lay_out : RtpPacket → ℕ → Bytes → Extension → Bytes
lay_out p csrc_count csrcs ext =
    (128 + extension_bit ext + csrc_count)
    ∷ (marker_bit p.marker + p.payload_type)
    ∷ (be_bytes 2 p.sequence
        ++ (be_bytes 4 p.timestamp
            ++ (be_bytes 4 p.ssrc ++ (csrcs ++ (extension_bytes ext ++ p.payload)))))

pub record IsRtp (p : RtpPacket) : Type 0 where
  pub type_range : p.payload_type < 128
  pub no_rtcp : (p.payload_type < 64) ⊎ (95 < p.payload_type)
  pub sequence_range : p.sequence < 2 ^ 16
  pub timestamp_range : p.timestamp < 2 ^ 32
  pub ssrc_range : p.ssrc < 2 ^ 32

abbrev pub IsExtension : Extension → Type 0
IsExtension no_extension = Unit {0}
IsExtension (extension profile words body) = (words < 2 ^ 16) × (length body ≡ words * 4)

-- Reading a field that stands at a known place.
pub read_be-be_bytes :
    (size v : ℕ) (front rest : Bytes)
    → v < range size
    → read_be size (front ++ (be_bytes size v ++ rest)) (length front) ≡ v
read_be-be_bytes size v front rest h =
    rw
      (
        drop-length (length front) front (be_bytes size v ++ rest) refl,
        take-length size (be_bytes size v) rest (sym (length-be_bytes size v)),
      )
      (of_be-be_bytes size v h)

-- What stands before the payload.
header : RtpPacket → ℕ → Bytes → Extension → Bytes
header p csrc_count csrcs ext =
    (128 + extension_bit ext + csrc_count)
    ∷ (marker_bit p.marker + p.payload_type)
    ∷ (be_bytes 2 p.sequence
        ++ (be_bytes 4 p.timestamp ++ (be_bytes 4 p.ssrc ++ (csrcs ++ extension_bytes ext))))

header-payload :
    (p : RtpPacket) (n : ℕ) (c : Bytes) (x : Extension)
    → lay_out p n c x ≡ header p n c x ++ p.payload
unfolding header lay_out
header-payload p n c x =
    ap
      (λ t.
        (128 + extension_bit x + n)
        ∷ (marker_bit p.marker + p.payload_type)
        ∷ (be_bytes 2 p.sequence ++ (be_bytes 4 p.timestamp ++ (be_bytes 4 p.ssrc ++ t))))
      (sym (append_assoc c (extension_bytes x) p.payload))

length-header :
    (p : RtpPacket) (n : ℕ) (c : Bytes) (x : Extension)
    → length (header p n c x) ≡ 12 + length c + length (extension_bytes x)
unfolding header
length-header p n c x = omega (arith, length-append {0} c (extension_bytes x))

type_field :
    (p : RtpPacket) (n : ℕ) (c : Bytes) (x : Extension)
    → p.payload_type < 128
    → byte_at (lay_out p n c x) 1 % 128 ≡ p.payload_type
unfolding lay_out
type_field p n c x h = go p.marker
  where
    go : (m : Bool) → (marker_bit m + p.payload_type) % 128 ≡ p.payload_type
    go true = omega arith
    go false = omega arith

marker_field :
    (p : RtpPacket) (n : ℕ) (c : Bytes) (x : Extension)
    → p.payload_type < 128
    → not ((byte_at (lay_out p n c x) 1 / 128) % 2 == 0) ≡ p.marker
unfolding lay_out
marker_field p n c x h = go p.marker
  where
    go : (m : Bool) → not (((marker_bit m + p.payload_type) / 128) % 2 == 0) ≡ m
    go true = ap not (ne→== (((128 + p.payload_type) / 128) % 2) 0 (omega arith))
    go false = let e : ((0 + p.payload_type) / 128) % 2 ≡ 0 = omega arith in rw e

packet_at-lay_out :
    (p : RtpPacket) (n : ℕ) (c : Bytes) (x : Extension) (size : ℕ)
    → IsRtp p
    → size ≡ 12 + length c + length (extension_bytes x)
    → packet_at (lay_out p n c x) size ≡ some p
unfolding packet_at
packet_at-lay_out p n c x size v e =
    let h = header p n c x in
    let same : size ≡ length h = e ∙ sym (length-header p n c x) in
    let long : size ≤ length (lay_out p n c x) =
      omega (arith, ap (length {A = ℕ}) (header-payload p n c x), length-append {0} h p.payload) in
    rw (le→ltb (length (lay_out p n c x)) size long)
      (ap some (fields (rw (header-payload p n c x) (drop-length size h p.payload same))))
  where
    sequence_field : read_be 2 (lay_out p n c x) 2 ≡ p.sequence
    sequence_field = unfold lay_out in of_be-be_bytes 2 p.sequence v.sequence_range

    timestamp_field : read_be 4 (lay_out p n c x) 4 ≡ p.timestamp
    timestamp_field = unfold lay_out in of_be-be_bytes 4 p.timestamp v.timestamp_range

    ssrc_field : read_be 4 (lay_out p n c x) 8 ≡ p.ssrc
    ssrc_field = unfold lay_out in of_be-be_bytes 4 p.ssrc v.ssrc_range

    fields :
        drop size (lay_out p n c x) ≡ p.payload
        → record {
          payload_type = byte_at (lay_out p n c x) 1 % 128;
          marker = not ((byte_at (lay_out p n c x) 1 / 128) % 2 == 0);
          sequence = read_be 2 (lay_out p n c x) 2;
          timestamp = read_be 4 (lay_out p n c x) 4;
          ssrc = read_be 4 (lay_out p n c x) 8;
          payload = drop size (lay_out p n c x);
        }
          ≡ p
    fields d = λ i. record {
      payload_type = type_field p n c x v.type_range i;
      marker = marker_field p n c x v.type_range i;
      sequence = sequence_field i;
      timestamp = timestamp_field i;
      ssrc = ssrc_field i;
      payload = d i;
    }

not_rtcp : (t : ℕ) → (t < 64) ⊎ (95 < t) → (leb 64 t && leb t 95) ≡ false
not_rtcp t (inl h) = rw (gt→leb 64 t h)
not_rtcp t (inr h) = ground arith

first_byte :
    (p : RtpPacket) (n : ℕ) (c : Bytes) (x : Extension)
    → n < 16
    → byte_at (lay_out p n c x) 0 % 16 ≡ n
unfolding lay_out
first_byte p n c no_extension h = omega arith
first_byte p n c (extension profile words body) h = omega arith

length-lay_out :
    (p : RtpPacket) (n : ℕ) (c : Bytes) (x : Extension)
    → length (lay_out p n c x) ≡ 12 + length c + length (extension_bytes x) + length p.payload
length-lay_out p n c x = omega (
  arith,
  ap (length {A = ℕ}) (header-payload p n c x),
  length-append {0} (header p n c x) p.payload,
  length-header p n c x,
)

-- The length field of the extension stands behind the fixed header, the CSRC list and the profile.
words_field :
    (p : RtpPacket) (n : ℕ) (c body : Bytes) (profile words at : ℕ)
    → words < 2 ^ 16
    → at ≡ 14 + length c
    → read_be 2 (lay_out p n c (extension profile words body)) at ≡ words
words_field p n c body profile words at h e =
    rw (e, place, size) (read_be-be_bytes 2 words front (body ++ p.payload) h)
  where
    front : Bytes
    front =
        (128 + 16 + n)
        ∷ (marker_bit p.marker + p.payload_type)
        ∷ (be_bytes 2 p.sequence
            ++ (be_bytes 4 p.timestamp ++ (be_bytes 4 p.ssrc ++ (c ++ be_bytes 2 profile))))

    size : 14 + length c ≡ length front
    size = omega (arith, length-append {0} c (be_bytes 2 profile))

    place :
        lay_out p n c (extension profile words body)
        ≡ front ++ (be_bytes 2 words ++ (body ++ p.payload))
    place =
        unfold lay_out in
        ap
          (λ t.
            (128 + 16 + n)
            ∷ (marker_bit p.marker + p.payload_type)
            ∷ (be_bytes 2 p.sequence ++ (be_bytes 4 p.timestamp ++ (be_bytes 4 p.ssrc ++ t))))
          (sym (append_assoc c (be_bytes 2 profile) (be_bytes 2 words ++ (body ++ p.payload))))

-- `parseRtpPacket` reads a packet laid out as RFC 3550 has it: the fields are the packet's, and the
-- payload is what stands behind the CSRC list and the extension, for each count of CSRC entries,
-- with an extension of any length in words or none, and any payload type that is not RTCP's.
pub parse_rtp_packet-lay_out :
    (p : RtpPacket) (n : ℕ) (c : Bytes) (x : Extension)
    → IsRtp p
    → n < 16
    → length c ≡ n * 4
    → IsExtension x
    → parse_rtp_packet (lay_out p n c x) ≡ some p
unfolding parse_rtp_packet
parse_rtp_packet-lay_out p n c no_extension v hn hc hx =
    let b = lay_out p n c no_extension in
    let size = length-lay_out p n c no_extension in
    let bit : (byte_at b 0 / 16) % 2 ≡ 0 = unfold lay_out in omega arith in
    rw
      (
        le→ltb (length b) 12 (omega arith),
        type_field p n c no_extension v.type_range,
        not_rtcp p.payload_type v.no_rtcp,
        bit,
        first_byte p n c no_extension hn,
      )
      (packet_at-lay_out p n c no_extension (12 + n * 4) v (omega arith))
parse_rtp_packet-lay_out p n c (extension profile words body) v hn hc hx =
    let x = extension profile words body in
    let b = lay_out p n c x in
    let size = length-lay_out p n c x in
    let bit : (byte_at b 0 / 16) % 2 ≡ 1 = unfold lay_out in omega arith in
    rw
      (
        le→ltb (length b) 12 (omega arith),
        type_field p n c x v.type_range,
        not_rtcp p.payload_type v.no_rtcp,
        bit,
        first_byte p n c x hn,
        le→ltb (length b) (12 + n * 4 + 4) (omega arith),
        words_field p n c body profile words (12 + n * 4 + 2) hx.0 (omega arith),
      )
      (packet_at-lay_out p n c x (12 + n * 4 + (4 + words * 4)) v (omega arith))
