-- ===== src/Display/Hevc.antt =====
-- `HevcDepacketizer` of src/services/ios/display/video/hevc.ts (RFC 7798). A byte's bits are read by
-- `/` and `%`: `(b >> 1) & 0x3f` is `b / 2 % 64`, and `x | (t << 1)` of disjoint bits is a sum.
use appium_ios_remotexpc.Prelude.{
  ℕ, zero, suc, ◌+◌, ◌-◌, ◌*◌, ◌/◌, ◌%◌, Bool, true, false, ◌&&◌, ◌||◌, not, List, [], ◌∷◌, ◌++◌,
  ltb, ◌==◌, if◌then◌else◌, length, take, drop, concat,
}
use appium_ios_remotexpc.Prelude.Bytes.{Bytes, of_be, byte_at}

-- `nalTypeOf`
unfoldable pub nal_type_of : Bytes → ℕ
nal_type_of nal = byte_at nal 0 / 2 % 64

-- `isKeyNalType`: IDR_W_RADL, IDR_N_LP and CRA.
unfoldable pub is_key_nal_type : ℕ → Bool
is_key_nal_type t = t == 19 || (t == 20 || t == 21)

-- `Buffer.equals`
unfoldable pub equals : Bytes → Bytes → Bool
equals [] [] = true
equals [] (y ∷ ys) = false
equals (x ∷ xs) [] = false
equals (x ∷ xs) (y ∷ ys) = x == y && equals xs ys

-- `DISPLAY_SERVICE_NAL_TRAILER`
abbrev pub trailer : Bytes
trailer = 0x04 ∷ 0xf0 ∷ 0x0a ∷ 0xc0 ∷ 0 ∷ 0 ∷ 0x03 ∷ 0 ∷ 0 ∷ 0x04 ∷ 0xec ∷ 0x0a ∷ 0xb0 ∷ 0x03 ∷ []

-- `stripDisplayServiceTrailer`; a negative `start` is no start either.
unfoldable pub strip_trailer : Bytes → Bytes
strip_trailer nal =
    let start = length nal - 14 in
    if ltb 0 start && equals (drop start nal) trailer then take start nal else nal

-- The fragments so far, and whether a start has been seen.
pub record Depacketizer : Type 0 where
  pub fu_buffer : List Bytes
  pub fu_active : Bool

abbrev pub idle : Depacketizer
idle = record { fu_buffer = []; fu_active = false }

-- `reset`
unfoldable pub reset : Depacketizer → Depacketizer
reset d = idle

-- The loop of `pushAggregationPacket` on the part of the payload from `offset` on: a truncated last
-- entry gives what is there. A round takes two bytes, so the length is fuel enough.
unfoldable pub aggregated : ℕ → Bytes → List Bytes
aggregated fuel [] = []
aggregated fuel (a ∷ []) = []
aggregated zero (a ∷ b ∷ rest) = []
aggregated (suc fuel) (a ∷ b ∷ rest) =
    let size = of_be (a ∷ b ∷ []) in take size rest ∷ aggregated fuel (drop size rest)

unfoldable pub push_aggregation_packet : Bytes → List Bytes
push_aggregation_packet payload = aggregated (length payload) (drop 2 payload)

-- The NAL header that the fragments stand for: `(payload[0] & 0x81) | (type << 1)`.
abbrev pub fu_nal_header : Bytes → Bytes
fu_nal_header payload =
    (byte_at payload 0 / 128 * 128 + byte_at payload 0 % 2 + byte_at payload 2 % 64 * 2) % 256
    ∷ byte_at payload 1
    ∷ []

-- The end of `pushFragmentationUnit`: with the end bit the NAL is complete.
unfoldable pub finish_unit : Bool → Depacketizer → Depacketizer × List Bytes
unfolding reset
finish_unit is_end d =
    let nal = concat d.fu_buffer in
    if is_end && d.fu_active
    then (reset d, if ltb 0 (length nal) then strip_trailer nal ∷ [] else [])
    else (d, [])

unfoldable pub push_fragmentation_unit : Depacketizer → Bytes → Depacketizer × List Bytes
unfolding finish_unit
push_fragmentation_unit d payload =
    let fu_header = byte_at payload 2 in
    let is_start = not (fu_header / 128 % 2 == 0) in
    let is_end = not (fu_header / 64 % 2 == 0) in
    let begun = record d {
      fu_buffer = fu_nal_header payload ∷ drop 3 payload ∷ [];
      fu_active = true;
    } in
    if ltb (length payload) 3
    then (d, [])
    else if is_start
    then finish_unit is_end begun
    else if d.fu_active
    then finish_unit is_end (record d { fu_buffer = d.fu_buffer ++ (drop 3 payload ∷ []) })
    else (d, [])

-- `push`
unfoldable pub push : Depacketizer → Bytes → Depacketizer × List Bytes
push d payload =
    if ltb (length payload) 2
    then (d, [])
    else if nal_type_of payload == 48
    then (d, push_aggregation_packet payload)
    else if nal_type_of payload == 49
    then push_fragmentation_unit d payload
    else (d, strip_trailer payload ∷ [])

unfoldable pub push_all : Depacketizer → List Bytes → Depacketizer × List Bytes
push_all d [] = (d, [])
push_all d (payload ∷ payloads) =
    let (d', nals) = push d payload in let (d'', more) = push_all d' payloads in (d'', nals ++ more)
