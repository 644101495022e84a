-- ===== src/Mdns/Names.antt =====
-- Names and queries of src/lib/discovery/mdns-protocol.ts. A string is a parameter, as is how it is
-- cut at its dots and joined again.
use appium_ios_remotexpc.Prelude.{
  ℕ, zero, suc, ◌+◌, ◌*◌, ◌/◌, ◌%◌, Bool, true, false, List, [], ◌∷◌, ◌++◌, ltb, leb, ◌==◌,
  if◌then◌else◌, length, take, drop,
}
use appium_ios_remotexpc.Prelude.Result.{Result, ok, err, ◌>>=◌, ◌>>◌, guard}
use appium_ios_remotexpc.Prelude.Bytes.{Bytes, be_bytes, byte_at}
use appium_ios_remotexpc.Prelude.{zero}

-- `labels_of` is `name.replace(a dot at the end, '')` cut at the dots, without labels for the empty string, and
-- `join` is `labels.join('.')` with a dot behind it.
pub record Strings : Type 1 where
  pub Text : Type 0
  pub labels_of : Text → List Text
  pub join : List Text → Text
  pub to_utf8 : Text → Bytes
  pub of_utf8 : Bytes → Text

pub data Error : Type 0 where
  label_too_long second_octet_missing pointer_past_the_end label_past_the_end : Error

-- `DNS_DECODE_LOOP_LIMIT`
abbrev pub decode_loop_limit : ℕ
decode_loop_limit = 128

module _ (s : Strings) where
  open s use {Text, labels_of, join, to_utf8, of_utf8}

  -- The loop of `encodeName`.
  unfoldable pub encode_labels : List Text → Result Error Bytes
  encode_labels [] = ok (0 ∷ [])
  encode_labels (label ∷ labels) = do
    let bytes = to_utf8 label
    guard (leb (length bytes) 63) label_too_long
    others ← encode_labels labels
    ok (length bytes ∷ (bytes ++ others))

  -- `encodeName`
  unfoldable pub encode_name : Text → Result Error Bytes
  encode_name name = encode_labels (labels_of name)

  -- What `decodeName` returns: the labels, and the offset behind the name in the packet.
  abbrev pub ended : List Text → (offset : ℕ) → (jumped : Bool) → (end : ℕ) → List Text × ℕ
  ended labels offset jumped end = (labels, (if jumped then end else offset))

  -- The loop of `decodeName`, with the rounds that its guard leaves.
  unfoldable pub decode_labels :
      (rounds : ℕ)
      → Bytes
      → (offset : ℕ) → List Text
      → (jumped : Bool) → (end : ℕ) → Result Error (List Text × ℕ)
  decode_labels zero packet offset labels jumped end = ok (ended labels offset jumped end)
  decode_labels (suc rounds) packet offset labels jumped end =
      let size = byte_at packet offset in
      let pointer = size % 64 * 256 + byte_at packet (offset + 1) in
      let label_end = offset + 1 + size in
      let follow =
        decode_labels rounds packet pointer labels true (if jumped then end else offset + 2) in
      let more =
        decode_labels rounds packet label_end
          (labels ++ (of_utf8 (take size (drop (offset + 1) packet)) ∷ [])) jumped end in
      if leb (length packet) offset
      then ok (ended labels offset jumped end)
      else if size == 0
      then ok (ended labels (offset + 1) jumped end)
      else if size / 64 == 3
      then if leb (length packet) (offset + 1)
        then err second_octet_missing
        else if leb (length packet) pointer
        then err pointer_past_the_end
        else follow
      else if ltb 63 size
      then err label_too_long
      else if ltb (length packet) label_end
      then err label_past_the_end
      else more

  -- `decodeName`
  unfoldable pub decode_name : Bytes → ℕ → Result Error (Text × ℕ)
  decode_name packet offset = do
    (labels, end) ← decode_labels decode_loop_limit packet offset [] false offset
    ok (join labels, end)

  -- `buildQuery`: the six numbers of the header, the name, the type and the class.
  unfoldable pub build_query : Text → (qtype : ℕ) → (unicast : Bool) → Result Error Bytes
  build_query name qtype unicast = do
    encoded ← encode_name name
    ok (
        (0 ∷ 0 ∷ 0 ∷ 0 ∷ 0 ∷ 1 ∷ 0 ∷ 0 ∷ 0 ∷ 0 ∷ 0 ∷ 0 ∷ [])
        ++ (encoded ++ (be_bytes 2 qtype ++ be_bytes 2 (if unicast then 0x8001 else 1))))
