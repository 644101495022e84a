-- ===== src/Tlv/Runs.antt =====
-- Runs of the TLV8 codec, and its theorems at these inputs.
use appium_ios_remotexpc.Prelude.{◌≡◌, refl, ◌≢◌, List, [], ◌∷◌, arith, replicate, All}
use appium_ios_remotexpc.Prelude.Result.{ok, err, stuck, ◌>>=◌}
use appium_ios_remotexpc.Prelude.Bytes.{Bytes}
use appium_ios_remotexpc.Tlv.Encode.{Item, make_item, encode_fragments, encode_item, encode_tlv8}
use appium_ios_remotexpc.Tlv.Decode.{
  decode_loop, decode_tlv8, decode_tlv8_to_dict, lookup, no_header, no_value,
}
use appium_ios_remotexpc.Tlv.Laws.{
  split_items, HasByteType, decode_tlv8-encode_tlv8, decode_tlv8-ne-stuck,
}
use appium_ios_remotexpc.Tlv.Inverse.{encode_tlv8-decode_tlv8}
use appium_ios_remotexpc.Tlv.Dict.{values, non_empty, lookup-decode_tlv8_to_dict}

-- METHOD 0, STATE 1 and a PUBLIC_KEY of 300 bytes.
abbrev setup : List Item
setup = make_item 0 (0 ∷ []) ∷ make_item 6 (1 ∷ []) ∷ make_item 3 (replicate 300 7) ∷ []

abbrev two_items : Bytes
two_items = 0 ∷ 1 ∷ 0 ∷ 6 ∷ 2 ∷ 1 ∷ 9 ∷ []

encode_two : encode_tlv8 (make_item 0 (0 ∷ []) ∷ make_item 6 (1 ∷ 9 ∷ []) ∷ []) ≡ two_items
unfolding encode_tlv8 encode_item encode_fragments
encode_two = refl

decode_two : decode_tlv8 two_items ≡ ok (make_item 0 (0 ∷ []) ∷ make_item 6 (1 ∷ 9 ∷ []) ∷ [])
unfolding decode_tlv8 decode_loop
decode_two = refl

decode_cut_header : decode_tlv8 (0 ∷ 1 ∷ 0 ∷ 6 ∷ []) ≡ err no_header
unfolding decode_tlv8 decode_loop
decode_cut_header = refl

decode_cut_value : decode_tlv8 (0 ∷ 2 ∷ 0 ∷ []) ≡ err no_value
unfolding decode_tlv8 decode_loop
decode_cut_value = refl

setup-HasByteType : All HasByteType setup
setup-HasByteType = omega arith

decode_tlv8-encode_tlv8_example : decode_tlv8 (encode_tlv8 setup) ≡ ok (split_items setup)
decode_tlv8-encode_tlv8_example = decode_tlv8-encode_tlv8 setup setup-HasByteType

lookup-decode_tlv8_to_dict_example :
    (decode_tlv8_to_dict (encode_tlv8 setup) >>= λ dict. ok (lookup 3 dict))
    ≡ ok (non_empty (values 3 setup))
lookup-decode_tlv8_to_dict_example = lookup-decode_tlv8_to_dict setup 3 setup-HasByteType

encode_tlv8-decode_tlv8_example :
    encode_tlv8 (make_item 0 (0 ∷ []) ∷ make_item 6 (1 ∷ 9 ∷ []) ∷ []) ≡ two_items
encode_tlv8-decode_tlv8_example =
    encode_tlv8-decode_tlv8 two_items (make_item 0 (0 ∷ []) ∷ make_item 6 (1 ∷ 9 ∷ []) ∷ [])
      decode_two (omega arith) (omega arith)

decode_tlv8-ne-stuck_example : decode_tlv8 two_items ≢ stuck
decode_tlv8-ne-stuck_example = decode_tlv8-ne-stuck two_items
