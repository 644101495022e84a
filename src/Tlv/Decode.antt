-- ===== src/Tlv/Decode.antt =====
-- `decodeTLV8` and `decodeTLV8ToDict` of src/lib/apple-tv/tlv/decoder.ts.
use appium_ios_remotexpc.Prelude.{
  ℕ, zero, suc, Option, none, some, List, [], ◌∷◌, ◌++◌, ltb, ◌==◌, if◌then◌else◌, length, take,
  drop,
}
use appium_ios_remotexpc.Prelude.Result.{Result, ok, err, stuck, ◌>>=◌}
use appium_ios_remotexpc.Prelude.Bytes.{Bytes}
use appium_ios_remotexpc.Tlv.Encode.{Item, make_item}

-- The two `TLV8Error`s.
pub data Error : Type 0 where
  no_header no_value : Error

-- The loop on the part of the buffer from `offset` on; a round takes two bytes at least.
unfoldable pub decode_loop : ℕ → Bytes → List Item → Result Error (List Item)
decode_loop fuel [] items = ok items
decode_loop zero (type ∷ rest) items = stuck
decode_loop (suc fuel) (type ∷ []) items = err no_header
decode_loop (suc fuel) (type ∷ size ∷ rest) items =
    let item = make_item type (take size rest) in
    let more = decode_loop fuel (drop size rest) (items ++ (item ∷ [])) in
    if ltb (length rest) size then err no_value else more

unfoldable pub decode_tlv8 : Bytes → Result Error (List Item)
decode_tlv8 buffer = decode_loop (length buffer) buffer []

-- A dictionary is the list of its entries, one to a type; `result[type] ??= []` and the push.
abbrev pub Dict : Type 0
Dict = List (ℕ × Bytes)

unfoldable pub add_item : ℕ → Bytes → Dict → Dict
add_item type value [] = (type, value) ∷ []
add_item type value ((t, v) ∷ dict) =
    if t == type then (t, v ++ value) ∷ dict else (t, v) ∷ add_item type value dict

unfoldable pub collect : Dict → List Item → Dict
collect dict [] = dict
collect dict (item ∷ items) = collect (add_item item.type item.value dict) items

unfoldable pub decode_tlv8_to_dict : Bytes → Result Error Dict
decode_tlv8_to_dict buffer = do items ← decode_tlv8 buffer; ok (collect [] items)

-- `dict[type]`, `none` for `undefined`
unfoldable pub lookup : ℕ → Dict → Option Bytes
lookup type [] = none
lookup type ((t, v) ∷ dict) = if t == type then some v else lookup type dict
