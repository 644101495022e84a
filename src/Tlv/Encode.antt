-- ===== src/Tlv/Encode.antt =====
-- `encodeTLV8` of src/lib/apple-tv/tlv/encoder.ts.
use appium_ios_remotexpc.Prelude.{ℕ, zero, suc, ◌%◌, min, List, [], ◌∷◌, ◌++◌, length, take, drop}
use appium_ios_remotexpc.Prelude.Bytes.{Bytes}

-- `TLV8Item`
pub record Item : Type 0 where
  pub type : ℕ
  pub value : Bytes

abbrev pub make_item : ℕ → Bytes → Item
make_item type value = record { type = type; value = value }

-- `TLV8_MAX_FRAGMENT_SIZE`
abbrev pub max_fragment_size : ℕ
max_fragment_size = 255

-- `Buffer.from([type, fragmentLength])`: Buffer.from takes each number modulo 256.
abbrev pub header : ℕ → ℕ → Bytes
header type size = type % 256 ∷ size % 256 ∷ []

-- The inner loop, on the part of `data` from `offset` on. A round takes a byte at least, so
-- `length data` rounds are enough (`Tlv.Laws`).
unfoldable pub encode_fragments : ℕ → ℕ → Bytes → Bytes
encode_fragments fuel type [] = []
encode_fragments zero type (b ∷ bs) = []
encode_fragments (suc fuel) type (b ∷ bs) =
    let size = min max_fragment_size (length (b ∷ bs)) in
    header type size ++ (take size (b ∷ bs) ++ encode_fragments fuel type (drop size (b ∷ bs)))

unfoldable pub encode_item : Item → Bytes
encode_item item = encode_fragments (length item.value) item.type item.value

unfoldable pub encode_tlv8 : List Item → Bytes
encode_tlv8 [] = []
encode_tlv8 (item ∷ items) = encode_item item ++ encode_tlv8 items
