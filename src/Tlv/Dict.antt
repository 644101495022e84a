-- ===== src/Tlv/Dict.antt =====
-- `decodeTLV8ToDict`: fragments of one type are joined again.
use appium_ios_remotexpc.Prelude.{
  ℕ, zero, suc, ◌≤◌, ◌<◌, ◌≡◌, refl, sym, ap, ◌∙◌, Option, none, some, List, [], ◌∷◌, ◌++◌,
  append-nil, append_assoc, arith, ◌==◌, if◌then◌else◌, length, All, take-append-drop, All-append,
}
use appium_ios_remotexpc.Prelude.Result.{ok, ◌>>=◌}
use appium_ios_remotexpc.Prelude.Bytes.{Bytes}
use appium_ios_remotexpc.Tlv.Encode.{Item, encode_tlv8}
use appium_ios_remotexpc.Tlv.Decode.{Dict, add_item, collect, lookup, decode_tlv8_to_dict}
use appium_ios_remotexpc.Tlv.Inverse.{HasValue}
use appium_ios_remotexpc.Tlv.Laws.{
  chunk, others, fragments, split_items, HasByteType, decode_tlv8-encode_tlv8, length-others,
}

-- The bytes of all the items of a type, in order.
unfoldable pub values : ℕ → List Item → Bytes
values type [] = []
values type (item ∷ items) = (if item.type == type then item.value else []) ++ values type items

-- `undefined` for a type with no bytes at all.
abbrev pub non_empty : Bytes → Option Bytes
non_empty [] = none
non_empty (b ∷ bs) = some (b ∷ bs)

extend : Option Bytes → Bytes → Option Bytes
extend none [] = none
extend none (b ∷ bs) = some (b ∷ bs)
extend (some v) bs = some (v ++ bs)

extend-append : (v : Option Bytes) (xs ys : Bytes) → extend (extend v xs) ys ≡ extend v (xs ++ ys)
unfolding extend
extend-append none [] ys = refl
extend-append none (x ∷ xs) ys = refl
extend-append (some v) xs ys = ap some (append_assoc v xs ys)

extend-nil : (v : Option Bytes) → extend v [] ≡ v
unfolding extend
extend-nil none = refl
extend-nil (some v) = ap some (append-nil v)

-- A type with items has an entry, so an item with no bytes would make an empty one.
lookup-add_item :
    (t type b : ℕ) (bs : Bytes) (dict : Dict)
    → lookup t (add_item type (b ∷ bs) dict)
      ≡ extend (lookup t dict) (if type == t then b ∷ bs else [])
unfolding lookup add_item extend
lookup-add_item t type b bs [] = ground arith
lookup-add_item t type b bs ((t', v) ∷ dict) =
    ground (arith, lookup-add_item t type b bs dict, extend-nil (lookup t dict), append-nil v)

lookup-collect :
    (t : ℕ) (items : List Item) (dict : Dict)
    → All HasValue items
    → lookup t (collect dict items) ≡ extend (lookup t dict) (values t items)
unfolding collect values
lookup-collect t [] dict h = sym (extend-nil (lookup t dict))
lookup-collect t (item ∷ items) dict h =
    lookup-collect t items (add_item item.type item.value dict) h.1
    ∙ ap (λ v. extend v (values t items)) (added item.value h.0)
    ∙ extend-append (lookup t dict) (if item.type == t then item.value else []) (values t items)
  where
    added :
        (v : Bytes)
        → 0 < length v
        → lookup t (add_item item.type v dict)
          ≡ extend (lookup t dict) (if item.type == t then v else [])
    added [] p = absurd (omega arith)
    added (b ∷ bs) p = lookup-add_item t item.type b bs dict

values-append : (t : ℕ) (xs ys : List Item) → values t (xs ++ ys) ≡ values t xs ++ values t ys
unfolding values
values-append t [] ys = refl
values-append t (x ∷ xs) ys =
    rw (values-append t xs ys)
      (sym (append_assoc (if x.type == t then x.value else []) (values t xs) (values t ys)))

chunk-append-others : (value : Bytes) → chunk value ++ others value ≡ value
unfolding chunk others
chunk-append-others value = take-append-drop 255 value

values-fragments :
    (t f type : ℕ) (value : Bytes)
    → length value ≤ f
    → values t (fragments f type value) ≡ (if type == t then value else [])
unfolding values fragments
values-fragments t f type [] h = ground arith
values-fragments t zero type (b ∷ bs) h = absurd (omega arith)
values-fragments t (suc f) type (b ∷ bs) h = ground (
  arith,
  values-fragments t f type (others (b ∷ bs)),
  length-others (b ∷ bs),
  chunk-append-others (b ∷ bs),
)

values-split_items : (t : ℕ) (items : List Item) → values t (split_items items) ≡ values t items
unfolding values split_items
values-split_items t [] = refl
values-split_items t (x ∷ xs) =
    values-append t (fragments (length x.value) x.type x.value) (split_items xs)
    ∙ rw (values-fragments t (length x.value) x.type x.value (omega arith), values-split_items t xs)

fragments-HasValue : (f type : ℕ) (value : Bytes) → All HasValue (fragments f type value)
unfolding fragments chunk
fragments-HasValue f type [] = tt
fragments-HasValue zero type (b ∷ bs) = tt
fragments-HasValue (suc f) type (b ∷ bs) =
    (omega arith, fragments-HasValue f type (others (b ∷ bs)))

split_items-HasValue : (items : List Item) → All HasValue (split_items items)
unfolding split_items
split_items-HasValue [] = tt
split_items-HasValue (x ∷ xs) =
    All-append HasValue (fragments (length x.value) x.type x.value) (split_items xs)
      (fragments-HasValue (length x.value) x.type x.value) (split_items-HasValue xs)

extend-none : (bs : Bytes) → extend none bs ≡ non_empty bs
unfolding extend
extend-none [] = refl
extend-none (b ∷ bs) = refl

-- `decodeTLV8ToDict` of what `encodeTLV8` wrote gives, for each type, the bytes of all the items
-- of that type joined in order, however long they are, and nothing for a type that has no bytes.
pub lookup-decode_tlv8_to_dict :
    (items : List Item) (t : ℕ)
    → All HasByteType items
    → (decode_tlv8_to_dict (encode_tlv8 items) >>= λ dict. ok (lookup t dict))
      ≡ ok (non_empty (values t items))
unfolding decode_tlv8_to_dict
lookup-decode_tlv8_to_dict items t h =
    rw
      (
        decode_tlv8-encode_tlv8 items h,
        lookup-collect t (split_items items) [] (split_items-HasValue items),
        values-split_items t items,
      )
      (ap ok (unfold lookup in extend-none (values t items)))
