-- ===== src/Tlv/Laws.antt =====
-- What `decodeTLV8` makes of any buffer, and of what `encodeTLV8` wrote.
use appium_ios_remotexpc.Prelude.{
  ℕ, zero, suc, ◌-◌, ◌%◌, ◌≤◌, ◌<◌, min, ◌≡◌, refl, sym, ap, ◌∙◌, ◌≢◌, inl, inr, List, [], ◌∷◌,
  ◌++◌, append-nil, append_assoc, arith, ltb, le→ltb, ltb→lt, ltb→le, Bool-cases, length, take,
  drop, All, length-append, length-take, length-drop, take-length, drop-length, take_all, drop_all,
}
use appium_ios_remotexpc.Prelude.Result.{Result, ok, stuck}
use appium_ios_remotexpc.Prelude.Bytes.{Bytes}
use appium_ios_remotexpc.Tlv.Encode.{Item, make_item, encode_fragments, encode_item, encode_tlv8}
use appium_ios_remotexpc.Tlv.Decode.{Error, decode_loop, decode_tlv8}

-- Enough fuel is as good as any more of it.
decode_loop-fuel :
    (f g : ℕ) (b : Bytes) (items : List Item)
    → length b ≤ f
    → length b ≤ g
    → decode_loop f b items ≡ decode_loop g b items
unfolding decode_loop
decode_loop-fuel f g [] items hf hg = refl
decode_loop-fuel zero g (t ∷ r) items hf hg = absurd (omega arith)
decode_loop-fuel (suc f) zero (t ∷ r) items hf hg = absurd (omega arith)
decode_loop-fuel (suc f) (suc g) (t ∷ []) items hf hg = refl
decode_loop-fuel (suc f) (suc g) (t ∷ n ∷ r) items hf hg =
    let v = make_item t (take n r) in
    rw (
      decode_loop-fuel f g (drop n r) (items ++ (v ∷ [])) (omega (arith, length-drop {0} n r))
        (omega (arith, length-drop {0} n r)))

decode_from : List Item → Bytes → Result Error (List Item)
decode_from items b = decode_loop (length b) b items

-- One round on a fragment that is all there.
decode_from_item :
    (t : ℕ) (v rest : Bytes) (items : List Item)
    → decode_from items (t ∷ length v ∷ (v ++ rest))
      ≡ decode_from (items ++ (make_item t v ∷ [])) rest
unfolding decode_from decode_loop
decode_from_item t v rest items =
    let items' = items ++ (make_item t v ∷ []) in
    let long = length-append v rest in
    rw
      (
        le→ltb (length (v ++ rest)) (length v) (omega arith),
        take-length (length v) v rest refl,
        drop-length (length v) v rest refl,
      )
      (decode_loop-fuel (suc (length (v ++ rest))) (length rest) rest items' (omega arith)
        (omega arith))

-- The first 255 bytes of a value, and those behind them.
unfoldable pub chunk : Bytes → Bytes
chunk value = take 255 value

unfoldable pub others : Bytes → Bytes
others value = drop 255 value

pub length-others : (value : Bytes) → length (others value) ≡ length value - 255
unfolding others
length-others value = length-drop 255 value

length-chunk : (value : Bytes) → length (chunk value) ≡ min 255 (length value)
unfolding chunk
length-chunk value = elim (Bool-cases (ltb (length value) 255)) [
  | inl short ↦
      rw (take_all 255 value (omega (arith, ltb→lt _ _ short))) (omega (arith, ltb→lt _ _ short))
  | inr long ↦
      rw (length-take 255 value (omega (arith, ltb→le _ _ long))) (omega (arith, ltb→le _ _ long))
]

chunk-take : (value : Bytes) → take (min 255 (length value)) value ≡ chunk value
unfolding chunk
chunk-take value = elim (Bool-cases (ltb (length value) 255)) [
  | inl short ↦
      take_all _ value (omega (arith, ltb→lt _ _ short))
      ∙ sym (take_all 255 value (omega (arith, ltb→lt _ _ short)))
  | inr long ↦ ap (λ n. take n value) {y = 255} (omega (arith, ltb→le _ _ long))
]

others-drop : (value : Bytes) → drop (min 255 (length value)) value ≡ others value
unfolding others
others-drop value = elim (Bool-cases (ltb (length value) 255)) [
  | inl short ↦
      drop_all _ value (omega (arith, ltb→lt _ _ short))
      ∙ sym (drop_all 255 value (omega (arith, ltb→lt _ _ short)))
  | inr long ↦ ap (λ n. drop n value) {y = 255} (omega (arith, ltb→le _ _ long))
]

-- The pieces of at most 255 bytes that a value is cut into.
unfoldable pub fragments : ℕ → ℕ → Bytes → List Item
fragments fuel type [] = []
fragments zero type (b ∷ bs) = []
fragments (suc fuel) type (b ∷ bs) =
    make_item type (chunk (b ∷ bs)) ∷ fragments fuel type (others (b ∷ bs))

unfoldable pub split_items : List Item → List Item
split_items [] = []
split_items (item ∷ items) = fragments (length item.value) item.type item.value ++ split_items items

encode_fragments_step :
    (f type b : ℕ) (bs : Bytes)
    → type < 256
    → let v = chunk (b ∷ bs) in
      encode_fragments (suc f) type (b ∷ bs)
      ≡ type ∷ length v ∷ (v ++ encode_fragments f type (others (b ∷ bs)))
unfolding encode_fragments
encode_fragments_step f type b bs h =
    let t : type % 256 ≡ type = omega arith in
    let n : min 255 (length (b ∷ bs)) % 256 ≡ length (chunk (b ∷ bs)) =
      omega (arith, length-chunk (b ∷ bs)) in
    rw (chunk-take (b ∷ bs), others-drop (b ∷ bs), t, n)

decode_from-fragments :
    (f type : ℕ) (value rest : Bytes) (items : List Item)
    → type < 256
    → length value ≤ f
    → decode_from items (encode_fragments f type value ++ rest)
      ≡ decode_from (items ++ fragments f type value) rest
unfolding fragments
decode_from-fragments f type [] rest items ht hf = rw append-nil (unfold encode_fragments in refl)
decode_from-fragments zero type (b ∷ bs) rest items ht hf = absurd (omega arith)
decode_from-fragments (suc f) type (b ∷ bs) rest items ht hf =
    let v = chunk (b ∷ bs) in
    let tail = encode_fragments f type (others (b ∷ bs)) in
    rw (encode_fragments_step f type b bs ht) (
      ap (λ t. decode_from items (type ∷ length v ∷ t)) (append_assoc v tail rest)
      ∙ decode_from_item type v (tail ++ rest) items
      ∙ decode_from-fragments f type (others (b ∷ bs)) rest (items ++ (make_item type v ∷ [])) ht
          (omega (arith, length-others (b ∷ bs)))
      ∙ ap (λ t. decode_from t rest)
          (append_assoc items (make_item type v ∷ []) (fragments f type (others (b ∷ bs)))))

-- Every type of the list is a byte, as all of PairingDataComponentType are.
abbrev pub HasByteType : Item → Type 0
HasByteType item = item.type < 256

decode_from-encode :
    (items acc : List Item)
    → All HasByteType items
    → decode_from acc (encode_tlv8 items) ≡ ok (acc ++ split_items items)
unfolding encode_tlv8 split_items encode_item
decode_from-encode [] acc h = rw append-nil (unfold decode_from decode_loop in refl)
decode_from-encode (item ∷ items) acc h =
    let front = fragments (length item.value) item.type item.value in
    decode_from-fragments (length item.value) item.type item.value (encode_tlv8 items) acc h.0
      (omega arith)
    ∙ decode_from-encode items (acc ++ front) h.1
    ∙ ap ok (append_assoc acc front (split_items items))

-- `decodeTLV8` of what `encodeTLV8` wrote is the list of the fragments, in order: each value cut
-- into pieces of 255 bytes and a shorter last one, and none for an empty value.
pub decode_tlv8-encode_tlv8 :
    (items : List Item)
    → All HasByteType items
    → decode_tlv8 (encode_tlv8 items) ≡ ok (split_items items)
unfolding decode_tlv8 decode_from
decode_tlv8-encode_tlv8 items h = decode_from-encode items [] h

decode_loop-ne-stuck :
    (f : ℕ) (b : Bytes) (items : List Item) → length b ≤ f → decode_loop f b items ≢ stuck
unfolding decode_loop
decode_loop-ne-stuck f [] items h e = cc
decode_loop-ne-stuck zero (t ∷ r) items h e = absurd (omega arith)
decode_loop-ne-stuck (suc f) (t ∷ []) items h e = cc
decode_loop-ne-stuck (suc f) (t ∷ n ∷ r) items h e = ground (
  arith,
  length-drop n r,
  decode_loop-ne-stuck f (drop n r) (items ++ (make_item t (take n r) ∷ [])),
)

-- The loop of `decodeTLV8` ends on every buffer: it returns the items or throws.
pub decode_tlv8-ne-stuck : (b : Bytes) → decode_tlv8 b ≢ stuck
unfolding decode_tlv8
decode_tlv8-ne-stuck b = decode_loop-ne-stuck (length b) b [] (omega arith)
