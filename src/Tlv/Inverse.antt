-- ===== src/Tlv/Inverse.antt =====
-- `encodeTLV8` of what `decodeTLV8` read.
use appium_ios_remotexpc.Prelude.{
  ℕ, zero, suc, ◌%◌, ◌≤◌, ◌<◌, min, ◌≡◌, refl, sym, ap, ◌∙◌, inl, inr, false, List, [], ◌∷◌, ◌++◌,
  append-nil, append_assoc, arith, ltb, ltb→le, Bool-cases, length, take, drop, All, length-take,
  take-append-drop, take_all, drop_all, All-drop,
}
use appium_ios_remotexpc.Prelude.Result.{ok}
use appium_ios_remotexpc.Prelude.Bytes.{Bytes, IsByte}
use appium_ios_remotexpc.Tlv.Encode.{Item, make_item, encode_fragments, encode_item, encode_tlv8}
use appium_ios_remotexpc.Tlv.Decode.{decode_loop, decode_tlv8}

abbrev pub HasValue : Item → Type 0
HasValue item = 0 < length item.value

encode_tlv8-append : (xs ys : List Item) → encode_tlv8 (xs ++ ys) ≡ encode_tlv8 xs ++ encode_tlv8 ys
unfolding encode_tlv8
encode_tlv8-append [] ys = refl
encode_tlv8-append (x ∷ xs) ys =
    rw (encode_tlv8-append xs ys) (sym (append_assoc (encode_item x) _ _))

encode_tlv8_one : (x : Item) → encode_tlv8 (x ∷ []) ≡ encode_item x
unfolding encode_tlv8
encode_tlv8_one x = append-nil (encode_item x)

-- A value of 1 to 255 bytes is one fragment.
encode_item_short :
    (type : ℕ) (value : Bytes)
    → type < 256
    → 0 < length value
    → length value < 256
    → encode_item (make_item type value) ≡ type ∷ length value ∷ value
unfolding encode_item encode_fragments
encode_item_short type [] ht h0 h = absurd (omega arith)
encode_item_short type (b ∷ bs) ht h0 h =
    let t : type % 256 ≡ type = omega arith in
    let m : min 255 (suc (length bs)) ≡ suc (length bs) = omega arith in
    let n : suc (length bs) % 256 ≡ suc (length bs) = omega arith in
    rw (t, m, n, take_all (length bs) bs (omega arith), drop_all (length bs) bs (omega arith))
      (rest (length bs))
  where
    rest :
        (f : ℕ)
        → type ∷ suc (length bs) ∷ b ∷ (bs ++ encode_fragments f type [])
          ≡ type ∷ suc (length bs) ∷ b ∷ bs
    rest f = rw append-nil

All-last : (xs : List Item) (x : Item) → All HasValue (xs ++ (x ∷ [])) → HasValue x
All-last [] x h = h.0
All-last (y ∷ xs) x h = All-last xs x h.1

All-front : (xs ys : List Item) → All HasValue (xs ++ ys) → All HasValue xs
All-front [] ys h = tt
All-front (x ∷ xs) ys h = (h.0, All-front xs ys h.1)

-- The loop only adds to the list, so that a property of all the items holds of those so far.
decode_loop-front :
    (f : ℕ) (b : Bytes) (acc out : List Item)
    → decode_loop f b acc ≡ ok out
    → All HasValue out
    → All HasValue acc
unfolding decode_loop
decode_loop-front f [] acc out e h = ground arith
decode_loop-front zero (t ∷ r) acc out e h = cc
decode_loop-front (suc f) (t ∷ []) acc out e h = cc
decode_loop-front (suc f) (t ∷ n ∷ r) acc out e h = elim (Bool-cases (ltb (length r) n)) [
  | inl short ↦ absurd (cc (rw short at e))
  | inr enough ↦ All-front acc _ (decode_loop-front f (drop n r) _ out (rw enough at e) h)
]

-- A round of the loop, read backwards.
read_back :
    (f t n : ℕ) (r : Bytes) (acc out : List Item)
    → t < 256
    → n < 256
    → n ≤ length r
    → HasValue (make_item t (take n r))
    → encode_tlv8 out ≡ encode_tlv8 (acc ++ (make_item t (take n r) ∷ [])) ++ drop n r
    → encode_tlv8 out ≡ encode_tlv8 acc ++ (t ∷ n ∷ r)
read_back f t n r acc out ht hn h v e =
    let value = take n r in
    let size : length value ≡ n = length-take n r h in
    let short : length value < 256 = omega arith in
    e
    ∙ ap (λ x. x ++ drop n r)
        (encode_tlv8-append acc (make_item t value ∷ [])
          ∙ ap (λ x. encode_tlv8 acc ++ x)
              (encode_tlv8_one (make_item t value) ∙ encode_item_short t value ht v short))
    ∙ append_assoc (encode_tlv8 acc) (t ∷ length value ∷ value) (drop n r)
    ∙ ap (λ x. encode_tlv8 acc ++ (t ∷ x)) (rw (size, take-append-drop n r))

encode-decode_loop :
    (f : ℕ) (b : Bytes) (acc out : List Item)
    → decode_loop f b acc ≡ ok out
    → All IsByte b
    → All HasValue out
    → encode_tlv8 out ≡ encode_tlv8 acc ++ b
unfolding decode_loop
encode-decode_loop f [] acc out e hb hv = rw append-nil (ap encode_tlv8 {y = acc} (ground arith))
encode-decode_loop zero (t ∷ r) acc out e hb hv = cc
encode-decode_loop (suc f) (t ∷ []) acc out e hb hv = cc
encode-decode_loop (suc f) (t ∷ n ∷ r) acc out e hb hv = elim (Bool-cases (ltb (length r) n)) [
  | inl short ↦ absurd (cc (rw short at e))
  | inr enough ↦
      read_back f t n r acc out hb.0 hb.1.0 (ltb→le _ _ enough) (item_has_value enough)
        (encode-decode_loop f (drop n r) _ out (rw enough at e) (All-drop IsByte n r hb.1.1) hv)
]
  where
    item_has_value : ltb (length r) n ≡ false → HasValue (make_item t (take n r))
    item_has_value enough =
        All-last acc _ (decode_loop-front f (drop n r) _ out (rw enough at e) hv)

-- What `decodeTLV8` read `encodeTLV8` writes back byte for byte, when no item is empty.
pub encode_tlv8-decode_tlv8 :
    (b : Bytes) (items : List Item)
    → decode_tlv8 b ≡ ok items
    → All IsByte b
    → All HasValue items
    → encode_tlv8 items ≡ b
unfolding decode_tlv8 encode_tlv8
encode_tlv8-decode_tlv8 b items e hb hv = encode-decode_loop (length b) b [] items e hb hv
