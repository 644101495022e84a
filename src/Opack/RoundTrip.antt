-- ===== src/Opack/RoundTrip.antt =====
-- `loads` of what `dumps` wrote.
use appium_ios_remotexpc.Prelude.{
  ℕ, zero, suc, ◌+◌, ◌≤◌, ◌<◌, ◌≡◌, refl, ◌≢◌, ◌⊎◌, inl, inr, Bool, true, false, [], ◌∷◌, ◌++◌,
  append-nil, append_assoc, arith, ltb, ltb→lt, le→leb, gt→leb, Bool-cases, length, length-append,
}
use appium_ios_remotexpc.Prelude.Result.{ok}
use appium_ios_remotexpc.Prelude.Bytes.{Bytes}
use appium_ios_remotexpc.Opack.Value.{
  Platform, IsPlatform, Value, Items, Fields, null, undefined, bool, num, str, buf, arr, obj, nil,
  cons, end, field, count, count_fields,
}
use appium_ios_remotexpc.Opack.Encode.{encode, dumps, wrap_items, wrap_fields}
use appium_ios_remotexpc.Opack.Decode.{classify, decode_marked, decode, loads}
use appium_ios_remotexpc.Opack.Headers.{
  IsNumber, bytes_round, number_round, classify_array, classify_dict,
}
use appium_ios_remotexpc.Opack.Plain.{
  depth, depth_items, depth_fields, NoNulls, HasDistinctKeys, NewIn-end, IsPlain, ArePlain,
  HavePlain,
}
use appium_ios_remotexpc.Opack.ItemsRound.{Round, ItemsRound, Reads-Round, nil_round, cons-Round}
use appium_ios_remotexpc.Opack.FieldsRound.{FieldsRound, end_round, field-Round, key-Round}

module _ (p : Platform) where
  open p use {Text, Number, to_utf8, of_utf8, to_uint, text_eq}

  small_or_many : (n : ℕ) → n ≢ 15 → (n < 15) ⊎ (15 < n)
  small_or_many n h = grind arith

  arr-Round :
      (vs : Items Text Number)
      → count vs ≢ 15
      → (15 < count vs → NoNulls vs)
      → ItemsRound p vs
      → Round p (arr vs)
  unfolding Round ItemsRound encode depth wrap_items
  arr-Round vs ne nn (b, e, d, l, r, q) = elim (small_or_many (count vs) ne) [
    | inl small ↦ (
      (0xd0 + count vs) ∷ b,
      rw (e, le→leb (count vs) 15 (omega arith)),
      omega arith,
      omega arith,
      fixed small,
    )
    | inr many ↦ (
      0xdf ∷ (b ++ (3 ∷ [])),
      rw (e, gt→leb (count vs) 15 many),
      omega (arith, length-append {0} b (3 ∷ [])),
      omega arith,
      variable many,
    )
  ]
    where
      fixed :
          count vs < 15
          → (f : ℕ) (rest : Bytes) → suc (depth_items vs) ≤ f
          → decode p f ((0xd0 + count vs) ∷ (b ++ rest)) ≡ ok (arr vs, rest)
      fixed small zero rest h = absurd (omega arith)
      fixed small (suc f) rest h =
          unfold decode decode_marked in
          rw (classify_array (count vs) small, r f rest (omega arith))

      variable :
          15 < count vs
          → (f : ℕ) (rest : Bytes) → suc (depth_items vs) ≤ f
          → decode p f (0xdf ∷ ((b ++ (3 ∷ [])) ++ rest)) ≡ ok (arr vs, rest)
      variable many zero rest h = absurd (omega arith)
      variable many (suc f) rest h =
          unfold decode decode_marked classify in
          rw (
            append_assoc,
            q (nn many) f (suc (length (b ++ (3 ∷ rest)))) rest (omega arith)
                (omega (arith, length-append {0} b (3 ∷ rest))),
          )

  obj-Round : (fs : Fields Text Number) → HasDistinctKeys fs → FieldsRound p fs → Round p (obj fs)
  unfolding Round FieldsRound encode depth wrap_fields
  obj-Round fs distinct (b, e, d, l, r, q) = elim (Bool-cases (ltb (count_fields fs) 15)) [
    | inl small ↦ (
      (0xe0 + count_fields fs) ∷ b,
      rw (e, small),
      omega arith,
      omega arith,
      fixed (ltb→lt _ _ small),
    )
    | inr many ↦ (
      0xef ∷ (b ++ (3 ∷ 3 ∷ [])),
      rw (e, many),
      omega (arith, length-append {0} b (3 ∷ 3 ∷ [])),
      omega arith,
      variable,
    )
  ]
    where
      fixed :
          count_fields fs < 15
          → (f : ℕ) (rest : Bytes) → suc (depth_fields fs) ≤ f
          → decode p f ((0xe0 + count_fields fs) ∷ (b ++ rest)) ≡ ok (obj fs, rest)
      fixed small zero rest h = absurd (omega arith)
      fixed small (suc f) rest h =
          unfold decode decode_marked in
          rw (classify_dict (count_fields fs) small, r f rest end (omega arith) (NewIn-end fs))

      variable :
          (f : ℕ) (rest : Bytes)
          → suc (depth_fields fs) ≤ f
          → decode p f (0xef ∷ ((b ++ (3 ∷ 3 ∷ [])) ++ rest)) ≡ ok (obj fs, rest)
      variable zero rest h = absurd (omega arith)
      variable (suc f) rest h =
          unfold decode decode_marked classify in
          rw (
            append_assoc,
            q f (suc (length (b ++ (3 ∷ 3 ∷ rest)))) rest end (omega arith)
                (omega (arith, length-append {0} b (3 ∷ 3 ∷ rest))) (NewIn-end fs),
          )

  null-Round : Round p null
  unfolding depth encode decode decode_marked classify
  null-Round = Reads-Round p null refl (3 ∷ [], refl, omega arith, λ f rest. refl)

  bool-Round : (b : Bool) → Round p (bool b)
  unfolding depth encode decode decode_marked classify
  bool-Round true = Reads-Round p (bool true) refl (1 ∷ [], refl, omega arith, λ f rest. refl)
  bool-Round false = Reads-Round p (bool false) refl (2 ∷ [], refl, omega arith, λ f rest. refl)

  buf-Round : (b : Bytes) → length b ≤ 0xffff_ffff → Round p (buf b)
  unfolding depth encode
  buf-Round b h = Reads-Round p (buf b) refl (bytes_round p b h)

  num-Round : IsPlatform p → (x : Number) → IsNumber p x (to_uint x) → Round p (num x)
  unfolding depth encode
  num-Round laws x h = Reads-Round p (num x) refl (number_round p laws x h)

  module _ (laws : IsPlatform p) where
    mutual
      unfolding IsPlain

      pub value-Round : (v : Value Text Number) → IsPlain p v → Round p v
      value-Round null h = null-Round
      value-Round undefined h = absurd h
      value-Round (bool b) h = bool-Round b
      value-Round (num x) h = num-Round laws x h
      value-Round (str t) h = key-Round p t h
      value-Round (buf b) h = buf-Round b h
      value-Round (arr vs) h = arr-Round vs h.0 h.1 (items_round vs h.2)
      value-Round (obj fs) h = obj-Round fs h.0 (fields_round fs h.0 h.1)

      pub items_round : (vs : Items Text Number) → ArePlain p vs → ItemsRound p vs
      items_round nil h = nil_round p
      items_round (cons v vs) h = cons-Round p v vs (value-Round v h.0) (items_round vs h.1)

      pub fields_round :
          (fs : Fields Text Number) → HasDistinctKeys fs → HavePlain p fs → FieldsRound p fs
      fields_round end d h = end_round p
      fields_round (field k v fs) d h =
          field-Round p k v fs d.0 (key-Round p k h.0) (value-Round v h.1) (fields_round fs d.1 h.2)

    -- A plain value is serialised, and `loads` of the bytes is the value again.
    pub loads-dumps :
        (v : Value Text Number)
        → IsPlain p v
        → (b : Bytes) × (dumps p v ≡ ok b) × (loads p b ≡ ok v)
    unfolding dumps loads Round
    loads-dumps v h =
        let (b, e, d, l, r) = value-Round v h in
        let whole : decode p (suc (length b)) b ≡ ok (v, []) =
          rw append-nil at (r (suc (length b)) [] d) in
        (b, e, rw whole)
