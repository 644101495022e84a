-- ===== src/Opack/ItemsRound.antt =====
-- What is shown of a value and of the items of an array, by induction.
use appium_ios_remotexpc.Prelude.{
  ℕ, zero, suc, ◌≤◌, ◌<◌, ◌≡◌, refl, ◌≢◌, false, [], ◌∷◌, ◌++◌, append_assoc, arith, length,
  length-append,
}
use appium_ios_remotexpc.Prelude.Result.{Result, ok}
use appium_ios_remotexpc.Prelude.Bytes.{Bytes}
use Prim.Native.Nat.{max}
use appium_ios_remotexpc.Opack.Value.{
  Platform, Value, Items, null, undefined, bool, num, str, buf, arr, obj, nil, cons, count, Error,
}
use appium_ios_remotexpc.Opack.Encode.{encode, encode_items}
use appium_ios_remotexpc.Opack.Decode.{
  decode_items, decode_variable_items, classify, decode_marked, decode, is_null,
}
use appium_ios_remotexpc.Opack.Headers.{Reads}
use appium_ios_remotexpc.Opack.Plain.{depth, depth_items, NoNulls}

module _ (p : Platform) where
  open p use {Text, Number, to_utf8, of_utf8, to_uint, text_eq}

  unfoldable pub Round : Value Text Number → Type 0
  Round v =
      (b : Bytes) × (encode p v ≡ ok b)
      × (depth v ≤ suc (length b))
      × (0 < length b)
      × ((f : ℕ) (rest : Bytes) → depth v ≤ f → decode p f (b ++ rest) ≡ ok (v, rest))

  pub Reads-Round : (v : Value Text Number) → depth v ≡ 1 → Reads p (encode p v) v → Round v
  unfolding Round
  Reads-Round v e (b, eb, l, r) = (b, eb, omega arith, l, go)
    where
      go : (f : ℕ) (rest : Bytes) → depth v ≤ f → decode p f (b ++ rest) ≡ ok (v, rest)
      go zero rest h = absurd (omega arith)
      go (suc f) rest h = r f rest

  unfoldable pub ItemsRound : Items Text Number → Type 0
  ItemsRound vs =
      (b : Bytes) × (encode_items p vs ≡ ok b)
      × (depth_items vs ≤ suc (length b))
      × (count vs ≤ length b)
      × ((f : ℕ) (rest : Bytes)
          → depth_items vs ≤ f
          → decode_items p (decode p f) (count vs) (b ++ rest) ≡ ok (vs, rest))
      × (NoNulls vs
          → (f g : ℕ) (rest : Bytes) → depth_items vs ≤ f
          → count vs < g
          → decode_variable_items p (decode p f) g (b ++ (3 ∷ rest)) ≡ ok (vs, rest))

  pub decode_null : (f : ℕ) (rest : Bytes) → 0 < f → decode p f (3 ∷ rest) ≡ ok (null, rest)
  unfolding decode decode_marked classify
  decode_null zero rest h = absurd (omega arith)
  decode_null (suc f) rest h = refl

  pub nil_round : ItemsRound nil
  unfolding ItemsRound encode_items depth_items decode_items decode_variable_items
  nil_round = ([], refl, omega arith, omega arith, λ f rest h. refl, variable)
    where
      variable :
          NoNulls {T = Text} {N = Number} nil
          → (f g : ℕ) (rest : Bytes) → 1 ≤ f
          → 0 < g
          → decode_variable_items p (decode p f) g (3 ∷ rest) ≡ ok (nil, rest)
      variable n f zero rest h k = absurd (omega arith)
      variable n f (suc g) rest h k = rw (decode_null f rest h)

  pub is_null-false : (v : Value Text Number) → v ≢ null → is_null p v ≡ false
  is_null-false null h = absurd (h refl)
  is_null-false undefined h = refl
  is_null-false (bool b) h = refl
  is_null-false (num x) h = refl
  is_null-false (str t) h = refl
  is_null-false (buf b) h = refl
  is_null-false (arr vs) h = refl
  is_null-false (obj fs) h = refl

  pub variable_items_step :
      (dec : Bytes → Result Error (Value Text Number × Bytes)) (g : ℕ) (v : Value Text Number)
      (vs : Items Text Number) (b b' rest : Bytes)
      → dec b ≡ ok (v, b')
      → v ≢ null
      → decode_variable_items p dec g b' ≡ ok (vs, rest)
      → decode_variable_items p dec (suc g) b ≡ ok (cons v vs, rest)
  unfolding decode_variable_items
  variable_items_step dec g v vs b b' rest e ne h = ground (arith, is_null-false v ne)

  pub cons-Round :
      (v : Value Text Number) (vs : Items Text Number)
      → Round v
      → ItemsRound vs
      → ItemsRound (cons v vs)
  unfolding Round ItemsRound encode_items depth_items decode_items decode_variable_items
  cons-Round v vs (b, e, d, l, r) (bs, es, ds, ls, rs, qs) = (
    b ++ bs,
    rw (e, es),
    omega (arith, length-append {0} b bs),
    omega (arith, length-append {0} b bs),
    λ f rest h. rw (append_assoc, r f (bs ++ rest) (omega arith), rs f rest (omega arith)),
    variable,
  )
    where
      variable :
          NoNulls (cons v vs)
          → (f g : ℕ) (rest : Bytes) → max (depth v) (depth_items vs) ≤ f
          → suc (count vs) < g
          → decode_variable_items p (decode p f) g ((b ++ bs) ++ (3 ∷ rest)) ≡ ok (cons v vs, rest)
      variable n f zero rest h k = absurd (omega arith)
      variable n f (suc g) rest h k = rw append_assoc (
          variable_items_step (decode p f) g v vs (b ++ (bs ++ (3 ∷ rest))) (bs ++ (3 ∷ rest)) rest
            (r f (bs ++ (3 ∷ rest)) (omega arith)) n.0
            (qs n.1 f g rest (omega arith) (omega arith)))
