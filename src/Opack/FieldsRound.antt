-- ===== src/Opack/FieldsRound.antt =====
-- What is shown of the entries of an object, by induction.
use appium_ios_remotexpc.Prelude.{
  ℕ, zero, suc, ◌+◌, ◌≤◌, ◌<◌, ◌≡◌, refl, ap, ◌∙◌, [], ◌∷◌, ◌++◌, append_assoc, arith, length,
  length-append,
}
use appium_ios_remotexpc.Prelude.Result.{Result, ok}
use appium_ios_remotexpc.Prelude.Bytes.{Bytes}
use Prim.Native.Nat.{max}
use appium_ios_remotexpc.Opack.Value.{
  Platform, Value, Fields, null, undefined, bool, num, str, buf, arr, obj, end, field, count_fields,
  Error,
}
use appium_ios_remotexpc.Opack.Encode.{encode, encode_fields, encode_string}
use appium_ios_remotexpc.Opack.Decode.{decode_fields, decode_variable_fields, set_field, decode}
use appium_ios_remotexpc.Opack.Headers.{string_round}
use appium_ios_remotexpc.Opack.Plain.{
  depth, depth_fields, Fresh, append, NewIn, NewIn-append, append_assoc_one, IsText,
}
use appium_ios_remotexpc.Opack.ItemsRound.{Round, Reads-Round, decode_null}

module _ (p : Platform) where
  open p use {Text, Number, to_utf8, of_utf8, to_uint, text_eq}

  unfoldable pub FieldsRound : Fields Text Number → Type 0
  FieldsRound fs =
      (b : Bytes) × (encode_fields p fs ≡ ok b)
      × (depth_fields fs ≤ suc (length b))
      × (count_fields fs ≤ length b)
      × ((f : ℕ) (rest : Bytes) (acc : Fields Text Number)
          → depth_fields fs ≤ f
          → NewIn fs acc
          → decode_fields p (decode p f) (count_fields fs) (b ++ rest) acc
            ≡ ok (append acc fs, rest))
      × ((f g : ℕ) (rest : Bytes) (acc : Fields Text Number)
          → depth_fields fs ≤ f
          → count_fields fs < g
          → NewIn fs acc
          → decode_variable_fields p (decode p f) g (b ++ (3 ∷ 3 ∷ rest)) acc
            ≡ ok (append acc fs, rest))

  set_field-Fresh :
      (k : Text) (v : Value Text Number) (acc : Fields Text Number)
      → Fresh k acc
      → set_field p k v acc ≡ append acc (field k v end)
  unfolding set_field
  set_field-Fresh k v end h = refl
  set_field-Fresh k v (field j w acc) h = go (text_eq j k) (set_field-Fresh k v acc h.1)
    where
      go :
          (d : Dec (j ≡ k))
          → set_field p k v acc ≡ append acc (field k v end)
          → (elim d [ yes _ ↦ field j v acc | no _ ↦ field j w (set_field p k v acc) ])
            ≡ field j w (append acc (field k v end))
      go (yes e) ih = absurd (h.0 e)
      go (no ne) ih = ap (field j w) ih

  append-end : (acc : Fields Text Number) → append acc end ≡ acc
  append-end end = refl
  append-end (field k v acc) = ap (field k v) (append-end acc)

  pub end_round : FieldsRound end
  unfolding FieldsRound encode_fields depth_fields decode_fields decode_variable_fields
  end_round = ([], refl, omega arith, omega arith, λ f rest acc h n. rw append-end, variable)
    where
      variable :
          (f g : ℕ) (rest : Bytes) (acc : Fields Text Number)
          → 1 ≤ f
          → 0 < g
          → NewIn {T = Text} {N = Number} end acc
          → decode_variable_fields p (decode p f) g (3 ∷ 3 ∷ rest) acc ≡ ok (append acc end, rest)
      variable f zero rest acc h k n = absurd (omega arith)
      variable f (suc g) rest acc h k n =
          rw (decode_null p f (3 ∷ rest) h, decode_null p f rest h, append-end)

  fields_step :
      (dec : Bytes → Result Error (Value Text Number × Bytes)) (n : ℕ) (k : Text)
      (v : Value Text Number) (acc : Fields Text Number) (b b' b'' : Bytes)
      → dec b ≡ ok (str k, b')
      → dec b' ≡ ok (v, b'')
      → decode_fields p dec (suc n) b acc ≡ decode_fields p dec n b'' (set_field p k v acc)
  unfolding decode_fields
  fields_step dec n k v acc b b' b'' e h = ground arith

  variable_fields_step :
      (dec : Bytes → Result Error (Value Text Number × Bytes)) (g : ℕ) (k : Text)
      (v : Value Text Number) (acc : Fields Text Number) (b b' b'' : Bytes)
      → dec b ≡ ok (str k, b')
      → dec b' ≡ ok (v, b'')
      → decode_variable_fields p dec (suc g) b acc
        ≡ decode_variable_fields p dec g b'' (set_field p k v acc)
  unfolding decode_variable_fields
  variable_fields_step dec g k v acc b b' b'' e h = ground arith

  pub key-Round : (k : Text) → IsText p k → Round p (str k)
  unfolding depth encode encode_string
  key-Round k t = Reads-Round p (str k) refl (rw t.0 at (string_round p k t.1))

  depth_pos : (v : Value Text Number) → 1 ≤ depth v
  unfolding depth
  depth_pos null = omega arith
  depth_pos undefined = omega arith
  depth_pos (bool b) = omega arith
  depth_pos (num x) = omega arith
  depth_pos (str t) = omega arith
  depth_pos (buf b) = omega arith
  depth_pos (arr vs) = omega arith
  depth_pos (obj fs) = omega arith

  pub field-Round :
      (k : Text) (v : Value Text Number) (fs : Fields Text Number)
      → Fresh k fs
      → Round p (str k)
      → Round p v
      → FieldsRound fs
      → FieldsRound (field k v fs)
  unfolding Round FieldsRound encode_fields depth_fields
  field-Round k v fs fresh (a, ea, da, la, ra) (b, e, d, l, r) (bs, es, ds, ls, rs, qs) =
      (a ++ (b ++ bs), rw (ea, e, es), omega (arith, size), omega (arith, size), fixed, variable)
    where
      size : length (a ++ (b ++ bs)) ≡ length a + (length b + length bs)
      size = length-append a (b ++ bs) ∙ ap (λ n. length a + n) (length-append b bs)

      split : (rest : Bytes) → (a ++ (b ++ bs)) ++ rest ≡ a ++ (b ++ (bs ++ rest))
      split rest = append_assoc a (b ++ bs) rest ∙ ap (λ x. a ++ x) (append_assoc b bs rest)

      fixed :
          (f : ℕ) (rest : Bytes) (acc : Fields Text Number)
          → max (depth v) (depth_fields fs) ≤ f
          → NewIn (field k v fs) acc
          → decode_fields p (decode p f) (suc (count_fields fs)) ((a ++ (b ++ bs)) ++ rest) acc
            ≡ ok (append acc (field k v fs), rest)
      fixed f rest acc h n =
          ap (λ x. decode_fields p (decode p f) (suc (count_fields fs)) x acc) (split rest)
          ∙ fields_step (decode p f) (count_fields fs) k v acc (a ++ (b ++ (bs ++ rest)))
              (b ++ (bs ++ rest)) (bs ++ rest)
              (ra f (b ++ (bs ++ rest)) (omega (arith, depth_pos v)))
              (r f (bs ++ rest) (omega arith))
          ∙ ap (decode_fields p (decode p f) (count_fields fs) (bs ++ rest))
              (set_field-Fresh k v acc n.0)
          ∙ rs f rest (append acc (field k v end)) (omega arith) (NewIn-append fs acc k v n.1 fresh)
          ∙ ap (λ x. ok (x, rest)) (append_assoc_one acc fs k v)

      variable :
          (f g : ℕ) (rest : Bytes) (acc : Fields Text Number)
          → max (depth v) (depth_fields fs) ≤ f
          → suc (count_fields fs) < g
          → NewIn (field k v fs) acc
          → decode_variable_fields p (decode p f) g ((a ++ (b ++ bs)) ++ (3 ∷ 3 ∷ rest)) acc
            ≡ ok (append acc (field k v fs), rest)
      variable f zero rest acc h m n = absurd (omega arith)
      variable f (suc g) rest acc h m n =
          let r' = 3 ∷ 3 ∷ rest in
          ap (λ x. decode_variable_fields p (decode p f) (suc g) x acc) (split r')
          ∙ variable_fields_step (decode p f) g k v acc (a ++ (b ++ (bs ++ r'))) (b ++ (bs ++ r'))
              (bs ++ r') (ra f (b ++ (bs ++ r')) (omega (arith, depth_pos v)))
              (r f (bs ++ r') (omega arith))
          ∙ ap (decode_variable_fields p (decode p f) g (bs ++ r')) (set_field-Fresh k v acc n.0)
          ∙ qs f g rest (append acc (field k v end)) (omega arith) (omega arith)
              (NewIn-append fs acc k v n.1 fresh)
          ∙ ap (λ x. ok (x, rest)) (append_assoc_one acc fs k v)
