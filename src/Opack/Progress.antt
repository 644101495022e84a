-- ===== src/Opack/Progress.antt =====
-- `loads` ends on every payload: each call of `decode` takes a byte, so the fuel suffices.
use appium_ios_remotexpc.Prelude.{
  ℕ, zero, suc, ◌≤◌, ◌<◌, ◌≢◌, inl, inr, Bool, true, false, [], ◌∷◌, arith, ltb, leb, ◌==◌,
  Bool-cases, length, length-drop,
}
use appium_ios_remotexpc.Prelude.Result.{Result, ok, err, stuck, ◌>>=◌, guard}
use appium_ios_remotexpc.Prelude.Bytes.{Bytes, of_le}
use native.Mathlib.Nat.{le_refl}
use appium_ios_remotexpc.Prelude.Leaves.{
  Leaves, Shrinks, Leaves-Shrinks, Leaves-mono, Leaves-bind, Shrinks-bind,
}
use appium_ios_remotexpc.Opack.Value.{
  Platform, Value, Fields, null, undefined, bool, num, str, buf, arr, obj, nil, cons, end, Error,
  trailing_bytes, max_safe_integer, unsafe_integer,
}
use appium_ios_remotexpc.Opack.Decode.{
  Marker, null_marker, true_marker, false_marker, int8, int32, int64, float, small_int, string,
  string_sized, bytes, bytes_sized, array, dict, variable_array, variable_dict, unsupported,
  classify, take_bytes, decode_length, decode_string, decode_bytes, decode_uint, decode_uint64,
  decode_float, decode_items, decode_variable_items, decode_fields, decode_variable_fields,
  set_field, decode_marked, decode, loads, is_null, both_null, as_key,
}

take_bytes-Leaves : (n : ℕ) (rest : Bytes) → Leaves (length rest) (take_bytes n rest)
unfolding take_bytes
take_bytes-Leaves n rest = elim (Bool-cases (ltb (length rest) n)) [
  | inl short ↦ rw short tt
  | inr enough ↦ rw enough (omega (arith, length-drop {0} n rest))
]

decode_length-Leaves : (w : ℕ) (rest : Bytes) → Leaves (length rest) (decode_length w rest)
unfolding decode_length
decode_length-Leaves w rest =
    Leaves-bind (length rest) (take_bytes w rest) _ (take_bytes-Leaves w rest) (λ raw r h. h)

module _ (p : Platform) where
  open p use {Text, Number}

  -- Each call on at most `n` bytes takes one of them at least.
  abbrev Takes : ℕ → (Bytes → Result Error (Value Text Number × Bytes)) → Type 0
  Takes n dec = (rest : Bytes) → length rest ≤ n → Shrinks (length rest) (dec rest)

  decode_string-Leaves : (n : ℕ) (rest : Bytes) → Leaves (length rest) (decode_string p n rest)
  unfolding decode_string
  decode_string-Leaves n rest =
      Leaves-bind (length rest) (take_bytes n rest) _ (take_bytes-Leaves n rest) (λ raw r h. h)

  decode_bytes-Leaves : (n : ℕ) (rest : Bytes) → Leaves (length rest) (decode_bytes p n rest)
  unfolding decode_bytes
  decode_bytes-Leaves n rest =
      Leaves-bind (length rest) (take_bytes n rest) _ (take_bytes-Leaves n rest) (λ raw r h. h)

  decode_uint-Leaves : (w : ℕ) (rest : Bytes) → Leaves (length rest) (decode_uint p w rest)
  unfolding decode_uint
  decode_uint-Leaves w rest =
      Leaves-bind (length rest) (take_bytes w rest) _ (take_bytes-Leaves w rest) (λ raw r h. h)

  decode_float-Leaves : (rest : Bytes) → Leaves (length rest) (decode_float p rest)
  unfolding decode_float
  decode_float-Leaves rest =
      Leaves-bind (length rest) (take_bytes 4 rest) _ (take_bytes-Leaves 4 rest) (λ raw r h. h)

  guard-Leaves :
      (b : Bool) (n : ℕ) (v : Value Text Number) (rest : Bytes)
      → length rest ≤ n
      → Leaves n (guard b unsafe_integer >>= λ _. ok (v, rest))
  guard-Leaves true n v rest h = h
  guard-Leaves false n v rest h = tt

  decode_uint64-Leaves : (rest : Bytes) → Leaves (length rest) (decode_uint64 p rest)
  unfolding decode_uint64
  decode_uint64-Leaves rest =
      Leaves-bind (length rest) (take_bytes 8 rest) _ (take_bytes-Leaves 8 rest)
        (λ raw r h. guard-Leaves (leb (of_le raw) max_safe_integer) (length rest) _ r h)

  module _ (dec : Bytes → Result Error (Value Text Number × Bytes)) (n : ℕ)
      (takes : Takes n dec) where
    decode_items-Leaves :
        (k : ℕ) (rest : Bytes) → length rest ≤ n → Leaves (length rest) (decode_items p dec k rest)
    unfolding decode_items
    decode_items-Leaves zero rest h = omega arith
    decode_items-Leaves (suc k) rest h =
        Shrinks-bind (length rest) (length rest) (dec rest) _ (takes rest h) λ v r lt.
          Leaves-bind (length rest) (decode_items p dec k r) _
            (Leaves-mono (length r) (length rest) (decode_items p dec k r)
              (decode_items-Leaves k r (omega arith)) (omega arith))
            (λ vs r' le. le)

    decode_variable_items-Leaves :
        (g : ℕ) (rest : Bytes)
        → length rest ≤ n
        → length rest < g
        → Leaves (length rest) (decode_variable_items p dec g rest)
    unfolding decode_variable_items
    decode_variable_items-Leaves zero rest h lt = absurd (omega arith)
    decode_variable_items-Leaves (suc g) rest h lt =
        Shrinks-bind (length rest) (length rest) (dec rest) _ (takes rest h) (λ v r l.
          go v r l (decode_variable_items-Leaves g r (omega arith) (omega arith)) (is_null p v))
      where
        go :
            (v : Value Text Number) (r : Bytes)
            → length r < length rest
            → Leaves (length r) (decode_variable_items p dec g r)
            → (b : Bool)
            → Leaves (length rest) (elim b [
              | true ↦ ok (nil, r)
              | false ↦ decode_variable_items p dec g r >>= λ (vs, r'). ok (cons v vs, r')
            ])
        go v r l ih true = omega arith
        go v r l ih false =
            Leaves-bind (length rest) (decode_variable_items p dec g r) _
              (Leaves-mono (length r) (length rest) _ ih (omega arith)) (λ vs r' le. le)

    as_key-Leaves :
        (k : Value Text Number) (m : ℕ) (f : Text → Result Error (Fields Text Number × Bytes))
        → ((key : Text) → Leaves m (f key))
        → Leaves m (as_key p k >>= f)
    as_key-Leaves (str key) m f h = h key
    as_key-Leaves null m f h = tt
    as_key-Leaves undefined m f h = tt
    as_key-Leaves (bool b) m f h = tt
    as_key-Leaves (num x) m f h = tt
    as_key-Leaves (buf b) m f h = tt
    as_key-Leaves (arr vs) m f h = tt
    as_key-Leaves (obj fs) m f h = tt

    decode_fields-Leaves :
        (k : ℕ) (rest : Bytes) (acc : Fields Text Number)
        → length rest ≤ n
        → Leaves (length rest) (decode_fields p dec k rest acc)
    unfolding decode_fields
    decode_fields-Leaves zero rest acc h = omega arith
    decode_fields-Leaves (suc k) rest acc h =
        Shrinks-bind (length rest) (length rest) (dec rest) _ (takes rest h) λ kv r lt.
          as_key-Leaves kv (length rest) _ λ key.
            Shrinks-bind (length r) (length rest) (dec r) _ (takes r (omega arith)) λ v r' lt'.
              Leaves-mono (length r') (length rest) _
                (decode_fields-Leaves k r' (set_field p key v acc) (omega arith)) (omega arith)

    decode_variable_fields-Leaves :
        (g : ℕ) (rest : Bytes) (acc : Fields Text Number)
        → length rest ≤ n
        → length rest < g
        → Leaves (length rest) (decode_variable_fields p dec g rest acc)
    unfolding decode_variable_fields
    decode_variable_fields-Leaves zero rest acc h lt = absurd (omega arith)
    decode_variable_fields-Leaves (suc g) rest acc h lt =
        Shrinks-bind (length rest) (length rest) (dec rest) _ (takes rest h) λ k r l.
          Shrinks-bind (length r) (length rest) (dec r) _ (takes r (omega arith)) λ v r' l'.
            go k v r' (omega arith)
              (λ key.
                Leaves-mono (length r') (length rest) _
                  (decode_variable_fields-Leaves g r' (set_field p key v acc) (omega arith)
                    (omega arith))
                  (omega arith))
              (both_null p k v)
      where
        go :
            (k v : Value Text Number) (r : Bytes)
            → length r ≤ length rest
            → ((key : Text)
                → Leaves (length rest) (decode_variable_fields p dec g r (set_field p key v acc)))
            → (b : Bool)
            → Leaves (length rest) (elim b [
              | true ↦ ok (acc, r)
              | false ↦
                  as_key p k >>= λ key. decode_variable_fields p dec g r (set_field p key v acc)
            ])
        go k v r l ih true = l
        go k v r l ih false = as_key-Leaves k (length rest) _ ih

    decode_marked-Leaves :
        (m : Marker) (rest : Bytes)
        → length rest ≤ n
        → Leaves (length rest) (decode_marked p dec m rest)
    unfolding decode_marked
    decode_marked-Leaves null_marker rest h = le_refl (length rest)
    decode_marked-Leaves true_marker rest h = le_refl (length rest)
    decode_marked-Leaves false_marker rest h = le_refl (length rest)
    decode_marked-Leaves (small_int k) rest h = le_refl (length rest)
    decode_marked-Leaves int8 rest h = decode_uint-Leaves 1 rest
    decode_marked-Leaves int32 rest h = decode_uint-Leaves 4 rest
    decode_marked-Leaves int64 rest h = decode_uint64-Leaves rest
    decode_marked-Leaves float rest h = decode_float-Leaves rest
    decode_marked-Leaves (string k) rest h = decode_string-Leaves k rest
    decode_marked-Leaves (string_sized w) rest h =
        Leaves-bind (length rest) (decode_length w rest) _ (decode_length-Leaves w rest)
          (λ k r le. Leaves-mono (length r) (length rest) _ (decode_string-Leaves k r) le)
    decode_marked-Leaves (bytes k) rest h = decode_bytes-Leaves k rest
    decode_marked-Leaves (bytes_sized w) rest h =
        Leaves-bind (length rest) (decode_length w rest) _ (decode_length-Leaves w rest)
          (λ k r le. Leaves-mono (length r) (length rest) _ (decode_bytes-Leaves k r) le)
    decode_marked-Leaves (array k) rest h =
        Leaves-bind (length rest) (decode_items p dec k rest) _ (decode_items-Leaves k rest h)
          (λ vs r le. le)
    decode_marked-Leaves variable_array rest h =
        Leaves-bind (length rest) (decode_variable_items p dec (suc (length rest)) rest) _
          (decode_variable_items-Leaves (suc (length rest)) rest h (omega arith)) (λ vs r le. le)
    decode_marked-Leaves (dict k) rest h =
        Leaves-bind (length rest) (decode_fields p dec k rest end) _
          (decode_fields-Leaves k rest end h) (λ vs r le. le)
    decode_marked-Leaves variable_dict rest h =
        Leaves-bind (length rest) (decode_variable_fields p dec (suc (length rest)) rest end) _
          (decode_variable_fields-Leaves (suc (length rest)) rest end h (omega arith))
          (λ vs r le. le)
    decode_marked-Leaves unsupported rest h = tt

  -- `decode` on its fuel: an error or a value, and behind a value less of the payload.
  pub decode-Shrinks : (f : ℕ) (b : Bytes) → length b < f → Shrinks (length b) (decode p f b)
  unfolding decode
  decode-Shrinks zero b h = absurd (omega arith)
  decode-Shrinks (suc f) [] h = tt
  decode-Shrinks (suc f) (m ∷ rest) h = Leaves-Shrinks (length rest) _ (
      decode_marked-Leaves (decode p f) (length rest) (λ c le. decode-Shrinks f c (omega arith))
        (classify m) rest (omega arith))

  guard-ne-stuck :
      (b : Bool) (v : Value Text Number) → (guard b trailing_bytes >>= λ _. ok v) ≢ stuck
  guard-ne-stuck true v e = cc
  guard-ne-stuck false v e = cc

  -- `loads` ends on every payload, with a value or an `AppleTVError`.
  pub loads-ne-stuck : (b : Bytes) → loads p b ≢ stuck
  unfolding loads
  loads-ne-stuck b =
      go (decode p (suc (length b)) b) (decode-Shrinks (suc (length b)) b (omega arith))
    where
      go :
          (r : Result Error (Value Text Number × Bytes))
          → Shrinks (length b) r
          → (r >>= λ (v, rest). guard (length rest == 0) trailing_bytes >>= λ _. ok v) ≢ stuck
      go (ok (v, rest)) h = guard-ne-stuck (length rest == 0) v
      go (err e) h = λ x. cc
      go stuck h = absurd h
