-- ===== src/Xpc/Progress.antt =====
-- `decodeMessage` of src/lib/remote-xpc/xpc-protocol.ts ends on every buffer: each call of
-- `decodeObject` reads 4 bytes before it makes another, so the fuel suffices.
use appium_ios_remotexpc.Prelude.Leaves.{Leaves-then}
use appium_ios_remotexpc.Prelude.{
  ℕ, zero, suc, ◌+◌, ◌-◌, ◌≤◌, ◌<◌, refl, ◌≢◌, inl, inr, [], ◌∷◌, arith, ltb, ◌==◌, ltb→le,
  Bool-cases, length, take, drop, length-drop,
}
use appium_ios_remotexpc.Prelude.Result.{Result, ok, err, stuck, ◌>>=◌}
use appium_ios_remotexpc.Prelude.Bytes.{Bytes}
use native.Mathlib.Nat.{le_refl}
use appium_ios_remotexpc.Prelude.Leaves.{Leaves, Shrinks, Leaves-mono, Leaves-bind, Shrinks-bind}
use appium_ios_remotexpc.Xpc.Value.{Platform, Value, Fields, str, buf, end, Error}
use appium_ios_remotexpc.Xpc.Bits.{
  read_uint, read_big_int64_le, calc_padding, read_key_bytes, terminated,
}
use appium_ios_remotexpc.Xpc.Decode.{
  Decoder, Kind, null_kind, bool_kind, int64_kind, uint64_kind, double_kind, date_kind, data_kind,
  string_kind, uuid_kind, array_kind, dictionary_kind, unknown_kind, kind_of, decode_bool,
  decode_double, decode_data, decode_string, decode_uuid, decode_items, decode_array,
  read_dictionary_key, set_field, decode_fields, decode_dictionary, decode_kind, decode_object,
}

pub read_uint-Leaves : (size : ℕ) (rest : Bytes) → Leaves (length rest - size) (read_uint size rest)
unfolding read_uint
read_uint-Leaves size rest = elim (Bool-cases (ltb (length rest) size)) [
  | inl short ↦ rw short tt
  | inr enough ↦ rw enough (omega (arith, length-drop {0} size rest))
]

read_uint-Shrinks : (rest : Bytes) → Shrinks (length rest) (read_uint 4 rest)
unfolding read_uint
read_uint-Shrinks rest = elim (Bool-cases (ltb (length rest) 4)) [
  | inl short ↦ rw short tt
  | inr enough ↦ rw enough (omega (arith, ltb→le (length rest) 4 enough, length-drop {0} 4 rest))
]

-- What is read in front, and what the rest does with it.
after_uint :
    {B : Type 0} (size n : ℕ) (rest : Bytes) (f : ℕ × Bytes → Result Error (B × Bytes))
    → ((v : ℕ) (r : Bytes) → length r ≤ length rest - size → Leaves n (f (v, r)))
    → Leaves n (read_uint size rest >>= f)
after_uint size n rest f =
    Leaves-then (length rest - size) n (read_uint size rest) f (read_uint-Leaves size rest)

-- A result that is there, and what is made of it.
ne-stuck-Leaves :
    {A B : Type 0} (n : ℕ) (m : Result Error A) (f : A → Result Error (B × Bytes))
    → m ≢ stuck
    → ((a : A) → Leaves n (f a))
    → Leaves n (m >>= f)
ne-stuck-Leaves n (ok a) f h k = k a
ne-stuck-Leaves n (err e) f h k = tt
ne-stuck-Leaves n stuck f h k = h refl

pub bind-ne-stuck :
    {A B : Type 0} (m : Result Error A) (f : A → Result Error B)
    → m ≢ stuck
    → ((a : A) → f a ≢ stuck)
    → (m >>= f) ≢ stuck
bind-ne-stuck (ok a) f h k = k a
bind-ne-stuck (err e) f h k = λ q. cc
bind-ne-stuck stuck f h k = absurd (h refl)

pub Leaves-bind-ne-stuck :
    {A B : Type 0} (n : ℕ) (m : Result Error (A × Bytes)) (f : A × Bytes → Result Error B)
    → Leaves n m
    → ((a : A) (r : Bytes) → length r ≤ n → f (a, r) ≢ stuck)
    → (m >>= f) ≢ stuck
Leaves-bind-ne-stuck n (ok (a, r)) f h k = k a r h
Leaves-bind-ne-stuck n (err e) f h k = λ q. cc
Leaves-bind-ne-stuck n stuck f h k = absurd h

read_big_int64_le-Leaves : (rest : Bytes) → Leaves (length rest) (read_big_int64_le rest)
unfolding read_big_int64_le
read_big_int64_le-Leaves rest = after_uint 8 (length rest) rest _ (λ v r le. omega arith)

read_key_bytes-Leaves : (rest : Bytes) → Leaves (length rest) (read_key_bytes rest)
unfolding read_key_bytes
read_key_bytes-Leaves [] = tt
read_key_bytes-Leaves (b ∷ rest) = elim (Bool-cases (b == 0)) [
  | inl found ↦ rw found (omega arith)
  | inr other ↦ rw other (
      Leaves-mono (length rest) (suc (length rest)) _
        (Leaves-bind (length rest) (read_key_bytes rest) _ (read_key_bytes-Leaves rest)
          (λ bytes r h. h))
        (omega arith))
]

module _ (p : Platform) where
  open p use {Text, Number, of_utf8, utf16_length}

  read_dictionary_key-Leaves : (rest : Bytes) → Leaves (length rest) (read_dictionary_key p rest)
  unfolding read_dictionary_key
  read_dictionary_key-Leaves rest =
      Leaves-bind (length rest) (read_key_bytes rest) _ (read_key_bytes-Leaves rest)
        λ bytes r h. short (utf16_length (of_utf8 bytes)) r h
    where
      short :
          (n : ℕ) (r : Bytes)
          → length r ≤ length rest
          → length (drop (calc_padding (n + 1)) r) ≤ length rest
      short n r h = omega (arith, length-drop (calc_padding (n + 1)) r)

  -- A string or a buffer behind its length.
  sliced :
      (f : ℕ → Bytes → Value Text Number) (rest : Bytes)
      → Leaves
          (length rest)
          (read_uint 4 rest >>= λ (n, r). ok (f n r, drop (calc_padding n) (drop n r)))
  sliced f rest =
      after_uint 4 (length rest) rest _
        λ n r le. omega (arith, length-drop (calc_padding n) (drop n r), length-drop n r)

  decode_double-Leaves : (rest : Bytes) → Leaves (length rest) (decode_double p rest)
  unfolding decode_double
  decode_double-Leaves rest = elim (Bool-cases (ltb (length rest) 8)) [
    | inl short ↦ rw short tt
    | inr enough ↦ rw enough (omega (arith, length-drop {0} 8 rest))
  ]

  module _ (dec : Decoder p) (n : ℕ)
      (ends : (rest : Bytes) → length rest ≤ n → Leaves (length rest) (dec rest)) where
    decode_items-Leaves :
        (k : ℕ) (rest : Bytes) → length rest ≤ n → Leaves (length rest) (decode_items p dec k rest)
    unfolding decode_items
    decode_items-Leaves zero rest h = omega arith
    decode_items-Leaves (suc k) rest h =
        Leaves-bind (length rest) (dec rest) _ (ends rest h) λ v r le.
          Leaves-mono (length r) (length rest) _
            (Leaves-bind (length r) (decode_items p dec k r) _
              (decode_items-Leaves k r (omega arith)) (λ vs r' le'. le'))
            le

    decode_fields-ne-stuck :
        (k : ℕ) (rest : Bytes) (dict : Fields Text Number)
        → length rest ≤ n
        → decode_fields p dec k rest dict ≢ stuck
    unfolding decode_fields
    decode_fields-ne-stuck zero rest dict h = λ q. cc
    decode_fields-ne-stuck (suc k) rest dict h =
        Leaves-bind-ne-stuck (length rest) (read_dictionary_key p rest) _
          (read_dictionary_key-Leaves rest)
          λ key r le.
            Leaves-bind-ne-stuck (length r) (dec r) _ (ends r (omega arith))
              λ v r' le'. decode_fields-ne-stuck k r' (set_field p key v dict) (omega arith)

    -- The payload of an array or a dictionary is no longer than what is there.
    payload_short : (size : ℕ) (r : Bytes) → length (take size r) ≤ length r
    payload_short zero r = omega arith
    payload_short (suc size) [] = omega arith
    payload_short (suc size) (b ∷ r) = omega (arith, payload_short size r)

    decode_array-Leaves :
        (rest : Bytes) → length rest ≤ n → Leaves (length rest) (decode_array p dec rest)
    unfolding decode_array
    decode_array-Leaves rest h = after_uint 4 (length rest) rest _ λ size r le.
        let short = payload_short size r in
        after_uint 4 (length rest) (take size r) _ λ k items le'.
          Leaves-then (length items) (length rest) (decode_items p dec k items) _
            (decode_items-Leaves k items (omega arith))
            λ vs r' le''. omega (arith, length-drop size r)

    decode_dictionary-Leaves :
        (rest : Bytes) → length rest ≤ n → Leaves (length rest) (decode_dictionary p dec rest)
    unfolding decode_dictionary
    decode_dictionary-Leaves rest h = after_uint 4 (length rest) rest _ λ size r le.
        let short = payload_short size r in
        after_uint 4 (length rest) (take size r) _ λ k entries le'.
          ne-stuck-Leaves (length rest) (decode_fields p dec k entries end) _
            (decode_fields-ne-stuck k entries end (omega arith))
            λ dict. omega (arith, length-drop size r)

    decode_kind-Leaves :
        (k : Kind) (rest : Bytes)
        → length rest ≤ n
        → Leaves (length rest) (decode_kind p dec k rest)
    unfolding decode_kind decode_bool decode_data decode_string decode_uuid
    decode_kind-Leaves null_kind rest h = le_refl (length rest)
    decode_kind-Leaves bool_kind rest h =
        after_uint 1 (length rest) rest _ λ b r le. omega (arith, length-drop 3 r)
    decode_kind-Leaves int64_kind rest h =
        Leaves-bind (length rest) (read_big_int64_le rest) _ (read_big_int64_le-Leaves rest)
          λ z r le. le
    decode_kind-Leaves uint64_kind rest h = after_uint 8 (length rest) rest _ λ z r le. omega arith
    decode_kind-Leaves double_kind rest h = decode_double-Leaves rest
    decode_kind-Leaves date_kind rest h =
        Leaves-bind (length rest) (read_big_int64_le rest) _ (read_big_int64_le-Leaves rest)
          λ z r le. le
    decode_kind-Leaves data_kind rest h = sliced (λ n r. buf (take n r)) rest
    decode_kind-Leaves string_kind rest h =
        sliced (λ n r. str (of_utf8 (terminated (take n r)))) rest
    decode_kind-Leaves uuid_kind rest h = omega (arith, length-drop {0} 16 rest)
    decode_kind-Leaves array_kind rest h = decode_array-Leaves rest h
    decode_kind-Leaves dictionary_kind rest h = decode_dictionary-Leaves rest h
    decode_kind-Leaves unknown_kind rest h = tt

  pub decode_object-Leaves :
      (f : ℕ) (rest : Bytes) → length rest < f → Leaves (length rest) (decode_object p f rest)
  unfolding decode_object
  decode_object-Leaves zero rest h = absurd (omega arith)
  decode_object-Leaves (suc f) rest h =
      Shrinks-bind (length rest) (length rest) (read_uint 4 rest) _ (read_uint-Shrinks rest)
        λ type r lt.
          Leaves-mono (length r) (length rest) _
            (decode_kind-Leaves (decode_object p f) (length r)
              (λ rest' le. decode_object-Leaves f rest' (omega arith)) (kind_of type) r
              (le_refl (length r)))
            (omega arith)
