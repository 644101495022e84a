-- ===== src/Opack/Runs.antt =====
-- Runs of OPACK2 over a small platform, and its theorems at these inputs.
use appium_ios_remotexpc.Opack.Encode.{encode_bytes}
use appium_ios_remotexpc.Prelude.{ℕ, zero, suc, ◌≡◌, refl, ◌≢◌, true, some, [], ◌∷◌, arith}
use appium_ios_remotexpc.Prelude.Result.{ok, err, stuck}
use appium_ios_remotexpc.Prelude.Bytes.{Bytes}
use native.Mathlib.Decide.{ℕ_discrete}
use appium_ios_remotexpc.Opack.Value.{
  Platform, IsPlatform, Value, Items, null, bool, num, buf, arr, obj, nil, cons, end, field,
  unexpected_end, trailing_bytes,
}
use appium_ios_remotexpc.Opack.Encode.{
  encode, dumps, wrap_items, wrap_fields, encode_uint, encode_number, encode_string, sized_header,
}
use appium_ios_remotexpc.Opack.Decode.{loads}
use appium_ios_remotexpc.Opack.Plain.{IsPlain, ArePlain, NoNulls}
use appium_ios_remotexpc.Opack.RoundTrip.{loads-dumps}
use appium_ios_remotexpc.Opack.Progress.{loads-ne-stuck}
use appium_ios_remotexpc.Opack.Limits.{loads-dumps_fifteen, loads-dumps_null, append_items}

bytes_discrete : Discrete Bytes
bytes_discrete = hlevel ℕ_discrete

-- Strings are their UTF-8, and every number is a natural one.
abbrev small : Platform
small = record {
  Text = Bytes;
  text_eq = bytes_discrete;
  to_utf8 = λ t. t;
  of_utf8 = λ b. b;
  Number = ℕ;
  to_uint = λ n. some n;
  of_uint = λ n. n;
  write_float_le = λ n. 0 ∷ 0 ∷ 0 ∷ 0 ∷ [];
  read_float_le = λ b. 0;
}

some_injective : (m n : ℕ) → some m ≡ some n → n ≡ m
some_injective m n e = cc

small-IsPlatform : IsPlatform small
small-IsPlatform = record { float_size = λ x. refl; of_to_uint = λ x n e h. some_injective x n e }

abbrev V : Type 0
V = Value Bytes ℕ

-- { "a": [1, true, null], "b": <2 bytes> }
abbrev info : V
info = obj (
    field (b'a' ∷ []) (arr (cons (num 1) (cons (bool true) (cons null nil))))
      (field (b'b' ∷ []) (buf (7 ∷ 8 ∷ [])) end))

dumps-info :
    dumps small info ≡ ok (0xe2 ∷ 0x41 ∷ b'a' ∷ 0xd3 ∷ 9 ∷ 1 ∷ 3 ∷ 0x41 ∷ b'b' ∷ 0x72 ∷ 7 ∷ 8 ∷ [])
unfolding dumps encode encode_string encode_number encode_uint encode_bytes sized_header wrap_items
    wrap_fields
dumps-info = refl

info-IsPlain : IsPlain small info
unfolding IsPlain
info-IsPlain = (
  ((distinct, tt), (tt, tt)),
  (
    (refl, omega arith),
    (omega arith, (λ h. absurd (omega arith)), (omega arith, (tt, (tt, tt)))),
    ((refl, omega arith), omega arith, tt),
  ),
)
  where
    distinct : ◌≢◌ {A = Bytes} (b'b' ∷ []) (b'a' ∷ [])
    distinct e = ground arith

loads-dumps_example : (b : Bytes) × (dumps small info ≡ ok b) × (loads small b ≡ ok info)
loads-dumps_example = loads-dumps small small-IsPlatform info info-IsPlain

loads-ne-stuck_example : loads small (0xdf ∷ 3 ∷ []) ≢ stuck
loads-ne-stuck_example = loads-ne-stuck small (0xdf ∷ 3 ∷ [])

abbrev ones : ℕ → Items Bytes ℕ
ones zero = nil
ones (suc n) = cons (num 1) (ones n)

ones-NoNulls : (n : ℕ) → NoNulls (ones n)
ones-NoNulls zero = tt
ones-NoNulls (suc n) = ((λ e. cc), ones-NoNulls n)

ones-ArePlain : (n : ℕ) → ArePlain small (ones n)
unfolding ArePlain
ones-ArePlain zero = tt
ones-ArePlain (suc n) = (omega arith, ones-ArePlain n)

loads-dumps_fifteen_example :
    (b : Bytes) × (dumps small (arr (ones 15)) ≡ ok b) × (loads small b ≡ err unexpected_end)
loads-dumps_fifteen_example =
    loads-dumps_fifteen small small-IsPlatform (ones 15) refl (ones-ArePlain 15) (ones-NoNulls 15)

loads-dumps_null_example :
    (b : Bytes) × (dumps small (arr (append_items (ones 8) (cons null (ones 8)))) ≡ ok b)
    × (loads small b ≡ err trailing_bytes)
loads-dumps_null_example =
    loads-dumps_null small small-IsPlatform (ones 8) (ones 8) (omega arith) (ones-ArePlain 8)
      (ones-NoNulls 8) (ones-ArePlain 8)
