-- ===== src/Xpc/Small.antt =====
-- A small platform for tests of the XPC codec, and a message over it.
use appium_ios_remotexpc.Prelude.{ℕ, ◌≡◌, refl, true, some, [], ◌∷◌, arith, length}
use appium_ios_remotexpc.Prelude.Result.{ok}
use appium_ios_remotexpc.Prelude.Bytes.{Bytes}
use native.Mathlib.Decide.{ℕ_discrete}
use appium_ios_remotexpc.Prelude.Int.{fits_signed, of_signed, ℤ, pos, negsuc}
use appium_ios_remotexpc.Xpc.Value.{
  Platform, IsPlatform, Fields, null, bool, num, str, arr, nil, cons, end, field,
}
use appium_ios_remotexpc.Xpc.Bits.{
  write_uint, write_big_uint64_le, write_big_int64_le, calc_padding,
}
use appium_ios_remotexpc.Xpc.Encode.{
  Message, encode_message, encode_dictionary, encode_object, encode_string, encode_number, wrap,
  encode_dictionary_key,
}
use appium_ios_remotexpc.Xpc.Seen.{HasReadable, IsReadable}

pub bytes_discrete : Discrete Bytes
bytes_discrete = hlevel ℕ_discrete

unfoldable pub first_byte : Bytes → ℕ
first_byte [] = 0
first_byte (b ∷ bs) = b

unfoldable pub natural : ℤ → ℕ
natural (pos n) = n
natural (negsuc n) = 0

-- Strings are their UTF-8, and every number is a natural one.
abbrev pub small : Platform
small = record {
  Text = Bytes;
  text_eq = bytes_discrete;
  to_utf8 = λ t. t;
  of_utf8 = λ b. b;
  utf16_length = λ t. length t;
  to_hex = λ b. b;
  Number = ℕ;
  to_int = λ n. some (pos n);
  of_int = natural;
  write_double_le = λ x. x ∷ 0 ∷ 0 ∷ 0 ∷ 0 ∷ 0 ∷ 0 ∷ 0 ∷ [];
  read_double_le = first_byte;
}

pub small-IsPlatform : IsPlatform small
unfolding first_byte
small-IsPlatform = record { double_size = λ x. refl; read-write_double_le = λ x. refl }

-- { "a": [1, true, null], "bc": "hi" }
abbrev pub fields : Fields Bytes ℕ
fields =
    field (b'a' ∷ []) (arr (cons (num 1) (cons (bool true) (cons null nil))))
      (field (b'b' ∷ b'c' ∷ []) (str (b'h' ∷ b'i' ∷ [])) end)

abbrev pub request : Message Bytes ℕ
request = record { flags = 1; id = pos 5; body = some fields }

abbrev pub request_bytes : Bytes
request_bytes =
    146 ∷ 11 ∷ 176 ∷ 41 ∷ 1 ∷ 0 ∷ 0 ∷ 0 ∷ 76 ∷ 0 ∷ 0 ∷ 0 ∷ 0 ∷ 0 ∷ 0 ∷ 0 ∷ 5 ∷ 0 ∷ 0 ∷ 0 ∷ 0 ∷ 0 ∷ 0
    ∷ 0 ∷ 66 ∷ 55 ∷ 19 ∷ 66 ∷ 5 ∷ 0 ∷ 0 ∷ 0 ∷ 0 ∷ 240 ∷ 0 ∷ 0 ∷ 60 ∷ 0 ∷ 0 ∷ 0 ∷ 2 ∷ 0 ∷ 0 ∷ 0 ∷ 97
    ∷ 0 ∷ 0 ∷ 0 ∷ 0 ∷ 224 ∷ 0 ∷ 0 ∷ 28 ∷ 0 ∷ 0 ∷ 0 ∷ 3 ∷ 0 ∷ 0 ∷ 0 ∷ 0 ∷ 48 ∷ 0 ∷ 0 ∷ 1 ∷ 0 ∷ 0 ∷ 0
    ∷ 0 ∷ 0 ∷ 0 ∷ 0 ∷ 0 ∷ 32 ∷ 0 ∷ 0 ∷ 1 ∷ 0 ∷ 0 ∷ 0 ∷ 0 ∷ 16 ∷ 0 ∷ 0 ∷ 98 ∷ 99 ∷ 0 ∷ 0 ∷ 0 ∷ 144
    ∷ 0 ∷ 0 ∷ 3 ∷ 0 ∷ 0 ∷ 0 ∷ 104 ∷ 105 ∷ 0 ∷ 0 ∷ []

pub encode_message-request : encode_message small request ≡ ok request_bytes
unfolding encode_message encode_dictionary encode_object encode_string encode_number wrap
    encode_dictionary_key write_uint write_big_uint64_le write_big_int64_le calc_padding fits_signed
    of_signed
encode_message-request = refl

pub fields-HasReadable : HasReadable small fields
unfolding HasReadable IsReadable
fields-HasReadable = (
  record { no_nulls = ((λ e. absurd (omega arith)), tt); same_padding = refl },
  (tt, (tt, (tt, tt))),
  (
    record {
      no_nulls = ((λ e. absurd (omega arith)), ((λ e. absurd (omega arith)), tt));
      same_padding = refl;
    },
    ((λ e. absurd (omega arith)), ((λ e. absurd (omega arith)), tt)),
    tt,
  ),
)
