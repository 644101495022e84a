-- ===== src/Xpc/Value.antt =====
-- The JavaScript values that src/lib/remote-xpc/xpc-protocol.ts carries, and what it takes from
-- JavaScript and Node.js.
use appium_ios_remotexpc.Prelude.{ℕ, suc, ◌≡◌, Bool, Option, length}
use appium_ios_remotexpc.Prelude.Bytes.{Bytes}
use appium_ios_remotexpc.Prelude.Int.{ℤ}

-- Strings and numbers of JavaScript, which src/ does not define. `to_int` is the value of a number
-- for which `Number.isInteger` holds, and `none` for any other.
pub record Platform : Type 1 where
  pub Text : Type 0
  pub text_eq : Discrete Text
  pub to_utf8 : Text → Bytes
  pub of_utf8 : Bytes → Text
  pub utf16_length : Text → ℕ
  pub to_hex : Bytes → Text
  pub Number : Type 0
  pub to_int : Number → Option ℤ
  pub of_int : ℤ → Number
  pub write_double_le : Number → Bytes
  pub read_double_le : Bytes → Number

-- Documented behaviour: a double takes 8 bytes and is read back as it was.
pub record IsPlatform (p : Platform) : Type 0 where
  pub double_size : (x : p.Number) → length (p.write_double_le x) ≡ 8
  pub read-write_double_le : (x : p.Number) → p.read_double_le (p.write_double_le x) ≡ x

-- `XPCValue`. A Date is its time in milliseconds, a UUID its bytes; an object is the list of its
-- entries in the order of `Object.keys`.
mutual
  pub data Value (Text Number : Type 0) : Type 0 where
    null undefined : Value Text Number
    bool : Bool → Value Text Number
    num : Number → Value Text Number
    big : ℤ → Value Text Number
    str : Text → Value Text Number
    date : ℤ → Value Text Number
    uuid : Bytes → Value Text Number
    buf : Bytes → Value Text Number
    arr : Items Text Number → Value Text Number
    obj : Fields Text Number → Value Text Number

  pub data Items (Text Number : Type 0) : Type 0 where
    nil : Items Text Number
    cons : Value Text Number → Items Text Number → Items Text Number

  pub data Fields (Text Number : Type 0) : Type 0 where
    end : Fields Text Number
    field : Text → Value Text Number → Fields Text Number → Fields Text Number

module _ {T N : Type 0} where
  abbrev pub count : Items T N → ℕ
  count nil = 0
  count (cons v vs) = suc (count vs)

  abbrev pub count_fields : Fields T N → ℕ
  count_fields end = 0
  count_fields (field k v fs) = suc (count_fields fs)

-- How encoding or decoding may throw. `out_of_range` is the RangeError of Node.js.
pub data Error : Type 0 where
  out_of_range unsupported_type incomplete invalid_magic invalid_object_magic : Error
  unexpected_version not_dictionary : Error
