-- ===== src/Opack/Value.antt =====
-- The JavaScript values that OPACK2 carries, and what the code takes from JavaScript and Node.js.
use appium_ios_remotexpc.Prelude.{ℕ, suc, ◌-◌, ◌^◌, ◌≤◌, ◌≡◌, Bool, Option, some, length}
use appium_ios_remotexpc.Prelude.Bytes.{Bytes}

-- Strings and numbers of JavaScript, which src/ does not define. `to_uint` is the value of a
-- number for which `Number.isInteger(num) && num >= 0`, and `none` for any other.
pub record Platform : Type 1 where
  pub Text : Type 0
  pub text_eq : Discrete Text
  pub to_utf8 : Text → Bytes
  pub of_utf8 : Bytes → Text
  pub Number : Type 0
  pub to_uint : Number → Option ℕ
  pub of_uint : ℕ → Number
  pub write_float_le : Number → Bytes
  pub read_float_le : Bytes → Number

-- `Number.MAX_SAFE_INTEGER`
abbrev pub max_safe_integer : ℕ
max_safe_integer = 2 ^ 53 - 1

-- Documented behaviour: a float takes 4 bytes, and a safe integer is one number.
pub record IsPlatform (p : Platform) : Type 0 where
  pub float_size : (x : p.Number) → length (p.write_float_le x) ≡ 4
  pub of_to_uint :
      (x : p.Number) (n : ℕ) → p.to_uint x ≡ some n → n ≤ max_safe_integer → p.of_uint n ≡ x

-- `SerializableValue`. An object is the list of its entries in the order of `Object.entries`.
mutual
  pub data Value (Text Number : Type 0) : Type 0 where
    null undefined : Value Text Number
    bool : Bool → Value Text Number
    num : Number → Value Text Number
    str : Text → Value Text Number
    buf : Bytes → Value Text Number
    arr : Items Text Number → Value Text Number
    obj : Fields Text Number → Value Text Number

  pub data Items (Text Number : Type 0) : Type 0 where
    nil : Items Text Number
    cons : Value Text Number → Items Text Number → Items Text Number

  pub data Fields (Text Number : Type 0) : Type 0 where
    end : Fields Text Number
    field : Text → Value Text Number → Fields Text Number → Fields Text Number

module _ {T N : Type 0} where
  -- `arr.length`
  abbrev pub count : Items T N → ℕ
  count nil = 0
  count (cons v vs) = suc (count vs)

  -- `entries.length`
  abbrev pub count_fields : Fields T N → ℕ
  count_fields end = 0
  count_fields (field k v fs) = suc (count_fields fs)

-- How a payload may be rejected, and a value.
pub data Error : Type 0 where
  unexpected_end trailing_bytes unsupported_marker unsafe_integer key_not_string : Error
  number_too_large too_long : Error
