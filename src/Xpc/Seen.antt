-- ===== src/Xpc/Seen.antt =====
-- What a value looks like on the other side, and which values can be read there.
use appium_ios_remotexpc.Prelude.{◌+◌, ◌≡◌, Option, none, some, length}
use appium_ios_remotexpc.Prelude.Int.{ℤ, pos, negsuc}
use appium_ios_remotexpc.Xpc.Value.{
  Platform, Value, Items, Fields, null, undefined, bool, num, big, str, date, uuid, buf, arr, obj,
  nil, cons, end, field,
}
use appium_ios_remotexpc.Xpc.Bits.{calc_padding}
use appium_ios_remotexpc.Xpc.Decode.{set_field}
use appium_ios_remotexpc.Xpc.BitsLaws.{NoNulls}

module _ (p : Platform) where
  open p use {Text, Number, to_utf8, of_utf8, utf16_length, to_hex, to_int, of_int}

  -- A text goes through UTF-8.
  abbrev pub seen_text : Text → Text
  seen_text text = of_utf8 (to_utf8 text)

  abbrev pub seen_number : Option ℤ → Number → Number
  seen_number none x = x
  seen_number (some z) x = of_int z

  -- `undefined` comes back as null, a bigint as a number, a UUID as its hexadecimal text and an
  -- object as its entries, set one after the other.
  unfoldable mutual
    pub seen : Value Text Number → Value Text Number
    seen null = null
    seen undefined = null
    seen (bool b) = bool b
    seen (num x) = num (seen_number (to_int x) x)
    seen (big (pos n)) = num (of_int (pos n))
    seen (big (negsuc n)) = num (of_int (negsuc n))
    seen (str text) = str (seen_text text)
    seen (date ms) = date ms
    seen (uuid bytes) = str (to_hex bytes)
    seen (buf bytes) = buf bytes
    seen (arr items) = arr (seen_items items)
    seen (obj fields) = obj (seen_fields end fields)

    pub seen_items : Items Text Number → Items Text Number
    seen_items nil = nil
    seen_items (cons v vs) = cons (seen v) (seen_items vs)

    pub seen_fields : Fields Text Number → Fields Text Number → Fields Text Number
    seen_fields dict end = dict
    seen_fields dict (field key v fields) =
        seen_fields (set_field p (seen_text key) (seen v) dict) fields

  -- A key without null bytes whose padding by its length as a string is that by its bytes; an ASCII
  -- text is such a key.
  pub record IsKey (key : Text) : Type 0 where
    pub no_nulls : NoNulls (to_utf8 key)
    pub same_padding :
        calc_padding (utf16_length (seen_text key) + 1) ≡ calc_padding (length (to_utf8 key) + 1)

  -- No text has a null byte, and a UUID has 16 bytes.
  unfoldable mutual
    pub IsReadable : Value Text Number → Type 0
    IsReadable null = Unit {0}
    IsReadable undefined = Unit {0}
    IsReadable (bool b) = Unit {0}
    IsReadable (num x) = Unit {0}
    IsReadable (big z) = Unit {0}
    IsReadable (str text) = NoNulls (to_utf8 text)
    IsReadable (date ms) = Unit {0}
    IsReadable (uuid bytes) = length bytes ≡ 16
    IsReadable (buf bytes) = Unit {0}
    IsReadable (arr items) = AreReadable items
    IsReadable (obj fields) = HasReadable fields

    pub AreReadable : Items Text Number → Type 0
    AreReadable nil = Unit {0}
    AreReadable (cons v vs) = IsReadable v × AreReadable vs

    pub HasReadable : Fields Text Number → Type 0
    HasReadable end = Unit {0}
    HasReadable (field key v fields) = IsKey key × IsReadable v × HasReadable fields
