-- ===== src/Usbmux/Codec.antt =====
-- `UsbmuxEncoder` and `UsbmuxDecoder` of src/lib/usbmux/usbmux-encoder.ts and usbmux-decoder.ts.
use appium_ios_remotexpc.Prelude.{
  ℕ, ◌+◌, ◌^◌, ◌&&◌, Option, none, some, List, ◌++◌, ltb, leb, length, drop,
}
use appium_ios_remotexpc.Prelude.Result.{Result, ok, err, ◌>>=◌, ◌>>◌, guard}
use appium_ios_remotexpc.Prelude.Bytes.{Bytes, le_bytes, read_le}
use appium_ios_remotexpc.Framing.{Framing, accept}

-- `UsbmuxHeader`
pub record Header : Type 0 where
  pub size : ℕ
  pub version : ℕ
  pub type : ℕ
  pub tag : ℕ

pub data Error : Type 0 where
  out_of_range bad_plist : Error

-- `createPlist` and `parsePlist` of src/lib/plist with the type of their values, as the encoder and
-- the decoder call them: any two functions; that one is the inverse of the other is not assumed.
-- `none` stands for an exception of `parsePlist`.
pub record Plists : Type 1 where
  pub Plist : Type 0
  pub create_plist : Plist → Bytes
  pub parse_plist : Bytes → Option Plist

module _ (p : Plists) where
  open p use {Plist, create_plist, parse_plist}

  -- The header, with version 1 and type 8, and the payload.
  abbrev pub message_bytes : (tag : ℕ) → Bytes → Bytes
  message_bytes tag body =
      le_bytes 4 (16 + length body) ++ (le_bytes 4 1 ++ (le_bytes 4 8 ++ (le_bytes 4 tag ++ body)))

  -- `_encode`: a length or a tag that does not fit 32 bits throws.
  unfoldable pub encode : Plist → (tag : ℕ) → Result Error Bytes
  encode payload tag = do
    let body = create_plist payload
    guard (ltb (16 + length body) (2 ^ 32) && ltb tag (2 ^ 32)) out_of_range
    ok (message_bytes tag body)

  abbrev pub or_bad : Option Plist → Result Error Plist
  or_bad none = err bad_plist
  or_bad (some x) = ok x

  abbrev pub header_of : Bytes → Header
  header_of message = record {
    size = read_le 4 message 0;
    version = read_le 4 message 4;
    type = read_le 4 message 8;
    tag = read_le 4 message 12;
  }

  -- `_decode`: reading a field behind the end throws, and so does what is no property list.
  unfoldable pub decode : Bytes → Result Error (Header × Plist)
  decode message = do
    guard (leb 16 (length message)) out_of_range
    payload ← or_bad (parse_plist (drop 16 message))
    ok (header_of message, payload)

  unfoldable pub usbmux_framing : Framing Error (Header × Plist)
  usbmux_framing = record { header_size = 16; total_size = λ b. read_le 4 b 0; read = decode }

  -- `_transform` of the decoder.
  unfoldable pub transform : Bytes → Bytes → Result Error (List (Header × Plist) × Bytes)
  transform buffer chunk = accept usbmux_framing buffer chunk
