-- ===== src/Xpc/Bits.antt =====
-- `Writer`, `Reader` and the padding of src/lib/remote-xpc/xpc-protocol.ts. What is written is a list
-- of bytes; a reader is the bytes from its offset on, none once the offset is past the end.
use appium_ios_remotexpc.Prelude.{
  ℕ, suc, ◌-◌, ◌*◌, ◌/◌, ◌%◌, ◌^◌, Option, none, some, [], ◌∷◌, ltb, ◌==◌, if◌then◌else◌, length,
  take, drop, replicate,
}
use appium_ios_remotexpc.Prelude.Result.{Result, ok, err, ◌>>=◌, ◌>>◌, guard}
use appium_ios_remotexpc.Prelude.Bytes.{Bytes, le_bytes, of_le, range}
use appium_ios_remotexpc.Prelude.Int.{ℤ, pos, negsuc, to_signed, of_signed, fits_signed}
use appium_ios_remotexpc.Xpc.Value.{Error, out_of_range}

-- `writeUInt32LE` and `writeBigUInt64LE`, of 4 and 8 bytes.
unfoldable pub write_uint : ℕ → ℕ → Result Error Bytes
write_uint size v = guard (ltb v (range size)) out_of_range >> ok (le_bytes size v)

unfoldable pub read_uint : ℕ → Bytes → Result Error (ℕ × Bytes)
read_uint size rest =
    if ltb (length rest) size then err out_of_range else ok (of_le (take size rest), drop size rest)

-- `writeBigUInt64LE` of a bigint: a negative one throws.
unfoldable pub write_big_uint64_le : ℤ → Result Error Bytes
write_big_uint64_le (pos n) = write_uint 8 n
write_big_uint64_le (negsuc n) = err out_of_range

unfoldable pub write_big_int64_le : ℤ → Result Error Bytes
write_big_int64_le z =
    guard (fits_signed (2 ^ 63) z) out_of_range >> ok (le_bytes 8 (of_signed (2 ^ 63) z))

unfoldable pub read_big_int64_le : Bytes → Result Error (ℤ × Bytes)
read_big_int64_le rest = read_uint 8 rest >>= λ (n, rest'). ok (to_signed (2 ^ 63) n, rest')

-- `calcPadding`
unfoldable pub calc_padding : ℕ → ℕ
calc_padding len = (4 - len % 4) % 4

-- `writePadding(calcPadding(len))`
abbrev pub padding : ℕ → Bytes
padding len = replicate (calc_padding len) 0

-- `indexOf(0)` and what stands before it.
unfoldable pub before_null : Bytes → Option Bytes
before_null [] = none
before_null (b ∷ bs) =
    let more : Option Bytes = elim (before_null bs) [ none ↦ none | some s ↦ some (b ∷ s) ] in
    if b == 0 then some [] else more

-- `strBuf.slice(0, nullIndex)`: without a null byte the index is -1, and the last byte is cut off.
unfoldable pub terminated : Bytes → Bytes
terminated bytes = elim (before_null bytes) [ none ↦ take (length bytes - 1) bytes | some s ↦ s ]

-- The loop of `readDictionaryKey`.
unfoldable pub read_key_bytes : Bytes → Result Error (Bytes × Bytes)
read_key_bytes [] = err out_of_range
read_key_bytes (b ∷ rest) =
    let more = read_key_bytes rest >>= λ (bytes, rest'). ok (b ∷ bytes, rest') in
    if b == 0 then ok ([], rest) else more

-- The product and the truncated quotient of bigints by a number.
unfoldable pub times : ℤ → ℕ → ℤ
times (pos n) k = pos (n * k)
times (negsuc n) k = negsuc (suc n * k - 1)

unfoldable pub quotient : ℤ → ℕ → ℤ
quotient (pos n) k = pos (n / k)
quotient (negsuc n) k = let q = suc n / k in if q == 0 then pos 0 else negsuc (q - 1)
