-- ===== src/Splitter/Process.antt =====
-- The state of a splitter is its buffer; what it pushes downstream is returned.
use appium_ios_remotexpc.Prelude.{
  ℕ, zero, suc, ◌+◌, ◌-◌, ◌*◌, ◌^◌, Bool, false, ◌&&◌, not, Option, none, some, List, [], ◌∷◌, ◌++◌,
  ltb, leb, ◌==◌, if◌then◌else◌, length, take, drop,
}
use appium_ios_remotexpc.Prelude.Result.{Result, ok, err, stuck, ◌>>=◌}
use appium_ios_remotexpc.Prelude.Bytes.{Bytes, of_le, of_be}

-- `lengthAdjustment`, a number of either sign.
pub data Adjustment : Type 0 where
  plus minus : ℕ → Adjustment

-- The options of the constructor, defaults filled in.
pub record Options : Type 0 where
  pub little_endian : Bool
  pub max_frame_length : ℕ
  pub field_offset : ℕ
  pub field_length : ℕ
  pub adjustment : Adjustment

abbrev pub default_options : Options
default_options = record {
  little_endian = false;
  max_frame_length = 100 * 1024 * 1024;
  field_offset = 0;
  field_length = 4;
  adjustment = plus 0;
}

pub data Error : Type 0 where
  unsupported_field_length : Error

-- readUInt8, readUInt16BE, ... of `size` bytes at `offset`, which the caller has checked to be
-- there.
unfoldable pub read_uint : Bool → ℕ → ℕ → Bytes → ℕ
read_uint little size offset buffer =
    let field = take size (drop offset buffer) in if little then of_le field else of_be field

-- The length prefix as configured; an 8 byte one is read as two halves.
unfoldable pub read_length : Options → Bytes → Result Error ℕ
read_length o buffer =
    let little = o.little_endian in
    let at = o.field_offset in
    let first = read_uint little 4 at buffer in
    let second = read_uint little 4 (at + 4) buffer in
    if o.field_length == 4
    then ok first
    else if o.field_length == 2
    then ok (read_uint little 2 at buffer)
    else if o.field_length == 1
    then ok (read_uint little 1 at buffer)
    else if o.field_length == 8
    then ok (if little then second * 2 ^ 32 + first else first * 2 ^ 32 + second)
    else err unsupported_field_length

-- `messageLength += lengthAdjustment`; `none` is a negative length.
unfoldable pub adjust : ℕ → Adjustment → Option ℕ
adjust n (plus k) = some (n + k)
adjust n (minus k) = if ltb n k then none else some (n - k)

-- A length below 0 or above the limit is tried once more in the other byte order, if it has 4
-- bytes; `none` means to skip a byte.
unfoldable pub other_order : Options → Bytes → Option ℕ
other_order o buffer =
    let alternate = read_uint (not o.little_endian) 4 o.field_offset buffer in
    if o.field_length == 4 && (ltb 0 alternate && leb alternate o.max_frame_length)
    then some alternate
    else none

unfoldable pub plausible_length : Options → Bytes → Option ℕ → Option ℕ
plausible_length o buffer none = other_order o buffer
plausible_length o buffer (some n) =
    if ltb o.max_frame_length n then other_order o buffer else some n

-- What a round of the loop does: end it and wait for data, drop a byte, or push a message of so
-- many bytes.
pub data Action : Type 0 where
  wait skip : Action
  emit : ℕ → Action

unfoldable pub take_action : Options → Bytes → Option ℕ → Action
take_action o buffer none = skip
take_action o buffer (some n) =
    let total = o.field_offset + o.field_length + n in
    if ltb (length buffer) total then wait else emit total

unfoldable pub next_action : Options → Bytes → Result Error Action
next_action o buffer =
    let found = read_length o buffer >>= λ n.
    ok (take_action o buffer (plausible_length o buffer (adjust n o.adjustment))) in
    if ltb (length buffer) (o.field_offset + o.field_length) then ok wait else found

-- The messages pushed, and the buffer left.
abbrev pub Output : Type 0
Output = List Bytes × Bytes

abbrev pub push_message : Bytes → Output → Output
push_message message (messages, rest) = (message ∷ messages, rest)

-- What the chosen action does, and the rounds behind it.
abbrev pub after_action : (Bytes → Result Error Output) → Bytes → Action → Result Error Output
after_action continue buffer wait = ok ([], buffer)
after_action continue buffer skip = continue (drop 1 buffer)
after_action continue buffer (emit n) =
    continue (drop n buffer) >>= λ out. ok (push_message (take n buffer) out)

-- The `while` loop. Each round that goes on takes a byte at least (`Splitter.Rounds`).
unfoldable pub process_loop : ℕ → Options → Bytes → Result Error Output
process_loop zero o buffer = stuck
process_loop (suc fuel) o buffer =
    next_action o buffer >>= after_action (process_loop fuel o) buffer

unfoldable pub process_binary_data : Options → Bytes → Result Error Output
process_binary_data o buffer = process_loop (suc (length buffer)) o buffer

-- `_transform`: the new chunk joins the buffer.
unfoldable pub transform : Options → Bytes → Bytes → Result Error Output
transform o buffer chunk = process_binary_data o (buffer ++ chunk)

-- A stream of chunks.
unfoldable pub feed : Options → Bytes → List Bytes → Result Error Output
feed o buffer [] = ok ([], buffer)
feed o buffer (chunk ∷ chunks) = do
  (messages, rest) ← transform o buffer chunk
  (more, rest') ← feed o rest chunks
  ok (messages ++ more, rest')
