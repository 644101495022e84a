-- ===== src/Splitter/Frames.antt =====
-- Length-prefixed frames of 4 byte lengths, as the plist services send them.
use appium_ios_remotexpc.Splitter.Process.{Adjustment}
use appium_ios_remotexpc.Prelude.{
  ℕ, ◌+◌, ◌^◌, ◌≤◌, ◌<◌, ◌≡◌, ap, ◌∙◌, Bool, true, false, some, List, [], ◌∷◌, ◌++◌, map, arith,
  if◌then◌else◌, lt→ltb, le→ltb, length, concat, All, length-append, take-length, drop-length,
}
use appium_ios_remotexpc.Prelude.Result.{ok}
use appium_ios_remotexpc.Prelude.Bytes.{Bytes, le_bytes, be_bytes, of_le-le_bytes, of_be-be_bytes}
use appium_ios_remotexpc.Splitter.Process.{
  Options, plus, emit, wait, next_action, process_binary_data, read_length, read_uint, adjust,
  plausible_length, take_action, feed,
}
use appium_ios_remotexpc.Splitter.Rounds.{process_binary_data_step}
use appium_ios_remotexpc.Splitter.Chunks.{feed-eq-process}

-- The length of the payload in the stream's byte order, then the payload.
abbrev pub frame : Bool → Bytes → Bytes
frame little payload =
    (if little then le_bytes 4 (length payload) else be_bytes 4 (length payload)) ++ payload

-- The options of a stream of such frames.
pub record IsPlain (o : Options) : Type 0 where
  pub at_start : o.field_offset ≡ 0
  pub four : o.field_length ≡ 4
  pub unadjusted : o.adjustment ≡ plus 0
  pub bounded : o.max_frame_length < 2 ^ 32

length-frame : (little : Bool) (p : Bytes) → length (frame little p) ≡ 4 + length p
length-frame true p = omega arith
length-frame false p = omega arith

read_uint-frame :
    (little : Bool) (p rest : Bytes)
    → length p < 2 ^ 32
    → read_uint little 4 0 (frame little p ++ rest) ≡ length p
unfolding read_uint
read_uint-frame true p rest h = of_le-le_bytes 4 (length p) h
read_uint-frame false p rest h = of_be-be_bytes 4 (length p) h

read_length-frame :
    (o : Options) (p rest : Bytes)
    → IsPlain o
    → length p < 2 ^ 32
    → read_length o (frame o.little_endian p ++ rest) ≡ ok (length p)
unfolding read_length
read_length-frame o p rest v h =
    rw (v.four, v.at_start) (ap ok (read_uint-frame o.little_endian p rest h))

length-frame-append :
    (little : Bool) (p rest : Bytes) → length (frame little p ++ rest) ≡ 4 + length p + length rest
length-frame-append little p rest =
    omega (arith, length-append (frame little p) rest, length-frame little p)

adjust_nothing : (n : ℕ) (a : Adjustment) → a ≡ plus 0 → adjust n a ≡ some n
unfolding adjust
adjust_nothing n a e = rw e (ap some (omega arith))

plausible_length_small :
    (o : Options) (b : Bytes) (n : ℕ)
    → n ≤ o.max_frame_length
    → plausible_length o b (some n) ≡ some n
unfolding plausible_length
plausible_length_small o b n h = rw (le→ltb o.max_frame_length n h)

take_action-frame :
    (o : Options) (b : Bytes) (n : ℕ)
    → IsPlain o
    → n ≤ o.max_frame_length
    → 4 + n ≤ length b
    → take_action o b (plausible_length o b (adjust n o.adjustment)) ≡ emit (4 + n)
unfolding take_action
take_action-frame o b n v h k =
    ap (λ m. take_action o b (plausible_length o b m)) (adjust_nothing n o.adjustment v.unadjusted)
    ∙ ap (take_action o b) (plausible_length_small o b n h)
    ∙ ground arith

next_action-nil : (o : Options) → IsPlain o → next_action o [] ≡ ok wait
unfolding next_action
next_action-nil o v = rw (lt→ltb 0 (o.field_offset + o.field_length) (omega (arith, v.four)))

next_action-frame :
    (o : Options) (p rest : Bytes)
    → IsPlain o
    → length p ≤ o.max_frame_length
    → next_action o (frame o.little_endian p ++ rest) ≡ ok (emit (4 + length p))
unfolding next_action
next_action-frame o p rest v h =
    let b = frame o.little_endian p ++ rest in
    let size = length-frame-append o.little_endian p rest in
    let short : length p < 2 ^ 32 = omega (arith, v.bounded) in
    let enough : o.field_offset + o.field_length ≤ length b = omega (arith, v.four, v.at_start) in
    rw
      (
        le→ltb (length b) (o.field_offset + o.field_length) enough,
        read_length-frame o p rest v short,
      )
      (ap ok (take_action-frame o b (length p) v h (omega arith)))

abbrev pub frames : Bool → List Bytes → List Bytes
frames little ps = map (frame little) ps

process-frames :
    (o : Options) (ps : List Bytes)
    → IsPlain o
    → All (λ p. length p ≤ o.max_frame_length) ps
    → process_binary_data o (concat (frames o.little_endian ps))
      ≡ ok (frames o.little_endian ps, [])
process-frames o [] v h = process_binary_data_step o [] ∙ rw (next_action-nil o v)
process-frames o (p ∷ ps) v h =
    let f = frame o.little_endian p in
    let rest = concat (frames o.little_endian ps) in
    let size = length-frame o.little_endian p in
    process_binary_data_step o (f ++ rest)
    ∙ rw (
      next_action-frame o p rest v h.0,
      take-length (4 + length p) f rest (omega arith),
      drop-length (4 + length p) f rest (omega arith),
      process-frames o ps v h.1,
    )

-- A stream of length-prefixed payloads, none above the limit, comes out as just these frames, in
-- order and with nothing left over, however it is cut into chunks.
pub feed-frames :
    (o : Options) (ps : List Bytes) (chunk : Bytes) (chunks : List Bytes)
    → IsPlain o
    → All (λ p. length p ≤ o.max_frame_length) ps
    → concat (chunk ∷ chunks) ≡ concat (frames o.little_endian ps)
    → feed o [] (chunk ∷ chunks) ≡ ok (frames o.little_endian ps, [])
feed-frames o ps chunk chunks v h e =
    feed-eq-process o [] chunk chunks ∙ ap (process_binary_data o) e ∙ process-frames o ps v h
