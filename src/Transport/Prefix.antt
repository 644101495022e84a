-- ===== src/Transport/Prefix.antt =====
-- A message that `decodeMessage` finds does not depend on the bytes behind it.
use appium_ios_remotexpc.Xpc.Decode.{as_body}
use appium_ios_remotexpc.Prelude.{suc}
use appium_ios_remotexpc.Xpc.Decode.{decode_object}
use appium_ios_remotexpc.Prelude.{some}
use appium_ios_remotexpc.Xpc.Encode.{body_version}
use appium_ios_remotexpc.Xpc.Value.{invalid_object_magic}
use appium_ios_remotexpc.Prelude.Result.{◌>>=◌}
use appium_ios_remotexpc.Xpc.Encode.{object_magic}
use appium_ios_remotexpc.Xpc.Decode.{Decoded}
use appium_ios_remotexpc.Xpc.Decode.{decode_body}
use appium_ios_remotexpc.Xpc.Decode.{decode_message}
use appium_ios_remotexpc.Xpc.Value.{Value}
use appium_ios_remotexpc.Xpc.Value.{Platform}
use appium_ios_remotexpc.Prelude.{
  ℕ, ◌+◌, ◌-◌, ◌≤◌, ◌≡◌, sym, ap, ◌∙◌, ◌≢◌, inl, inr, Bool, true, ◌++◌, arith, ltb, leb, ◌==◌,
  if◌then◌else◌, le→ltb, ltb→le, le→leb, ==→eq, Bool-cases, length, take, drop, length-append,
  length-drop, take-append, drop-append,
}
use appium_ios_remotexpc.Prelude.Result.{
  Result, ok, err, ◌>>◌, guard, bind-eq-ok, guard-eq-ok, ok-injective,
}
use appium_ios_remotexpc.Prelude.Bytes.{Bytes, of_le, read_le}
use appium_ios_remotexpc.Xpc.Value.{
  Error, out_of_range, incomplete, invalid_magic, invalid_object_magic, unexpected_version,
}
use appium_ios_remotexpc.Prelude.{true, false}
use appium_ios_remotexpc.Xpc.Decode.{as_body}
use appium_ios_remotexpc.Prelude.Int.{pos}
use appium_ios_remotexpc.Xpc.Headers.{behind_if, behind}
use appium_ios_remotexpc.Xpc.Bits.{read_uint}
use appium_ios_remotexpc.Xpc.Encode.{wrapper_magic}
use appium_ios_remotexpc.Xpc.Decode.{get_xpc_message_byte_length}

leb→le : (a b : ℕ) → leb a b ≡ true → a ≤ b
leb→le a b h = ground arith

-- A number that is read is there, and more may follow.
read_uint-append :
    (size : ℕ) (x r : Bytes) (a : ℕ × Bytes)
    → read_uint size x ≡ ok a
    → (read_uint size (x ++ r) ≡ ok (a.0, a.1 ++ r)) × (length a.1 ≡ length x - size)
unfolding read_uint
read_uint-append size x r a h = elim (Bool-cases (ltb (length x) size)) [
  | inl short ↦ absurd (err_ne_ok (sym (ap result short) ∙ h))
  | inr enough ↦
      let long = ltb→le (length x) size enough in
      let e = ok-injective (sym (ap result enough) ∙ h) in
      (
        ap
              (λ t.
                if t then err out_of_range else ok (of_le (take size (x ++ r)), drop size (x ++ r)))
              (le→ltb (length (x ++ r)) size (omega (arith, length-append x r)))
            ∙ ap (λ t. ok (of_le t, drop size (x ++ r))) (take-append size x r long)
            ∙ ap (λ t. ok (of_le (take size x), t)) (drop-append size x r long)
            ∙ ap (λ c. ok (c.0, c.1 ++ r)) e,
        ap (λ c. length c.1) (sym e) ∙ length-drop size x,
      )
]
  where
    result : Bool → Result Error (ℕ × Bytes)
    result t = if t then err out_of_range else ok (of_le (take size x), drop size x)

    err_ne_ok : ◌≢◌ {A = Result Error (ℕ × Bytes)} (err out_of_range) (ok a)
    err_ne_ok q = cc

read_le-append :
    (size i : ℕ) (b r : Bytes) → i + size ≤ length b → read_le size (b ++ r) i ≡ read_le size b i
read_le-append size i b r h =
    ap (λ t. of_le (take size t)) (drop-append i b r (omega arith))
    ∙ ap of_le (take-append size (drop i b) r (omega (arith, length-drop i b)))

-- The length of a message whose bytes are there.
pub record HasLength (b : Bytes) (n : ℕ) : Type 0 where
  pub header_fits : 24 ≤ length b
  pub wrapper : read_le 4 b 0 ≡ wrapper_magic
  pub total : n ≡ 24 + read_le 8 b 8
  pub fits : n ≤ length b

pub get_xpc_message_byte_length-HasLength :
    (b : Bytes) (n : ℕ) → get_xpc_message_byte_length b ≡ ok n → HasLength b n
unfolding get_xpc_message_byte_length
get_xpc_message_byte_length-HasLength b n h =
    let first = bind-eq-ok (guard (leb 24 (length b)) incomplete) (λ _. checked) h in
    let second =
      bind-eq-ok (guard (read_le 4 b 0 == wrapper_magic) invalid_magic) (λ _. counted) first.2 in
    let third =
      bind-eq-ok (guard (leb (24 + read_le 8 b 8) (length b)) incomplete)
        (λ _. ok (24 + read_le 8 b 8)) second.2 in
    let header_there = guard-eq-ok (leb 24 (length b)) incomplete first.1 in
    let all_there = guard-eq-ok (leb (24 + read_le 8 b 8) (length b)) incomplete third.1 in
    let size = ok-injective third.2 in
    record {
      header_fits = leb→le 24 (length b) header_there;
      wrapper =
          ==→eq (read_le 4 b 0) wrapper_magic
            (guard-eq-ok (read_le 4 b 0 == wrapper_magic) invalid_magic second.1);
      total = sym size;
      fits = omega (arith, size, leb→le (24 + read_le 8 b 8) (length b) all_there);
    }
  where
    counted : Result Error ℕ
    counted = guard (leb (24 + read_le 8 b 8) (length b)) incomplete >> ok (24 + read_le 8 b 8)

    checked : Result Error ℕ
    checked = guard (read_le 4 b 0 == wrapper_magic) invalid_magic >> counted

HasLength-append :
    (b r : Bytes) (n : ℕ) → HasLength b n → get_xpc_message_byte_length (b ++ r) ≡ ok n
unfolding get_xpc_message_byte_length
HasLength-append b r n h =
    rw
      (
        le→leb 24 (length (b ++ r)) (omega (arith, h.header_fits, length-append b r)),
        read_le-append 4 0 b r (omega (arith, h.header_fits)),
        h.wrapper,
        read_le-append 8 8 b r (omega (arith, h.header_fits)),
        le→leb (24 + read_le 8 b 8) (length (b ++ r))
            (omega (arith, h.fits, h.total, length-append b r)),
      )
      (ap ok (sym h.total))

module _ (p : Platform) where
  open p use {Text, Number}

  -- What `decode_body` does behind its two numbers.
  finish : (body_len magic version : ℕ) → Bytes → Result Error (Value Text Number)
  finish body_len magic version rest =
      guard (magic == object_magic) invalid_object_magic
      >> (guard (version == body_version) unexpected_version
          >> (let payload = take (body_len - 8) rest in
              decode_object p (suc (length payload)) payload >>= λ (v, _). as_body p v))

  decode_body-append :
      (body_len : ℕ) (rest r : Bytes) (v : Value Text Number)
      → body_len ≤ length rest
      → decode_body p body_len rest ≡ ok v
      → decode_body p body_len (rest ++ r) ≡ ok v
  unfolding decode_body finish
  decode_body-append body_len rest r v l h =
      let first = bind-eq-ok (read_uint 4 rest) behind_magic h in
      let a = first.0 in
      let second = bind-eq-ok (read_uint 4 a.1) (λ b. finish body_len a.0 b.0 b.1) first.2 in
      let b = second.0 in
      let one = read_uint-append 4 rest r a first.1 in
      let two = read_uint-append 4 a.1 r b second.1 in
      ap (λ t. t >>= behind_magic) one.0
      ∙ ap (λ t. t >>= λ c. finish body_len a.0 c.0 c.1) two.0
      ∙ ap
          (λ payload.
            guard (a.0 == object_magic) invalid_object_magic
            >> (guard (b.0 == body_version) unexpected_version
                >> (decode_object p (suc (length payload)) payload >>= λ (v, _). as_body p v)))
          (take-append (body_len - 8) b.1 r (omega (arith, one.1, two.1, l)))
      ∙ second.2
    where
      behind_magic : ℕ × Bytes → Result Error (Value Text Number)
      behind_magic a = read_uint 4 a.1 >>= λ b. finish body_len a.0 b.0 b.1

  behind_if-append :
      (empty : Bool) (n flags size id : ℕ) (rest r : Bytes) (d : Decoded p)
      → size ≤ length rest
      → behind_if p empty n flags size id rest ≡ ok d
      → (behind_if p empty n flags size id (rest ++ r) ≡ ok d) × (d.bytes_consumed ≡ n)
  behind_if-append true n flags size id rest r d l h =
      (h, sym (ap (λ x. x.bytes_consumed) (ok-injective h)))
  behind_if-append false n flags size id rest r d l h =
      let parts = bind-eq-ok (decode_body p size rest) with_body h in
      (
        ap (λ t. t >>= with_body) (decode_body-append size rest r parts.0 l parts.1) ∙ parts.2,
        sym (ap (λ x. x.bytes_consumed) (ok-injective parts.2)),
      )
    where
      with_body : Value Text Number → Result Error (Decoded p)
      with_body x = ok (record { flags = flags; id = pos id; body = some x; bytes_consumed = n })

  -- A message that is found in a buffer is found in every longer one, and it lies in the buffer.
  pub decode_message-append :
      (b r : Bytes) (d : Decoded p)
      → decode_message p b ≡ ok d
      → (decode_message p (b ++ r) ≡ ok d) × (24 ≤ d.bytes_consumed) × (d.bytes_consumed ≤ length b)
  unfolding decode_message
  decode_message-append b r d h =
      let parts = bind-eq-ok (get_xpc_message_byte_length b) (λ n. whole b n) h in
      let n = parts.0 in
      let l = get_xpc_message_byte_length-HasLength b n parts.1 in
      let flags = read_le-append 4 4 b r (omega (arith, l.header_fits)) in
      let size = read_le-append 8 8 b r (omega (arith, l.header_fits)) in
      let id = read_le-append 8 16 b r (omega (arith, l.header_fits)) in
      let found =
        behind_if-append (read_le 8 b 8 == 0) n (read_le 4 b 4) (read_le 8 b 8) (read_le 8 b 16)
          (drop 24 b) r d (omega (arith, l.fits, l.total, length-drop 24 b)) parts.2 in
      (
        ap (λ t. t >>= λ m. whole (b ++ r) m) (HasLength-append b r n l)
            ∙ ap
                (λ f.
                  behind p n f (read_le 8 (b ++ r) 8) (read_le 8 (b ++ r) 16) (drop 24 (b ++ r)))
                flags
            ∙ ap (λ s. behind p n (read_le 4 b 4) s (read_le 8 (b ++ r) 16) (drop 24 (b ++ r))) size
            ∙ ap (λ i. behind p n (read_le 4 b 4) (read_le 8 b 8) i (drop 24 (b ++ r))) id
            ∙ ap (behind p n (read_le 4 b 4) (read_le 8 b 8) (read_le 8 b 16))
                (drop-append 24 b r l.header_fits)
            ∙ found.0,
        omega (arith, found.1, l.total),
        omega (arith, found.1, l.fits),
      )
    where
      whole : Bytes → ℕ → Result Error (Decoded p)
      whole c n = behind p n (read_le 4 c 4) (read_le 8 c 8) (read_le 8 c 16) (drop 24 c)
