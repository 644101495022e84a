-- ===== src/Xpc/Headers.antt =====
-- The header of a message of src/lib/remote-xpc/xpc-protocol.ts.
use appium_ios_remotexpc.Prelude.{
  ℕ, ◌+◌, ◌≤◌, ◌<◌, ◌≡◌, sym, ap, ◌∙◌, Bool, true, false, none, some, ◌++◌, arith, ◌==◌, le→leb,
  length,
}
use appium_ios_remotexpc.Prelude.Result.{Result, ok, ◌>>=◌, bind-eq-ok, ok-injective}
use appium_ios_remotexpc.Prelude.Bytes.{Bytes, le_bytes, range, of_le-le_bytes}
use appium_ios_remotexpc.Prelude.Int.{pos}
use appium_ios_remotexpc.Xpc.Value.{Platform, Error}
use appium_ios_remotexpc.Xpc.Bits.{write_uint, write_big_uint64_le}
use appium_ios_remotexpc.Xpc.Encode.{type_bytes, wrapper_magic, Message, encode_header}
use appium_ios_remotexpc.Xpc.Decode.{get_xpc_message_byte_length, Decoded, decode_body}
use appium_ios_remotexpc.Xpc.BitsLaws.{write_uint-eq-ok, write_big_uint64_le-eq-ok}

-- The 24 bytes in front.
abbrev pub header : (flags size id : ℕ) → Bytes
header flags size id =
    type_bytes wrapper_magic ++ (le_bytes 4 flags ++ (le_bytes 8 size ++ le_bytes 8 id))

pub get_xpc_message_byte_length-header :
    (flags size id : ℕ) (rest : Bytes)
    → size < range 8
    → size ≤ length rest
    → get_xpc_message_byte_length (header flags size id ++ rest) ≡ ok (24 + size)
unfolding get_xpc_message_byte_length
get_xpc_message_byte_length-header flags size id rest h l =
    let b = header flags size id ++ rest in
    rw (
      of_le-le_bytes 8 size h,
      le→leb 24 (length b) (omega arith),
      le→leb (24 + size) (length b) (omega arith),
    )

pub header-eq-ok :
    (p : Platform) (m : Message p.Text p.Number) (size : ℕ) (h : Bytes)
    → encode_header p m size ≡ ok h
    → (m.flags < range 4)
      × (size < range 8)
      × (n : ℕ) × (m.id ≡ pos n)
      × (n < range 8)
      × (h ≡ header m.flags size n)
header-eq-ok p m size h e =
    let flags =
      bind-eq-ok (write_uint 4 m.flags)
        (λ f. write_uint 8 size >>= λ s.
          write_big_uint64_le m.id >>= λ i. ok (type_bytes wrapper_magic ++ (f ++ (s ++ i))))
        e in
    let sizes =
      bind-eq-ok (write_uint 8 size)
        (λ s.
          write_big_uint64_le m.id >>= λ i. ok (type_bytes wrapper_magic ++ (flags.0 ++ (s ++ i))))
        flags.2 in
    let ids =
      bind-eq-ok (write_big_uint64_le m.id)
        (λ i. ok (type_bytes wrapper_magic ++ (flags.0 ++ (sizes.0 ++ i)))) sizes.2 in
    let f = write_uint-eq-ok 4 m.flags flags.0 flags.1 in
    let s = write_uint-eq-ok 8 size sizes.0 sizes.1 in
    let i = write_big_uint64_le-eq-ok m.id ids.0 ids.1 in
    (
      f.0,
      s.0,
      i.0,
      i.1,
      i.2,
      sym (ok-injective ids.2)
          ∙ ap (λ t. type_bytes wrapper_magic ++ (t ++ (sizes.0 ++ ids.0))) f.1
          ∙ ap (λ t. type_bytes wrapper_magic ++ (le_bytes 4 m.flags ++ (t ++ ids.0))) s.1
          ∙ ap (λ t. type_bytes wrapper_magic ++ (le_bytes 4 m.flags ++ (le_bytes 8 size ++ t)))
              i.3,
    )

module _ (p : Platform) where
  -- The message behind a header.
  abbrev pub behind_if : Bool → (consumed flags size id : ℕ) → Bytes → Result Error (Decoded p)
  behind_if empty consumed flags size id rest = elim empty [
    | true ↦ ok (record { flags = flags; id = pos id; body = none; bytes_consumed = consumed })
    | false ↦ do
      x ← decode_body p size rest
      ok (record { flags = flags; id = pos id; body = some x; bytes_consumed = consumed })
  ]

  abbrev pub behind : (consumed flags size id : ℕ) → Bytes → Result Error (Decoded p)
  behind consumed flags size id rest = behind_if (size == 0) consumed flags size id rest
