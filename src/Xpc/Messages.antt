-- ===== src/Xpc/Messages.antt =====
-- A message of src/lib/remote-xpc/xpc-protocol.ts that was encoded, as it is decoded.
use appium_ios_remotexpc.Prelude.{
  ℕ, suc, ◌+◌, ◌-◌, ◌≤◌, ◌<◌, ◌≡◌, refl, sym, ap, ◌∙◌, Option, none, some, [], ◌++◌, append-nil,
  arith, ne→==, length, length-append, take-length,
}
use appium_ios_remotexpc.Prelude.Result.{Result, ok, ◌>>=◌, bind-eq-ok, ok-injective}
use appium_ios_remotexpc.Prelude.Bytes.{Bytes, range, read_le, of_le-le_bytes}
use appium_ios_remotexpc.Prelude.Int.{ℤ, pos}
use appium_ios_remotexpc.Xpc.Value.{Platform, IsPlatform, Value, Fields, obj, end, Error}
use appium_ios_remotexpc.Xpc.Encode.{
  type_bytes, object_magic, body_version, Message, encode_object, encode_dictionary, encode_header,
  encode_message,
}
use appium_ios_remotexpc.Xpc.Decode.{decode_object, Decoded, decode_body, decode_message, as_body}
use appium_ios_remotexpc.Xpc.BitsLaws.{read_uint-le_bytes}
use appium_ios_remotexpc.Xpc.Seen.{seen, seen_fields, HasReadable}
use appium_ios_remotexpc.Xpc.Objects.{obj-Reads, reads_fields}
use appium_ios_remotexpc.Xpc.Headers.{
  header, get_xpc_message_byte_length-header, header-eq-ok, behind_if, behind,
}

module _ (p : Platform) (v : IsPlatform p) where
  open p use {Text, Number}

  -- A body that can be read, and what is read of it.
  abbrev pub IsReadableBody : Option (Fields Text Number) → Type 0
  IsReadableBody none = Unit {0}
  IsReadableBody (some fields) = HasReadable p fields

  abbrev pub seen_body : Option (Fields Text Number) → Option (Value Text Number)
  seen_body none = none
  seen_body (some fields) = some (obj (seen_fields p end fields))

  decode_body-encode_dictionary :
      (fields : Fields Text Number) (b rest : Bytes)
      → HasReadable p fields
      → encode_dictionary p fields ≡ ok b
      → decode_body p
          (length b + 8)
          (type_bytes object_magic ++ (type_bytes body_version ++ (b ++ rest)))
        ≡ ok (obj (seen_fields p end fields))
  unfolding encode_dictionary encode_object decode_body seen
  decode_body-encode_dictionary fields b rest h e =
      let size : length b + 8 - 8 ≡ length b = omega arith in
      rw
        (
          read_uint-le_bytes 4 object_magic (type_bytes body_version ++ (b ++ rest)) (omega arith),
          read_uint-le_bytes 4 body_version (b ++ rest) (omega arith),
          size,
          take-length (length b) b rest refl,
        )
        (ap (λ r. r >>= λ (x, _). as_body p x)
          (ap (decode_object p (suc (length b))) (sym (append-nil b))
            ∙ obj-Reads p v fields (reads_fields p v fields h) b e (suc (length b)) (omega arith)
                []))

  decode_message-header :
      (flags size id : ℕ) (rest : Bytes)
      → flags < range 4
      → size < range 8
      → id < range 8
      → size ≤ length rest
      → decode_message p (header flags size id ++ rest) ≡ behind p (24 + size) flags size id rest
  unfolding decode_message
  decode_message-header flags size id rest hf hs hi l =
      let b = header flags size id ++ rest in
      let flags_read : read_le 4 b 4 ≡ flags = of_le-le_bytes 4 flags hf in
      let size_read : read_le 8 b 8 ≡ size = of_le-le_bytes 8 size hs in
      let id_read : read_le 8 b 16 ≡ id = of_le-le_bytes 8 id hi in
      ap (λ r. r >>= λ n. behind p n (read_le 4 b 4) (read_le 8 b 8) (read_le 8 b 16) rest)
        (get_xpc_message_byte_length-header flags size id rest hs l)
      ∙ ap (λ f. behind p (24 + size) f (read_le 8 b 8) (read_le 8 b 16) rest) flags_read
      ∙ ap (λ s. behind p (24 + size) flags s (read_le 8 b 16) rest) size_read
      ∙ ap (λ n. behind p (24 + size) flags size n rest) id_read

  behind-dictionary :
      (consumed flags id : ℕ) (fields : Fields Text Number) (b rest : Bytes)
      → HasReadable p fields
      → encode_dictionary p fields ≡ ok b
      → behind p consumed flags
          (length b + 8)
          id
          (type_bytes object_magic ++ (type_bytes body_version ++ (b ++ rest)))
        ≡ ok (record {
          flags = flags;
          id = pos id;
          body = some (obj (seen_fields p end fields));
          bytes_consumed = consumed;
        })
  behind-dictionary consumed flags id fields b rest h e =
      ap
        (λ c.
          behind_if p c consumed flags (length b + 8) id
            (type_bytes object_magic ++ (type_bytes body_version ++ (b ++ rest))))
        (ne→== (length b + 8) 0 (λ k. absurd (omega arith)))
      ∙ ap (λ r. r >>= with_body) (decode_body-encode_dictionary fields b rest h e)
    where
      with_body : Value Text Number → Result Error (Decoded p)
      with_body x =
          ok (record { flags = flags; id = pos id; body = some x; bytes_consumed = consumed })

  -- On a platform that works as documented, a message whose body is missing or can be read, once
  -- encoded, is decoded in front of anything: with its flags and its id, its body as the other side
  -- sees it, objects in objects to any depth, and just its own bytes consumed.
  pub decode_message-encode_message :
      (m : Message Text Number) (b rest : Bytes)
      → IsReadableBody m.body
      → encode_message p m ≡ ok b
      → decode_message p (b ++ rest)
        ≡ ok (record {
          flags = m.flags;
          id = m.id;
          body = seen_body m.body;
          bytes_consumed = length b;
        })
  unfolding encode_message
  decode_message-encode_message m b rest h e = go m.body refl h e
    where
      decoded :
          (body : Option (Value Text Number)) {i j : ℤ} {n k : ℕ}
          → i ≡ j
          → n ≡ k
          → ◌≡◌ {A = Result Error (Decoded p)}
              (ok (record { flags = m.flags; id = i; body = body; bytes_consumed = n }))
              (ok (record { flags = m.flags; id = j; body = body; bytes_consumed = k }))
      decoded body e f = rw (e, f)

      framed : Bytes → Bytes
      framed bytes = type_bytes object_magic ++ (type_bytes body_version ++ bytes)

      joined : Bytes → Bytes → Result Error Bytes
      joined bytes head = ok (head ++ framed bytes)

      headed : Bytes → Result Error Bytes
      headed bytes = encode_header p m (length bytes + 8) >>= joined bytes

      written : Option (Fields Text Number) → Result Error Bytes
      written body = elim body [
        | none ↦ encode_header p m 0
        | some fields ↦ encode_dictionary p fields >>= headed
      ]

      go :
          (body : Option (Fields Text Number))
          → m.body ≡ body
          → IsReadableBody body
          → written body ≡ ok b
          → decode_message p (b ++ rest)
            ≡ ok (record {
              flags = m.flags;
              id = m.id;
              body = seen_body body;
              bytes_consumed = length b;
            })
      go none k r w =
          let s = header-eq-ok p m 0 b w in
          ap (λ t. decode_message p (t ++ rest)) s.5
          ∙ decode_message-header m.flags 0 s.2 rest s.0 s.1 s.4 (omega arith)
          ∙ decoded none (sym s.3) (sym (ap length s.5))
      go (some fields) k r w =
          let parts = bind-eq-ok (encode_dictionary p fields) headed w in
          let body = parts.0 in
          let size = length body + 8 in
          let head = bind-eq-ok (encode_header p m size) (joined body) parts.2 in
          let s = header-eq-ok p m size head.0 head.1 in
          let shape : b ≡ header m.flags size s.2 ++ framed body =
            sym (ok-injective head.2) ∙ ap (λ t. t ++ framed body) s.5 in
          ap (λ t. decode_message p (t ++ rest)) shape
          ∙ decode_message-header m.flags size s.2 (framed body ++ rest) s.0 s.1 s.4
              (omega (arith, length-append body rest))
          ∙ behind-dictionary (24 + size) m.flags s.2 fields body rest r parts.1
          ∙ decoded (some (obj (seen_fields p end fields))) (sym s.3)
              (omega (arith, ap length shape))
