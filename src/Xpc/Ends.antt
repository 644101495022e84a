-- ===== src/Xpc/Ends.antt =====
-- `decodeMessage` of src/lib/remote-xpc/xpc-protocol.ts ends on every buffer.
use appium_ios_remotexpc.Prelude.{
  ℕ, suc, ◌+◌, ◌-◌, ◌≢◌, Bool, true, false, none, some, arith, leb, ◌==◌, length, take, drop,
}
use appium_ios_remotexpc.Prelude.Result.{Result, ok, stuck, ◌>>=◌, guard}
use appium_ios_remotexpc.Prelude.Bytes.{Bytes, read_le}
use appium_ios_remotexpc.Xpc.Value.{
  Platform, Value, Error, incomplete, invalid_magic, invalid_object_magic, unexpected_version, null,
  undefined, bool, num, big, str, date, uuid, buf, arr, obj,
}
use appium_ios_remotexpc.Xpc.Bits.{read_uint}
use appium_ios_remotexpc.Xpc.Encode.{wrapper_magic, object_magic, body_version}
use appium_ios_remotexpc.Xpc.Decode.{
  Decoded, decode_object, get_xpc_message_byte_length, decode_body, decode_message, as_body,
}
use appium_ios_remotexpc.Prelude.Int.{pos}
use appium_ios_remotexpc.Xpc.Progress.{
  read_uint-Leaves, bind-ne-stuck, Leaves-bind-ne-stuck, decode_object-Leaves,
}

guard-ne-stuck : (b : Bool) (e : Error) → guard b e ≢ stuck
guard-ne-stuck true e = λ q. cc
guard-ne-stuck false e = λ q. cc

ok-ne-stuck : {A : Type 0} (a : A) → ◌≢◌ {A = Result Error A} (ok a) stuck
ok-ne-stuck a = λ q. cc

get_xpc_message_byte_length-ne-stuck : (buffer : Bytes) → get_xpc_message_byte_length buffer ≢ stuck
unfolding get_xpc_message_byte_length
get_xpc_message_byte_length-ne-stuck buffer =
    bind-ne-stuck (guard (leb 24 (length buffer)) incomplete) _ (guard-ne-stuck _ incomplete) λ _.
      bind-ne-stuck (guard (read_le 4 buffer 0 == wrapper_magic) invalid_magic) _
        (guard-ne-stuck _ invalid_magic)
        λ _.
          bind-ne-stuck (guard (leb (24 + read_le 8 buffer 8) (length buffer)) incomplete) _
            (guard-ne-stuck _ incomplete) λ _. ok-ne-stuck (24 + read_le 8 buffer 8)

module _ (p : Platform) where
  open p use {Text, Number}

  as_body-ne-stuck : (v : Value Text Number) → as_body p v ≢ stuck
  as_body-ne-stuck null = λ q. cc
  as_body-ne-stuck undefined = λ q. cc
  as_body-ne-stuck (bool b) = λ q. cc
  as_body-ne-stuck (num x) = λ q. cc
  as_body-ne-stuck (big z) = λ q. cc
  as_body-ne-stuck (str t) = λ q. cc
  as_body-ne-stuck (date ms) = λ q. cc
  as_body-ne-stuck (uuid b) = λ q. cc
  as_body-ne-stuck (buf b) = λ q. cc
  as_body-ne-stuck (arr xs) = λ q. cc
  as_body-ne-stuck (obj fs) = λ q. cc

  decode_body-ne-stuck : (n : ℕ) (rest : Bytes) → decode_body p n rest ≢ stuck
  unfolding decode_body
  decode_body-ne-stuck n rest =
      Leaves-bind-ne-stuck _ (read_uint 4 rest) _ (read_uint-Leaves 4 rest) λ magic r _.
        Leaves-bind-ne-stuck _ (read_uint 4 r) _ (read_uint-Leaves 4 r) λ version r' _.
          bind-ne-stuck (guard (magic == object_magic) invalid_object_magic) _
            (guard-ne-stuck _ invalid_object_magic)
            λ _.
              bind-ne-stuck (guard (version == body_version) unexpected_version) _
                (guard-ne-stuck _ unexpected_version)
                λ _.
                  let payload = take (n - 8) r' in
                  Leaves-bind-ne-stuck (length payload)
                    (decode_object p (suc (length payload)) payload) _
                    (decode_object-Leaves p (suc (length payload)) payload (omega arith))
                    λ v _ _. as_body-ne-stuck v

  -- Decoding ends, with a message or an error.
  pub decode_message-ne-stuck : (buffer : Bytes) → decode_message p buffer ≢ stuck
  unfolding decode_message
  decode_message-ne-stuck buffer =
      bind-ne-stuck (get_xpc_message_byte_length buffer) _
        (get_xpc_message_byte_length-ne-stuck buffer)
        λ consumed. by_size consumed (read_le 8 buffer 8 == 0)
    where
      by_size :
          (consumed : ℕ) (empty : Bool)
          → ◌≢◌ {A = Result Error (Decoded p)}
              (elim empty [
                | true ↦ ok (record {
                  flags = read_le 4 buffer 4;
                  id = pos (read_le 8 buffer 16);
                  body = none;
                  bytes_consumed = consumed;
                })
                | false ↦ do
                  v ← decode_body p (read_le 8 buffer 8) (drop 24 buffer)
                  ok (record {
                    flags = read_le 4 buffer 4;
                    id = pos (read_le 8 buffer 16);
                    body = some v;
                    bytes_consumed = consumed;
                  })
              ])
              stuck
      by_size consumed true = ok-ne-stuck _
      by_size consumed false =
          bind-ne-stuck (decode_body p (read_le 8 buffer 8) (drop 24 buffer)) _
            (decode_body-ne-stuck (read_le 8 buffer 8) (drop 24 buffer)) (λ v. ok-ne-stuck _)
