-- ===== src/Usbmux/Stream.antt =====
-- What the usbmux decoder makes of the messages that were encoded.
use appium_ios_remotexpc.Prelude.{
  ℕ, zero, suc, ◌+◌, ◌^◌, ◌≤◌, ◌<◌, ◌≡◌, refl, sym, ap, ◌∙◌, ◌≢◌, ◌⊎◌, inl, inr, Bool, true, false,
  Option, none, some, List, [], ◌∷◌, ◌++◌, map, arith, leb, lt→ltb, le→leb, Bool-cases, length,
  take, drop, concat, All, take-append,
}
use appium_ios_remotexpc.Prelude.Result.{Result, ok, err, stuck, ◌>>=◌, ◌>>◌, guard}
use appium_ios_remotexpc.Prelude.Bytes.{Bytes, of_le, read_le, of_le-le_bytes}
use appium_ios_remotexpc.Framing.{
  IsFraming, accept, accept_all, read_buffer, accept_all-eq, read_buffer-first, read_buffer-nil,
  read_buffer-ne-stuck,
}
use appium_ios_remotexpc.Usbmux.Codec.{
  Header, Error, out_of_range, header_of, Plists, encode, decode, or_bad, message_bytes,
  usbmux_framing, transform,
}

module _ (p : Plists) where
  open p use {Plist, create_plist, parse_plist}

  or_bad-ne-stuck : (x : Option Plist) → or_bad p x ≢ stuck
  or_bad-ne-stuck none e = cc
  or_bad-ne-stuck (some x) e = cc

  decode-ne-stuck : (m : Bytes) → decode p m ≢ stuck
  unfolding decode
  decode-ne-stuck m = go (leb 16 (length m)) (parse_plist (drop 16 m))
    where
      pair : Plist → Result Error (Header × Plist)
      pair y = ok (header_of p m, y)

      go : (c : Bool) (x : Option Plist) → (guard c out_of_range >> (or_bad p x >>= pair)) ≢ stuck
      go true none e = cc
      go true (some x) e = cc
      go false x e = cc

  -- A message without a header is refused.
  decode_short : (m : Bytes) (x : Header × Plist) → decode p m ≡ ok x → 16 ≤ length m
  unfolding decode
  decode_short m x e = go (Bool-cases (leb 16 (length m)))
    where
      go : (leb 16 (length m) ≡ true) ⊎ (leb 16 (length m) ≡ false) → 16 ≤ length m
      go (inl h) = ground arith
      go (inr h) = let failed : decode p m ≡ err out_of_range = rw h in cc e

  positive :
      (b : Bytes) (x : Header × Plist) (n : ℕ)
      → read_le 4 b 0 ≡ n
      → decode p (take (read_le 4 b 0) b) ≡ ok x
      → 0 < read_le 4 b 0
  positive b x zero e d =
      absurd (omega (arith, decode_short [] x (sym (ap (λ n. decode p (take n b)) e) ∙ d)))
  positive b x (suc n) e d = omega arith

  usbmux_framing-IsFraming : IsFraming (usbmux_framing p)
  unfolding usbmux_framing
  usbmux_framing-IsFraming = record {
    total_size-append = λ a b k. ap of_le (take-append 4 a b (omega arith));
    some_bytes = λ b x e. positive b x (read_le 4 b 0) refl e;
    read-ne-stuck = decode-ne-stuck;
  }

  -- The header that stands before a payload.
  abbrev pub header_for : Plist → ℕ → Header
  header_for payload tag = record {
    size = 16 + length (create_plist payload);
    version = 1;
    type = 8;
    tag = tag;
  }

  -- What is to come of a payload with its tag: what `parsePlist` makes of the bytes that
  -- `createPlist` writes, behind the header; or the exception of `parsePlist`.
  abbrev pub decoded : Plist → ℕ → Result Error (Header × Plist)
  decoded payload tag =
      or_bad p (parse_plist (create_plist payload)) >>= λ x. ok (header_for payload tag, x)

  decode-message_bytes :
      (payload : Plist) (tag : ℕ)
      → 16 + length (create_plist payload) < 2 ^ 32
      → tag < 2 ^ 32
      → decode p (message_bytes p tag (create_plist payload)) ≡ decoded payload tag
  unfolding decode
  decode-message_bytes payload tag s t =
      rw (le→leb 16 (length bytes) (omega arith))
        (ap (λ h. or_bad p (parse_plist (create_plist payload)) >>= λ x. ok (h, x)) header)
    where
      bytes : Bytes
      bytes = message_bytes p tag (create_plist payload)

      header : header_of p bytes ≡ header_for payload tag
      header = λ i. record {
        size = of_le-le_bytes 4 (16 + length (create_plist payload)) s i;
        version = 1;
        type = 8;
        tag = of_le-le_bytes 4 tag t i;
      }

  -- A payload with its tag that fits the header.
  abbrev pub Fits : Plist × ℕ → Type 0
  Fits (payload, tag) = (16 + length (create_plist payload) < 2 ^ 32) × (tag < 2 ^ 32)

  -- `_transform` on a stream in chunks, one call to a chunk.
  abbrev pub transform_all : List Bytes → Result Error (List (Header × Plist) × Bytes)
  transform_all chunks = accept_all (usbmux_framing p) [] chunks

  -- The bytes that the encoder pushes for some messages.
  unfoldable pub encode_all : List (Plist × ℕ) → Result Error Bytes
  encode_all [] = ok []
  encode_all ((payload, tag) ∷ messages) = do
    first ← encode p payload tag
    others ← encode_all messages
    ok (first ++ others)

  abbrev stream : List (Plist × ℕ) → Bytes
  stream messages =
      concat (map (λ (payload, tag). message_bytes p tag (create_plist payload)) messages)

  -- What is to come of some messages, in order, and nothing after one that `parsePlist` refuses.
  unfoldable pub all_decoded : List (Plist × ℕ) → Result Error (List (Header × Plist))
  all_decoded [] = ok []
  all_decoded ((payload, tag) ∷ messages) = do
    first ← decoded payload tag
    others ← all_decoded messages
    ok (first ∷ others)

  -- Nothing is left over in the buffer.
  abbrev pub used_up : List (Header × Plist) → List (Header × Plist) × Bytes
  used_up xs = (xs, [])

  encode_all-stream :
      (messages : List (Plist × ℕ)) → All Fits messages → encode_all messages ≡ ok (stream messages)
  unfolding encode_all encode
  encode_all-stream [] h = refl
  encode_all-stream ((payload, tag) ∷ messages) h = rw (
    lt→ltb (16 + length (create_plist payload)) (2 ^ 32) h.0.0,
    lt→ltb tag (2 ^ 32) h.0.1,
    encode_all-stream messages h.1,
  )

  then_used_up :
      (first : Result Error (Header × Plist)) (others : Result Error (List (Header × Plist)))
      → (first >>= λ x. (others >>= λ xs. ok (used_up xs)) >>= λ (xs, rest). ok (x ∷ xs, rest))
        ≡ ((first >>= λ x. others >>= λ xs. ok (x ∷ xs)) >>= λ xs. ok (used_up xs))
  then_used_up (ok x) (ok xs) = refl
  then_used_up (ok x) (err e) = refl
  then_used_up (ok x) stuck = refl
  then_used_up (err e) others = refl
  then_used_up stuck others = refl

  read_buffer-stream :
      (messages : List (Plist × ℕ))
      → All Fits messages
      → read_buffer (usbmux_framing p) (stream messages)
        ≡ (all_decoded messages >>= λ xs. ok (used_up xs))
  unfolding usbmux_framing all_decoded
  read_buffer-stream [] h =
      read_buffer-nil (usbmux_framing p) usbmux_framing-IsFraming (omega arith)
  read_buffer-stream ((payload, tag) ∷ messages) h =
      read_buffer-first (usbmux_framing p) usbmux_framing-IsFraming
        (message_bytes p tag (create_plist payload)) (stream messages) (omega arith)
        (of_le-le_bytes 4 (16 + length (create_plist payload)) h.0.0 ∙ omega arith)
      ∙ rw (decode-message_bytes payload tag h.0.0 h.0.1, read_buffer-stream messages h.1)
          (then_used_up (decoded payload tag) (all_decoded messages))

  -- Messages that fit the header are encoded, and however their bytes are cut into chunks, the
  -- decoder gives for each of them, in order, its header and what `parsePlist` makes of the bytes
  -- that `createPlist` wrote for it, with nothing left over; or, if `parsePlist` throws on one of
  -- them, the exception. The two functions on property lists are any.
  pub transform_all-encode_all :
      (messages : List (Plist × ℕ)) (cut : Bytes → Bytes × List Bytes)
      → All Fits messages
      → ((b : Bytes) → concat ((cut b).0 ∷ (cut b).1) ≡ b)
      → (encode_all messages >>= λ b. transform_all ((cut b).0 ∷ (cut b).1))
        ≡ (all_decoded messages >>= λ xs. ok (used_up xs))
  transform_all-encode_all messages cut h e =
      ap (λ r. r >>= λ b. transform_all ((cut b).0 ∷ (cut b).1)) (encode_all-stream messages h)
      ∙ accept_all-eq (usbmux_framing p) usbmux_framing-IsFraming [] (cut b).0 (cut b).1
      ∙ ap (read_buffer (usbmux_framing p)) (e b)
      ∙ read_buffer-stream messages h
    where
      b : Bytes
      b = stream messages

  -- The loop of the decoder ends on every buffer and chunk, also where the length is 0.
  pub transform-ne-stuck : (buffer chunk : Bytes) → transform p buffer chunk ≢ stuck
  unfolding transform accept
  transform-ne-stuck buffer chunk =
      read_buffer-ne-stuck (usbmux_framing p) usbmux_framing-IsFraming (buffer ++ chunk)
