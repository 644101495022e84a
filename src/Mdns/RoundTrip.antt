-- ===== src/Mdns/RoundTrip.antt =====
-- Names of src/lib/discovery/mdns-protocol.ts that were encoded, as they are decoded.
use appium_ios_remotexpc.Prelude.{false}
use appium_ios_remotexpc.Mdns.Names.{encode_name}
use appium_ios_remotexpc.Mdns.Names.{decode_name}
use appium_ios_remotexpc.Mdns.Names.{label_too_long}
use appium_ios_remotexpc.Mdns.Names.{Error}
use appium_ios_remotexpc.Prelude.{
  ℕ, zero, suc, ◌+◌, ◌*◌, ◌/◌, ◌%◌, ◌^◌, ◌≤◌, ◌<◌, ◌≡◌, refl, sym, ap, ◌∙◌, Bool, true, List, [],
  ◌∷◌, ◌++◌, append-nil, append_assoc, arith, leb, if◌then◌else◌, le→ltb, gt→leb, ne→==, length,
  take, drop, All, length-append, take-length, drop-length,
}
use appium_ios_remotexpc.Prelude.Result.{
  Result, ok, ◌>>=◌, guard, bind-eq-ok, guard-eq-ok, ok-injective,
}
use appium_ios_remotexpc.Prelude.Bytes.{Bytes, byte_at}
use appium_ios_remotexpc.Mdns.Names.{encode_labels}
use appium_ios_remotexpc.Mdns.Names.{Strings, ended, decode_labels}

byte_at-at : (pre : Bytes) (b : ℕ) (rest : Bytes) → byte_at (pre ++ (b ∷ rest)) (length pre) ≡ b
byte_at-at [] b rest = refl
byte_at-at (x ∷ pre) b rest = byte_at-at pre b rest

byte_at-next :
    (pre : Bytes) (a b : ℕ) (rest : Bytes) → byte_at (pre ++ (a ∷ b ∷ rest)) (suc (length pre)) ≡ b
byte_at-next [] a b rest = refl
byte_at-next (x ∷ pre) a b rest = byte_at-next pre a b rest

leb→le : (a b : ℕ) → leb a b ≡ true → a ≤ b
leb→le a b h = ground arith

drop-head : (pre : Bytes) (b : ℕ) (ys : Bytes) → drop (length pre + 1) (pre ++ (b ∷ ys)) ≡ ys
drop-head pre b ys =
    ap (drop (length pre + 1)) (sym (append_assoc pre (b ∷ []) ys))
    ∙ drop-length (length pre + 1) (pre ++ (b ∷ [])) ys (sym (length-append pre (b ∷ [])))

module _ (s : Strings) where
  open s use {Text, labels_of, join, to_utf8, of_utf8}

  -- A label that is not empty and that UTF-8 keeps.
  abbrev pub IsLabel : Text → Type 0
  IsLabel label = (0 < length (to_utf8 label)) × (of_utf8 (to_utf8 label) ≡ label)

  -- A round at a label, at the end of a name and at a pointer.
  module _ (rounds : ℕ) (packet : Bytes) (offset : ℕ) (acc : List Text) (jumped : Bool)
      (end : ℕ) where
    at_label :
        (n : ℕ) (bytes : Bytes)
        → offset + 1 + n ≤ length packet
        → byte_at packet offset ≡ n
        → 0 < n
        → n ≤ 63
        → take n (drop (offset + 1) packet) ≡ bytes
        → decode_labels s (suc rounds) packet offset acc jumped end
          ≡ decode_labels s rounds packet (offset + 1 + n) (acc ++ (of_utf8 bytes ∷ [])) jumped end
    unfolding decode_labels
    at_label n bytes fits e some_bytes short slice = rw (
      gt→leb (length packet) offset (omega arith),
      e,
      ne→== n 0 (λ q. absurd (omega arith)),
      ne→== (n / 64) 3 (λ q. absurd (omega arith)),
      le→ltb 63 n short,
      le→ltb (length packet) (offset + 1 + n) fits,
      slice,
    )

    at_end :
        offset < length packet
        → byte_at packet offset ≡ 0
        → decode_labels s (suc rounds) packet offset acc jumped end
          ≡ ok (ended s acc (offset + 1) jumped end)
    unfolding decode_labels
    at_end fits e = rw (gt→leb (length packet) offset fits, e)

    at_pointer :
        (pointer : ℕ)
        → offset + 1 < length packet
        → byte_at packet offset ≡ 0xc0 + pointer / 256
        → byte_at packet (offset + 1) ≡ pointer % 256
        → pointer < 2 ^ 14
        → pointer < length packet
        → decode_labels s (suc rounds) packet offset acc jumped end
          ≡ decode_labels s rounds packet pointer acc true (if jumped then end else offset + 2)
    unfolding decode_labels
    at_pointer pointer fits high low small inside =
        let place : (0xc0 + pointer / 256) % 64 * 256 + pointer % 256 ≡ pointer = omega arith in
        let prefix : (0xc0 + pointer / 256) / 64 ≡ 3 = omega arith in
        rw (
          gt→leb (length packet) offset (omega arith),
          high,
          low,
          ne→== (0xc0 + pointer / 256) 0 (λ q. absurd (omega arith)),
          prefix,
          gt→leb (length packet) (offset + 1) fits,
          place,
          gt→leb (length packet) pointer inside,
        )

  decode_labels-encode_labels :
      (labels : List Text) (rounds : ℕ) (pre b rest : Bytes) (acc : List Text) (jumped : Bool)
      (end : ℕ)
      → All IsLabel labels
      → encode_labels s labels ≡ ok b
      → length labels < rounds
      → decode_labels s rounds (pre ++ (b ++ rest)) (length pre) acc jumped end
        ≡ ok (ended s (acc ++ labels) (length pre + length b) jumped end)
  unfolding encode_labels
  decode_labels-encode_labels labels zero pre b rest acc jumped end h e l = absurd (omega arith)
  decode_labels-encode_labels [] (suc rounds) pre b rest acc jumped end h e l =
      ap (λ t. decode_labels s (suc rounds) (pre ++ (t ++ rest)) (length pre) acc jumped end)
        (sym (ok-injective e))
      ∙ at_end rounds (pre ++ (0 ∷ rest)) (length pre) acc jumped end
          (omega (arith, length-append pre (0 ∷ rest))) (byte_at-at pre 0 rest)
      ∙ ap (λ t. ok (ended s t (length pre + 1) jumped end)) (sym (append-nil acc))
      ∙ ap (λ t. ok (ended s (acc ++ []) (length pre + length t) jumped end)) (ok-injective e)
  decode_labels-encode_labels (label ∷ labels) (suc rounds) pre b rest acc jumped end h e l =
      let first = bind-eq-ok (guard (leb n 63) label_too_long) (λ _. with_label) e in
      let second = bind-eq-ok (encode_labels s labels) joined first.2 in
      let others = second.0 in
      let shape : b ≡ n ∷ (bytes ++ others) = sym (ok-injective second.2) in
      let packet = pre ++ ((n ∷ (bytes ++ others)) ++ rest) in
      let pre' = pre ++ (n ∷ bytes) in
      let same : packet ≡ pre' ++ (others ++ rest) =
        ap (λ t. pre ++ (n ∷ t)) (append_assoc bytes others rest)
        ∙ sym (append_assoc pre (n ∷ bytes) (others ++ rest)) in
      let place : length pre + 1 + n ≡ length pre' = omega (arith, length-append pre (n ∷ bytes)) in
      let size = ap length same ∙ length-append pre' (others ++ rest) in
      let total : length pre' + length others ≡ length pre + length b =
        omega (arith, ap length shape, length-append bytes others, place) in
      let slice : take n (drop (length pre + 1) packet) ≡ bytes =
        ap (take n) (drop-head pre n ((bytes ++ others) ++ rest))
        ∙ ap (take n) (append_assoc bytes others rest)
        ∙ take-length n bytes (others ++ rest) refl in
      ap (λ t. decode_labels s (suc rounds) (pre ++ (t ++ rest)) (length pre) acc jumped end) shape
      ∙ at_label rounds packet (length pre) acc jumped end n bytes (omega (arith, size, place))
          (byte_at-at pre n ((bytes ++ others) ++ rest)) h.0.0
          (leb→le n 63 (guard-eq-ok (leb n 63) label_too_long first.1)) slice
      ∙ ap
          (λ t.
            decode_labels s rounds t (length pre + 1 + n) (acc ++ (of_utf8 bytes ∷ [])) jumped end)
          same
      ∙ ap
          (λ o.
            decode_labels s rounds (pre' ++ (others ++ rest)) o (acc ++ (of_utf8 bytes ∷ [])) jumped
              end)
          place
      ∙ decode_labels-encode_labels labels rounds pre' others rest (acc ++ (of_utf8 bytes ∷ []))
          jumped end h.1 second.1 (omega arith)
      ∙ ap (λ t. ok (ended s t (length pre' + length others) jumped end))
          (append_assoc acc (of_utf8 bytes ∷ []) labels ∙ ap (λ t. acc ++ (t ∷ labels)) h.0.1)
      ∙ ap (λ o. ok (ended s (acc ++ (label ∷ labels)) o jumped end)) total
    where
      bytes : Bytes
      bytes = to_utf8 label

      n : ℕ
      n = length bytes

      joined : Bytes → Result Error Bytes
      joined others = ok (n ∷ (bytes ++ others))

      with_label : Result Error Bytes
      with_label = encode_labels s labels >>= joined

  -- A name of fewer than 127 labels, none of them empty and all kept by UTF-8, that was encoded in a
  -- packet below offset 2^14 is decoded there, with the offset behind it; and a compression pointer to
  -- it, later in the packet, is decoded to the same name, with the offset behind the pointer.
  pub decode_name-encode_name :
      (name : Text) (pre b middle rest : Bytes)
      → All IsLabel (labels_of name)
      → length (labels_of name) < 127
      → length pre < 2 ^ 14
      → encode_name s name ≡ ok b
      → (decode_name s (pre ++ (b ++ rest)) (length pre)
          ≡ ok (join (labels_of name), length pre + length b))
        × (decode_name s
              (pre ++ (b ++ (middle ++ ((0xc0 + length pre / 256) ∷ length pre % 256 ∷ rest))))
              (length (pre ++ (b ++ middle)))
            ≡ ok (join (labels_of name), length (pre ++ (b ++ middle)) + 2))
  unfolding decode_name encode_name
  decode_name-encode_name name pre b middle rest h few near e =
      let labels = labels_of name in
      let tail = (0xc0 + length pre / 256) ∷ length pre % 256 ∷ rest in
      let packet = pre ++ (b ++ (middle ++ tail)) in
      let at = length (pre ++ (b ++ middle)) in
      let same : packet ≡ (pre ++ (b ++ middle)) ++ tail =
        ap (λ t. pre ++ t) (sym (append_assoc b middle tail))
        ∙ sym (append_assoc pre (b ++ middle) tail) in
      let size = ap length same ∙ length-append (pre ++ (b ++ middle)) tail in
      let place = length-append pre (b ++ middle) in
      let next : at + 1 ≡ suc at = omega arith in
      (
        ap finish (
            decode_labels-encode_labels labels 128 pre b rest [] false (length pre) h e
              (omega arith)),
        ap finish (
            at_pointer 127 packet at [] false at (length pre) (omega (arith, size))
              (ap (λ t. byte_at t at) same
                ∙ byte_at-at (pre ++ (b ++ middle)) (0xc0 + length pre / 256)
                    (length pre % 256 ∷ rest))
              (ap (byte_at packet) next
                ∙ ap (λ t. byte_at t (suc at)) same
                ∙ byte_at-next (pre ++ (b ++ middle)) (0xc0 + length pre / 256) (length pre % 256)
                    rest)
              near (omega (arith, size, place))
            ∙ decode_labels-encode_labels labels 127 pre b (middle ++ tail) [] true (at + 2) h e
                few),
      )
    where
      finish : Result Error (List Text × ℕ) → Result Error (Text × ℕ)
      finish r = r >>= λ (labels, end). ok (join labels, end)
