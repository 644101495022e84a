-- ===== src/Mdns/Runs.antt =====
-- A name in a packet, and a pointer to it.
use appium_ios_remotexpc.Prelude.{
  ◌+◌, ◌/◌, ◌%◌, ◌<◌, ◌≡◌, refl, ap, List, [], ◌∷◌, ◌++◌, map, arith, ◌==◌, if◌then◌else◌, length,
  concat, All,
}
use appium_ios_remotexpc.Prelude.Result.{ok}
use appium_ios_remotexpc.Prelude.Bytes.{Bytes}
use appium_ios_remotexpc.Mdns.Names.{Strings, encode_labels, encode_name, decode_name}
use appium_ios_remotexpc.Mdns.RoundTrip.{decode_name-encode_name}

-- Strings are their UTF-8, cut at the dots.
cut_from : Bytes → Bytes → List Bytes
cut_from label [] = label ∷ []
cut_from label (b ∷ bs) =
    let more = cut_from (label ++ (b ∷ [])) bs in
    let behind = cut_from [] bs in if b == 46 then label ∷ behind else more

abbrev cut : Bytes → List Bytes
cut [] = []
cut (b ∷ bs) = cut_from [] (b ∷ bs)

abbrev utf8 : Strings
utf8 = record {
  Text = Bytes;
  labels_of = cut;
  join = λ labels. concat (map (λ label. label ++ (46 ∷ [])) labels);
  to_utf8 = λ t. t;
  of_utf8 = λ b. b;
}

-- ab.c
abbrev name : Bytes
name = b'a' ∷ b'b' ∷ 46 ∷ b'c' ∷ []

abbrev encoded : Bytes
encoded = 2 ∷ b'a' ∷ b'b' ∷ 1 ∷ b'c' ∷ 0 ∷ []

encode_name-name : encode_name utf8 name ≡ ok encoded
unfolding encode_name encode_labels cut_from
encode_name-name = refl

name-labels : cut name ≡ (b'a' ∷ b'b' ∷ []) ∷ (b'c' ∷ []) ∷ []
unfolding cut_from
name-labels = refl

name-IsLabel : All (λ label. (0 < length label) × (label ≡ label)) (cut name)
unfolding cut_from
name-IsLabel = ((omega arith, refl), ((omega arith, refl), tt))

name-few : length (cut name) < 127
name-few = omega (arith, ap length name-labels)

decode_name-encode_name_example :
    (decode_name utf8 ((9 ∷ []) ++ (encoded ++ [])) 1 ≡ ok (utf8.join (cut name), 1 + 6))
    × (decode_name utf8
          ((9 ∷ []) ++ (encoded ++ ((7 ∷ []) ++ ((0xc0 + 1 / 256) ∷ 1 % 256 ∷ []))))
          (length ((9 ∷ []) ++ (encoded ++ (7 ∷ []))))
        ≡ ok (utf8.join (cut name), length ((9 ∷ []) ++ (encoded ++ (7 ∷ []))) + 2))
decode_name-encode_name_example =
    decode_name-encode_name utf8 name (9 ∷ []) encoded (7 ∷ []) [] name-IsLabel name-few
      (omega arith) encode_name-name
