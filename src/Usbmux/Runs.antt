-- ===== src/Usbmux/Runs.antt =====
-- Runs of the usbmux encoder and decoder, with functions on property lists of which one is not the
-- inverse of the other: what is written is read up to its second byte, and nothing is not read.
use appium_ios_remotexpc.Prelude.{
  ℕ, ◌≡◌, refl, ap, ◌∙◌, ◌≢◌, Option, none, some, List, [], ◌∷◌, ◌++◌, append-nil, arith, take,
  drop, replicate, concat, take-append-drop,
}
use appium_ios_remotexpc.Prelude.Result.{ok, err, stuck, ◌>>=◌}
use appium_ios_remotexpc.Prelude.Bytes.{Bytes}
use appium_ios_remotexpc.Prelude.Result.{ok, err, stuck, ◌>>=◌}
use appium_ios_remotexpc.Prelude.Bytes.{Bytes}
use appium_ios_remotexpc.Usbmux.Codec.{Plists, Header, bad_plist, transform}
use appium_ios_remotexpc.Usbmux.Stream.{
  encode_all, transform_all, all_decoded, used_up, transform_all-encode_all, transform-ne-stuck,
}

abbrev two_bytes : Bytes → Option Bytes
two_bytes [] = none
two_bytes (b ∷ bs) = some (take 2 (b ∷ bs))

abbrev lossy : Plists
lossy = record { Plist = Bytes; create_plist = λ b. b; parse_plist = two_bytes }

abbrev messages : List (Bytes × ℕ)
messages = (5 ∷ 6 ∷ 7 ∷ [], 1) ∷ (8 ∷ [], 2) ∷ []

abbrev cut : Bytes → Bytes × List Bytes
cut b = (take 17 b, drop 17 b ∷ [])

cut-concat : (b : Bytes) → concat ((cut b).0 ∷ (cut b).1) ≡ b
cut-concat b = ap (λ t. take 17 b ++ t) (append-nil (drop 17 b)) ∙ take-append-drop 17 b

abbrev header : (size tag : ℕ) → Header
header size tag = record { size = size; version = 1; type = 8; tag = tag }

-- What is to come of the two messages, and of one that cannot be read.
all_decoded-messages :
    all_decoded lossy messages ≡ ok ((header 19 1, 5 ∷ 6 ∷ []) ∷ (header 17 2, 8 ∷ []) ∷ [])
unfolding all_decoded
all_decoded-messages = refl

all_decoded-refused : all_decoded lossy ((5 ∷ [], 1) ∷ ([], 2) ∷ []) ≡ err bad_plist
unfolding all_decoded
all_decoded-refused = refl

transform_all-encode_all_example :
    (encode_all lossy messages >>= λ b. transform_all lossy ((cut b).0 ∷ (cut b).1))
    ≡ (all_decoded lossy messages >>= λ xs. ok (used_up lossy xs))
transform_all-encode_all_example =
    transform_all-encode_all lossy messages cut
      ((omega arith, omega arith), ((omega arith, omega arith), tt)) cut-concat

transform-ne-stuck_example : transform lossy (0 ∷ 0 ∷ []) (replicate 20 0) ≢ stuck
transform-ne-stuck_example = transform-ne-stuck lossy (0 ∷ 0 ∷ []) (replicate 20 0)
