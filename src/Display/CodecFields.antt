-- ===== src/Display/CodecFields.antt =====
-- The codec string and the decoder configuration record of src/services/ios/display/video/hevc.ts
-- are made of the same bytes of the SPS.
use appium_ios_remotexpc.Prelude.{
  ℕ, ◌+◌, ◌*◌, ◌/◌, ◌%◌, ◌≡◌, refl, sym, ap, ◌∙◌, inl, inr, ◌&&◌, [], ◌∷◌, ◌++◌, arith, ◌==◌, ==→eq,
  Bool-cases, length, take, drop, All, All-drop,
}
use appium_ios_remotexpc.Prelude.Result.{
  Result, ok, ◌>>=◌, guard, bind-eq-ok, guard-eq-ok, ok-injective,
}
use appium_ios_remotexpc.Prelude.Bytes.{Bytes, IsByte, of_be, byte_at, read_be}
use mathlib.Core.Path.{subst}
use appium_ios_remotexpc.Display.HevcConfig.{
  Error, sps_too_short, strip_emulation, hevc_rbsp, read_bits, SpsFields, sps_fields, config_array,
  config_constants, build_hevc_decoder_configuration_record,
}
use appium_ios_remotexpc.Display.BitReader.{
  read_bits-four, read_bits-three, read_bits-last, read_bits-two, read_bits-one, read_bits-five,
  read_bits-next,
}

-- A payload of 13 bytes or more, taken apart.
record Front (xs : Bytes) : Type 0 where
  b0 : ℕ
  b1 : ℕ
  b2 : ℕ
  b3 : ℕ
  b4 : ℕ
  b5 : ℕ
  b6 : ℕ
  b7 : ℕ
  b8 : ℕ
  b9 : ℕ
  b10 : ℕ
  b11 : ℕ
  b12 : ℕ
  rest : Bytes
  shape : xs ≡ b0 ∷ b1 ∷ b2 ∷ b3 ∷ b4 ∷ b5 ∷ b6 ∷ b7 ∷ b8 ∷ b9 ∷ b10 ∷ b11 ∷ b12 ∷ rest

view : (xs : Bytes) → length (take 12 (drop 1 xs)) ≡ 12 → Front xs
view [] h = absurd (omega (arith, h))
view (b0 ∷ []) h = absurd (omega (arith, h))
view (b0 ∷ b1 ∷ []) h = absurd (omega (arith, h))
view (b0 ∷ b1 ∷ b2 ∷ []) h = absurd (omega (arith, h))
view (b0 ∷ b1 ∷ b2 ∷ b3 ∷ []) h = absurd (omega (arith, h))
view (b0 ∷ b1 ∷ b2 ∷ b3 ∷ b4 ∷ []) h = absurd (omega (arith, h))
view (b0 ∷ b1 ∷ b2 ∷ b3 ∷ b4 ∷ b5 ∷ []) h = absurd (omega (arith, h))
view (b0 ∷ b1 ∷ b2 ∷ b3 ∷ b4 ∷ b5 ∷ b6 ∷ []) h = absurd (omega (arith, h))
view (b0 ∷ b1 ∷ b2 ∷ b3 ∷ b4 ∷ b5 ∷ b6 ∷ b7 ∷ []) h = absurd (omega (arith, h))
view (b0 ∷ b1 ∷ b2 ∷ b3 ∷ b4 ∷ b5 ∷ b6 ∷ b7 ∷ b8 ∷ []) h = absurd (omega (arith, h))
view (b0 ∷ b1 ∷ b2 ∷ b3 ∷ b4 ∷ b5 ∷ b6 ∷ b7 ∷ b8 ∷ b9 ∷ []) h = absurd (omega (arith, h))
view (b0 ∷ b1 ∷ b2 ∷ b3 ∷ b4 ∷ b5 ∷ b6 ∷ b7 ∷ b8 ∷ b9 ∷ b10 ∷ []) h = absurd (omega (arith, h))
view (b0 ∷ b1 ∷ b2 ∷ b3 ∷ b4 ∷ b5 ∷ b6 ∷ b7 ∷ b8 ∷ b9 ∷ b10 ∷ b11 ∷ []) h =
    absurd (omega (arith, h))
view (b0 ∷ b1 ∷ b2 ∷ b3 ∷ b4 ∷ b5 ∷ b6 ∷ b7 ∷ b8 ∷ b9 ∷ b10 ∷ b11 ∷ b12 ∷ rest) h = record {
  b0 = b0;
  b1 = b1;
  b2 = b2;
  b3 = b3;
  b4 = b4;
  b5 = b5;
  b6 = b6;
  b7 = b7;
  b8 = b8;
  b9 = b9;
  b10 = b10;
  b11 = b11;
  b12 = b12;
  rest = rest;
  shape = refl;
}

-- The fields as they stand in the first 13 bytes.
module _ (b0 b1 b2 b3 b4 b5 b6 b7 b8 b9 b10 b11 b12 : ℕ) (rest : Bytes)
    (bytes : All IsByte
      (b0 ∷ b1 ∷ b2 ∷ b3 ∷ b4 ∷ b5 ∷ b6 ∷ b7 ∷ b8 ∷ b9 ∷ b10 ∷ b11 ∷ b12 ∷ rest)) where
  payload : Bytes
  payload = b0 ∷ b1 ∷ b2 ∷ b3 ∷ b4 ∷ b5 ∷ b6 ∷ b7 ∷ b8 ∷ b9 ∷ b10 ∷ b11 ∷ b12 ∷ rest

  abbrev fields : SpsFields
  fields = record {
    profile_space = b1 / 64 % 4;
    tier_flag = b1 / 32 % 2;
    profile_idc = b1 % 32;
    profile_compatibility_flags = of_be (b2 ∷ b3 ∷ b4 ∷ b5 ∷ []);
    constraint_indicator_flags = of_be (b6 ∷ b7 ∷ b8 ∷ b9 ∷ b10 ∷ b11 ∷ []);
    level_idc = b12;
  }

  read-compatibility : read_bits payload 32 16 0 ≡ ok (of_be (b2 ∷ b3 ∷ b4 ∷ b5 ∷ []), 48)
  unfolding payload read_bits
  read-compatibility =
      read_bits-next payload 2 b2 refl 24 0 (bytes.1.1.0)
      ∙ read_bits-next payload 3 b3 refl 16 _ (bytes.1.1.1.0)
      ∙ read_bits-next payload 4 b4 refl 8 _ (bytes.1.1.1.1.0)
      ∙ read_bits-next payload 5 b5 refl 0 _ (bytes.1.1.1.1.1.0)

  read-constraints : read_bits payload 48 48 0 ≡ ok (of_be (b6 ∷ b7 ∷ b8 ∷ b9 ∷ b10 ∷ b11 ∷ []), 96)
  unfolding payload read_bits
  read-constraints =
      read_bits-next payload 6 b6 refl 40 0 (bytes.1.1.1.1.1.1.0)
      ∙ read_bits-next payload 7 b7 refl 32 _ (bytes.1.1.1.1.1.1.1.0)
      ∙ read_bits-next payload 8 b8 refl 24 _ (bytes.1.1.1.1.1.1.1.1.0)
      ∙ read_bits-next payload 9 b9 refl 16 _ (bytes.1.1.1.1.1.1.1.1.1.0)
      ∙ read_bits-next payload 10 b10 refl 8 _ (bytes.1.1.1.1.1.1.1.1.1.1.0)
      ∙ read_bits-next payload 11 b11 refl 0 _ (bytes.1.1.1.1.1.1.1.1.1.1.1.0)

  read-level : read_bits payload 8 96 0 ≡ ok (b12, 104)
  unfolding payload read_bits
  read-level =
      read_bits-next payload 12 b12 refl 0 0 (bytes.1.1.1.1.1.1.1.1.1.1.1.1.0)
      ∙ ap (λ v. ok (v, 104)) (omega arith)

  sps_fields-payload : (sps : Bytes) → hevc_rbsp sps ≡ payload → sps_fields sps ≡ ok fields
  unfolding sps_fields payload
  sps_fields-payload sps e =
      let zero_one : read_bits payload 4 0 0 ≡ ok (b0 / 16 % 16, 4) =
        read_bits-four payload 0 b0 refl in
      let zero_two : read_bits payload 3 4 0 ≡ ok (b0 / 2 % 8, 7) =
        read_bits-three payload 0 b0 refl in
      let zero_three : read_bits payload 1 7 0 ≡ ok (b0 % 2, 8) =
        read_bits-last payload 0 b0 refl in
      let space : read_bits payload 2 8 0 ≡ ok (b1 / 64 % 4, 10) =
        read_bits-two payload 1 b1 refl in
      let tier : read_bits payload 1 10 0 ≡ ok (b1 / 32 % 2, 11) =
        read_bits-one payload 1 b1 refl in
      let idc : read_bits payload 5 11 0 ≡ ok (b1 % 32, 16) = read_bits-five payload 1 b1 refl in
      rw (
        e, zero_one, zero_two, zero_three, space, tier, idc, read-compatibility, read-constraints,
        read-level,
      )

  -- The record of such a payload, and what stands in it.
  record_of : Bytes → Bytes
  record_of arrays = (1 ∷ (take 12 (drop 1 payload) ++ config_constants)) ++ arrays

  record_of-fields :
      (arrays : Bytes)
      → (byte_at (record_of arrays) 1
          ≡ fields.profile_space * 64 + fields.tier_flag * 32 + fields.profile_idc)
        × (read_be 4 (record_of arrays) 2 ≡ fields.profile_compatibility_flags)
        × (read_be 6 (record_of arrays) 6 ≡ fields.constraint_indicator_flags)
        × (byte_at (record_of arrays) 12 ≡ fields.level_idc)
  unfolding record_of payload
  record_of-fields arrays = (omega (arith, bytes.1.0), refl, refl, refl)

strip_emulation-IsByte : (xs : Bytes) → All IsByte xs → All IsByte (strip_emulation xs)
unfolding strip_emulation
strip_emulation-IsByte [] h = tt
strip_emulation-IsByte (x ∷ []) h = h
strip_emulation-IsByte (x ∷ y ∷ []) h = h
strip_emulation-IsByte (x ∷ y ∷ z ∷ rest) h =
    elim (Bool-cases ((x == 0) && ((y == 0) && (z == 3)))) [
      | inl prevented ↦ rw prevented (h.0, (h.1.0, strip_emulation-IsByte rest h.1.1.1))
      | inr other ↦ rw other (h.0, strip_emulation-IsByte (y ∷ z ∷ rest) h.1)
    ]

-- When the decoder configuration record of an SPS of bytes can be built, the fields of the codec
-- string can be read of the SPS, and they are what the record says at the same places: the profile
-- space, tier and profile in byte 1, the compatibility flags in bytes 2 to 5, the constraint flags in
-- bytes 6 to 11 and the level in byte 12.
pub sps_fields-record :
    (vps sps pps configuration : Bytes)
    → All IsByte sps
    → build_hevc_decoder_configuration_record vps sps pps ≡ ok configuration
    → (f : SpsFields) × (sps_fields sps ≡ ok f)
      × (byte_at configuration 1 ≡ f.profile_space * 64 + f.tier_flag * 32 + f.profile_idc)
      × (read_be 4 configuration 2 ≡ f.profile_compatibility_flags)
      × (read_be 6 configuration 6 ≡ f.constraint_indicator_flags)
      × (byte_at configuration 12 ≡ f.level_idc)
unfolding build_hevc_decoder_configuration_record hevc_rbsp record_of payload
sps_fields-record vps sps pps configuration h e =
    let checked = bind-eq-ok (guard (length ptl == 12) sps_too_short) (λ _. with_arrays) e in
    let first = bind-eq-ok (config_array 32 vps) after_vps checked.2 in
    let second = bind-eq-ok (config_array 33 sps) (after_sps first.0) first.2 in
    let third = bind-eq-ok (config_array 34 pps) (joined first.0 second.0) second.2 in
    let arrays = first.0 ++ (second.0 ++ third.0) in
    let fr =
      view (hevc_rbsp sps)
        (==→eq (length ptl) 12 (guard-eq-ok (length ptl == 12) sps_too_short checked.1)) in
    let bytes =
      subst (All IsByte) fr.shape (strip_emulation-IsByte (drop 2 sps) (All-drop IsByte 2 sps h)) in
    let same : configuration
        ≡ record_of fr.b0 fr.b1 fr.b2 fr.b3 fr.b4 fr.b5 fr.b6 fr.b7 fr.b8 fr.b9 fr.b10 fr.b11 fr.b12
            fr.rest bytes arrays =
      sym (ok-injective third.2)
      ∙ ap (λ r. (1 ∷ (take 12 (drop 1 r) ++ config_constants)) ++ arrays) fr.shape in
    let found =
      record_of-fields fr.b0 fr.b1 fr.b2 fr.b3 fr.b4 fr.b5 fr.b6 fr.b7 fr.b8 fr.b9 fr.b10 fr.b11
        fr.b12 fr.rest bytes arrays in
    (
      fields fr.b0 fr.b1 fr.b2 fr.b3 fr.b4 fr.b5 fr.b6 fr.b7 fr.b8 fr.b9 fr.b10 fr.b11 fr.b12
          fr.rest bytes,
      sps_fields-payload fr.b0 fr.b1 fr.b2 fr.b3 fr.b4 fr.b5 fr.b6 fr.b7 fr.b8 fr.b9 fr.b10 fr.b11
          fr.b12 fr.rest bytes sps fr.shape,
      ap (λ c. byte_at c 1) same ∙ found.0,
      ap (λ c. read_be 4 c 2) same ∙ found.1,
      ap (λ c. read_be 6 c 6) same ∙ found.2,
      ap (λ c. byte_at c 12) same ∙ found.3,
    )
  where
    ptl : Bytes
    ptl = take 12 (drop 1 (hevc_rbsp sps))

    joined : Bytes → Bytes → Bytes → Result Error Bytes
    joined first second third = ok ((1 ∷ (ptl ++ config_constants)) ++ (first ++ (second ++ third)))

    after_sps : Bytes → Bytes → Result Error Bytes
    after_sps first second = config_array 34 pps >>= joined first second

    after_vps : Bytes → Result Error Bytes
    after_vps first = config_array 33 sps >>= after_sps first

    with_arrays : Result Error Bytes
    with_arrays = config_array 32 vps >>= after_vps
