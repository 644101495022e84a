-- ===== src/Display/HevcConfig.antt =====
-- The parameter sets and the framing of NAL units in src/services/ios/display/video/hevc.ts.
use appium_ios_remotexpc.Prelude.{
  ℕ, zero, suc, ◌+◌, ◌-◌, ◌*◌, ◌/◌, ◌%◌, ◌^◌, ◌&&◌, none, some, List, [], ◌∷◌, ◌++◌, ltb, ◌==◌,
  if◌then◌else◌, length, take, drop, get_elem?,
}
use appium_ios_remotexpc.Prelude.Result.{Result, ok, err, ◌>>=◌, ◌>>◌, guard}
use appium_ios_remotexpc.Prelude.Bytes.{Bytes, be_bytes}
use appium_ios_remotexpc.Prelude.{zero}

-- What may be thrown: a read past the end, a NAL unit of more than 65535 bytes, a short SPS.
pub data Error : Type 0 where
  past_the_end out_of_range sps_too_short : Error

-- The loop of `hevcRbsp`, behind the 2 bytes of the header.
unfoldable pub strip_emulation : Bytes → Bytes
strip_emulation [] = []
strip_emulation (x ∷ []) = x ∷ []
strip_emulation (x ∷ y ∷ []) = x ∷ y ∷ []
strip_emulation (x ∷ y ∷ z ∷ rest) =
    let behind = strip_emulation rest in
    let next = strip_emulation (y ∷ z ∷ rest) in
    if (x == 0) && ((y == 0) && (z == 3)) then x ∷ y ∷ behind else x ∷ next

-- `hevcRbsp`
unfoldable pub hevc_rbsp : Bytes → Bytes
hevc_rbsp nal = strip_emulation (drop 2 nal)

-- A bit of the stream, the highest of a byte first.
unfoldable pub bit_at : Bytes → ℕ → Result Error ℕ
bit_at bytes position = elim (get_elem? bytes (position / 8)) [
  | none ↦ err past_the_end
  | some byte ↦ ok (byte / 2 ^ (7 - position % 8) % 2)
]

-- The function of `createBitReader`, with its `position`.
unfoldable pub read_bits : Bytes → (count position value : ℕ) → Result Error (ℕ × ℕ)
read_bits bytes zero position value = ok (value, position)
read_bits bytes (suc count) position value = do
  bit ← bit_at bytes position
  read_bits bytes count (suc position) (value * 2 + bit)

-- `reverse32`: `n` rounds of its loop.
unfoldable pub reverse_bits : (n reversed remaining : ℕ) → ℕ
reverse_bits zero reversed remaining = reversed
reverse_bits (suc n) reversed remaining =
    reverse_bits n (reversed * 2 + remaining % 2) (remaining / 2)

unfoldable pub reverse32 : ℕ → ℕ
reverse32 value = reverse_bits 32 0 value

-- What `hevcCodecStringFromSps` reads, before it is written as a string.
pub record SpsFields : Type 0 where
  pub profile_space : ℕ
  pub tier_flag : ℕ
  pub profile_idc : ℕ
  pub profile_compatibility_flags : ℕ
  pub constraint_indicator_flags : ℕ
  pub level_idc : ℕ

unfoldable pub sps_fields : Bytes → Result Error SpsFields
sps_fields sps_nal = do
  let rbsp = hevc_rbsp sps_nal
  (_, p0) ← read_bits rbsp 4 0 0
  (_, p1) ← read_bits rbsp 3 p0 0
  (_, p2) ← read_bits rbsp 1 p1 0
  (space, p3) ← read_bits rbsp 2 p2 0
  (tier, p4) ← read_bits rbsp 1 p3 0
  (idc, p5) ← read_bits rbsp 5 p4 0
  (compatibility, p6) ← read_bits rbsp 32 p5 0
  (constraints, p7) ← read_bits rbsp 48 p6 0
  (level, p8) ← read_bits rbsp 8 p7 0
  ok (record {
    profile_space = space;
    tier_flag = tier;
    profile_idc = idc;
    profile_compatibility_flags = compatibility;
    constraint_indicator_flags = constraints;
    level_idc = level;
  })

-- An array of one NAL unit.
unfoldable pub config_array : ℕ → Bytes → Result Error Bytes
config_array nal_type nal = do
  guard (ltb (length nal) (2 ^ 16)) out_of_range
  ok (nal_type ∷ (be_bytes 2 1 ++ (be_bytes 2 (length nal) ++ nal)))

-- The fixed part behind the level.
abbrev pub config_constants : Bytes
config_constants = 0xf0 ∷ 0 ∷ 0xfc ∷ 0xfd ∷ 0xf8 ∷ 0xf8 ∷ 0 ∷ 0 ∷ 0x0b ∷ 3 ∷ []

-- `buildHevcDecoderConfigurationRecord`
unfoldable pub build_hevc_decoder_configuration_record : (vps sps pps : Bytes) → Result Error Bytes
build_hevc_decoder_configuration_record vps sps pps = do
  let ptl = take 12 (drop 1 (hevc_rbsp sps))
  guard (length ptl == 12) sps_too_short
  first ← config_array 32 vps
  second ← config_array 33 sps
  third ← config_array 34 pps
  ok ((1 ∷ (ptl ++ config_constants)) ++ (first ++ (second ++ third)))

-- `toAnnexB`
unfoldable pub to_annex_b : List Bytes → Bytes
to_annex_b [] = []
to_annex_b (nal ∷ nals) = 0 ∷ 0 ∷ 0 ∷ 1 ∷ (nal ++ to_annex_b nals)

-- `toLengthPrefixed`; a length of more than 32 bits throws.
unfoldable pub to_length_prefixed : List Bytes → Result Error Bytes
to_length_prefixed [] = ok []
to_length_prefixed (nal ∷ nals) = do
  guard (ltb (length nal) (2 ^ 32)) out_of_range
  others ← to_length_prefixed nals
  ok (be_bytes 4 (length nal) ++ (nal ++ others))
