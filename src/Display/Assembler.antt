-- ===== src/Display/Assembler.antt =====
-- `AccessUnitAssembler` of src/services/ios/display/video/access-unit-assembler.ts. The loss reporter
-- and the log are diagnostics, and `receivedAt` is the host's clock: they are left out.
use appium_ios_remotexpc.Prelude.{
  ℕ, ◌+◌, ◌-◌, ◌%◌, Bool, true, false, not, Option, none, some, List, [], ◌∷◌, ◌++◌, ltb, ◌==◌,
  if◌then◌else◌, length,
}
use appium_ios_remotexpc.Prelude.Bytes.{Bytes}
use appium_ios_remotexpc.Display.Rtp.{RtpPacket, is_next_sequence}
use appium_ios_remotexpc.Display.Hevc.{nal_type_of, is_key_nal_type, Depacketizer, idle, reset}
use appium_ios_remotexpc.Display.Hevc

-- `VideoAccessUnit`
pub record AccessUnit : Type 0 where
  pub nals : List Bytes
  pub is_key_frame : Bool
  pub timestamp : ℕ

-- `ScreenStreamStats`
pub record Stats : Type 0 where
  pub packets_received : ℕ
  pub packets_lost : ℕ
  pub access_units_emitted : ℕ
  pub access_units_dropped : ℕ

-- The parameter sets seen so far.
pub record ParameterSets : Type 0 where
  pub vps : Option Bytes
  pub sps : Option Bytes
  pub pps : Option Bytes

-- The picture being put together: `currentNals`, `currentIsKey`, `currentTimestamp` and
-- `currentCorrupt`.
pub record Picture : Type 0 where
  pub nals : List Bytes
  pub is_key : Bool
  pub timestamp : ℕ
  pub corrupt : Bool

pub record Assembler : Type 0 where
  pub depacketizer : Depacketizer
  pub parameter_sets : ParameterSets
  pub codec_string : Option Bytes
  pub stats : Stats
  pub current : Picture
  pub last_sequence : Option ℕ

abbrev pub no_stats : Stats
no_stats = record {
  packets_received = 0;
  packets_lost = 0;
  access_units_emitted = 0;
  access_units_dropped = 0;
}

abbrev pub no_picture : Picture
no_picture = record { nals = []; is_key = false; timestamp = 0; corrupt = false }

abbrev pub new_assembler : Assembler
new_assembler = record {
  depacketizer = idle;
  parameter_sets = record { vps = none; sps = none; pps = none };
  codec_string = none;
  stats = no_stats;
  current = no_picture;
  last_sequence = none;
}

-- Whether a packet leaves a gap behind the last one.
unfoldable pub is_gap : Option ℕ → ℕ → Bool
is_gap none sequence = false
is_gap (some last) sequence = not (is_next_sequence last sequence)

-- `(packet.sequence - this.lastSequence - 1) & 0xffff`
unfoldable pub missing : Option ℕ → ℕ → ℕ
missing none sequence = 0
missing (some last) sequence = (sequence + 65536 + 65536 - last - 1) % 65536

-- The counting at the head of `push`, and what a gap does.
unfoldable pub note_packet : Assembler → RtpPacket → Assembler
unfolding is_gap missing reset
note_packet a packet =
    let gap = is_gap a.last_sequence packet.sequence in
    record a {
      depacketizer = if gap then reset a.depacketizer else a.depacketizer;
      stats = record (a.stats) {
        packets_received = a.stats.packets_received + 1;
        packets_lost =
            if gap
            then a.stats.packets_lost + missing a.last_sequence packet.sequence
            else a.stats.packets_lost;
      };
      current = record (a.current) {
        timestamp = packet.timestamp;
        corrupt = if gap then true else a.current.corrupt;
      };
      last_sequence = some packet.sequence;
    }

-- `hevcCodecStringFromSps`, which `cacheCodecString` calls, is an argument: `none` is its throwing.
module _ (codec_string_from_sps : Bytes → Option Bytes) where
  -- The old string stays when parsing fails.
  unfoldable pub cache_codec_string : Option Bytes → Bytes → Option Bytes
  cache_codec_string old sps = elim (codec_string_from_sps sps) [ none ↦ old | some s ↦ some s ]

  -- `absorbNal`
  unfoldable pub absorb_nal : Assembler → Bytes → Assembler
  unfolding cache_codec_string
  absorb_nal a nal =
      let t = nal_type_of nal in
      let sets = a.parameter_sets in
      let absorbed = record a {
        parameter_sets =
            if t == 32
            then record sets { vps = some nal }
            else if t == 33
            then record sets { sps = some nal }
            else if t == 34
            then record sets { pps = some nal }
            else sets;
        codec_string = if t == 33 then cache_codec_string a.codec_string nal else a.codec_string;
        current = record (a.current) {
          nals = a.current.nals ++ (nal ∷ []);
          is_key = if is_key_nal_type t then true else a.current.is_key;
        };
      } in
      if ltb (length nal) 2 then a else absorbed

  unfoldable pub absorb_all : Assembler → List Bytes → Assembler
  absorb_all a [] = a
  absorb_all a (nal ∷ nals) = absorb_all (absorb_nal a nal) nals

  -- `completeAccessUnit`
  unfoldable pub complete : Assembler → Assembler × Option AccessUnit
  complete a =
      let picture = a.current in
      let fresh = record picture { nals = []; is_key = false; corrupt = false } in
      let stats = a.stats in
      if picture.corrupt
      then (
        record a {
          current = fresh;
          stats = record stats { access_units_dropped = stats.access_units_dropped + 1 };
        },
        none,
      )
      else if length picture.nals == 0
      then (record a { current = fresh }, none)
      else (
        record a {
          current = fresh;
          stats = record stats { access_units_emitted = stats.access_units_emitted + 1 };
        },
        some (record {
          nals = picture.nals;
          is_key_frame = picture.is_key;
          timestamp = picture.timestamp;
        }),
      )

  -- `push` up to the marker: the packet is counted and its NAL units are absorbed.
  unfoldable pub absorb_packet : Assembler → RtpPacket → Assembler
  absorb_packet a packet =
      let noted = note_packet a packet in
      let (depacketizer, nals) = Hevc.push noted.depacketizer packet.payload in
      absorb_all (record noted { depacketizer = depacketizer }) nals

  unfoldable pub push : Assembler → RtpPacket → Assembler × Option AccessUnit
  push a packet =
      let absorbed = absorb_packet a packet in
      if packet.marker then complete absorbed else (absorbed, none)

  unfoldable pub push_all : Assembler → List RtpPacket → Assembler × List AccessUnit
  push_all a [] = (a, [])
  push_all a (packet ∷ packets) =
      let (a', unit) = push a packet in
      let (a'', units) = push_all a' packets in
      (a'', elim unit [ none ↦ units | some u ↦ u ∷ units ])
