-- ===== src/Display/Rtcp.antt =====
-- `RtcpKeepalive` and `buildReceiverReport` of src/services/ios/display/transport/rtcp.ts.
use appium_ios_remotexpc.Prelude.{
  ℕ, zero, suc, ◌+◌, ◌-◌, ◌*◌, ◌/◌, ◌%◌, ◌^◌, ◌≤◌, ◌<◌, ◌≡◌, refl, ◌≢◌, inl, inr, Bool, true, false,
  ◌&&◌, Option, none, some, ◌∷◌, ◌++◌, arith, ltb, ◌==◌, if◌then◌else◌, lt→ltb, le→ltb, ==→eq,
  Bool-cases, length, replicate,
}
use appium_ios_remotexpc.Prelude.Bytes.{Bytes, be_bytes, read_be}
use appium_ios_remotexpc.Display.Rtp.{parse_rtp_packet}

-- `RtcpStreamIdentity`, less the address that reports are sent to. `x >>> 0` is `x % 2 ^ 32`.
pub record StreamIdentity : Type 0 where
  pub local_ssrc : ℕ
  pub remote_ssrc : ℕ

-- The two buffers of zeros and what is written into each.
unfoldable pub build_receiver_report : StreamIdentity → ℕ → Bytes
build_receiver_report identity extended_highest_sequence =
    let rr =
      0x81
      ∷ 0xc9
      ∷ (be_bytes 2 7
          ++ (be_bytes 4 (identity.local_ssrc % 2 ^ 32)
              ++ (be_bytes 4 (identity.remote_ssrc % 2 ^ 32)
                  ++ (replicate 4 0
                      ++ (be_bytes 4 (extended_highest_sequence % 2 ^ 32) ++ replicate 12 0))))) in
    let sdes =
      0x81
      ∷ 0xca
      ∷ (be_bytes 2 2 ++ (be_bytes 4 (identity.local_ssrc % 2 ^ 32) ++ (0x01 ∷ replicate 3 0))) in
    rr ++ sdes

-- The counters of a keepalive.
pub record Keepalive : Type 0 where
  pub extended_highest : ℕ
  pub cycles : ℕ
  pub last_sequence : Option ℕ
  pub stopped : Bool

abbrev pub started : Keepalive
started = record { extended_highest = 0; cycles = 0; last_sequence = none; stopped = false }

-- `sequence < last && last - sequence > 0x8000`; nothing before the first packet.
unfoldable pub wraps : Option ℕ → ℕ → Bool
wraps none sequence = false
wraps (some last) sequence = ltb sequence last && ltb 0x8000 (last - sequence)

-- `observeSequence`
unfoldable pub observe_sequence : Keepalive → ℕ → Keepalive
unfolding wraps
observe_sequence k sequence =
    let cycles = if wraps k.last_sequence sequence then (k.cycles + 1) % 65536 else k.cycles in
    let candidate = cycles * 2 ^ 16 % 2 ^ 32 + sequence in
    record k {
      cycles = cycles;
      last_sequence = some sequence;
      extended_highest = if ltb k.extended_highest candidate then candidate else k.extended_highest;
    }

unfoldable pub stop : Keepalive → Keepalive
stop k = if k.stopped then k else record k { stopped = true }

-- The packet of `sendReport`, unless it has been stopped.
unfoldable pub send_report : Keepalive → StreamIdentity → Option Bytes
send_report k identity =
    if k.stopped then none else some (build_receiver_report identity k.extended_highest)

-- A stopped keepalive sends nothing more, whatever it goes on to observe; stopping again changes
-- nothing.
pub stop_silences :
    (k : Keepalive) (identity : StreamIdentity) (sequence : ℕ)
    → (send_report (stop k) identity ≡ none)
      × (send_report (observe_sequence (stop k) sequence) identity ≡ none)
      × (stop (stop k) ≡ stop k)
unfolding stop send_report observe_sequence
stop_silences k identity sequence = ground arith

-- The receiver reports of two 32-bit sources: 44 bytes, which the RTP parser does not take for RTP,
-- with the sender, the source and the highest sequence at the places that RFC 3550 gives them.
pub build_receiver_report_fields :
    (identity : StreamIdentity) (highest : ℕ)
    → identity.local_ssrc < 2 ^ 32
    → identity.remote_ssrc < 2 ^ 32
    → highest < 2 ^ 32
    → let report = build_receiver_report identity highest in
      (length report ≡ 44)
      × (parse_rtp_packet report ≡ none)
      × (read_be 4 report 4 ≡ identity.local_ssrc)
      × (read_be 4 report 8 ≡ identity.remote_ssrc)
      × (read_be 4 report 16 ≡ highest)
      × (read_be 4 report 36 ≡ identity.local_ssrc)
unfolding build_receiver_report parse_rtp_packet
build_receiver_report_fields identity highest hl hr hh =
    (refl, refl, omega arith, omega arith, omega arith, omega arith)

-- A stream without a gap, from packet number `first` on: the numbers on the wire are modulo 2^16.
unfoldable pub observe_all : Keepalive → ℕ → ℕ → Keepalive
observe_all k first zero = k
observe_all k first (suc n) = observe_all (observe_sequence k (first % 65536)) (first + 1) n

-- What the counters hold once packet number `n` of a stream has been seen last.
record Tracks (n : ℕ) (k : Keepalive) : Type 0 where
  last : k.last_sequence ≡ some (n % 65536)
  wrapped : k.cycles ≡ n / 65536
  highest : k.extended_highest ≡ n

wraps_at : (n : ℕ) → n % 65536 ≡ 65535 → wraps (some (n % 65536)) ((n + 1) % 65536) ≡ true
unfolding wraps
wraps_at n e = let z : (n + 1) % 65536 ≡ 0 = omega arith in rw (e, z)

wraps_not : (n : ℕ) → n % 65536 ≢ 65535 → wraps (some (n % 65536)) ((n + 1) % 65536) ≡ false
unfolding wraps
wraps_not n e = rw (le→ltb ((n + 1) % 65536) (n % 65536) (omega arith))

next_cycles :
    (n : ℕ)
    → n + 1 < 2 ^ 32
    → (if wraps (some (n % 65536)) ((n + 1) % 65536) then (n / 65536 + 1) % 65536 else n / 65536)
      ≡ (n + 1) / 65536
next_cycles n h = elim (Bool-cases (n % 65536 == 65535)) [
  | inl e ↦ let f : n % 65536 ≡ 65535 = ==→eq (n % 65536) 65535 e in rw (wraps_at n f) (omega arith)
  | inr e ↦ let f : n % 65536 ≢ 65535 = ground arith in rw (wraps_not n f) (omega arith)
]

Tracks-observe :
    (n : ℕ) (k : Keepalive)
    → n + 1 < 2 ^ 32
    → Tracks n k
    → Tracks (n + 1) (observe_sequence k ((n + 1) % 65536))
unfolding observe_sequence
Tracks-observe n k h t = record {
  last = refl;
  wrapped = rw (t.last, t.wrapped) (next_cycles n h);
  highest =
      rw (t.last, t.wrapped, t.highest, next_cycles n h, sum) (rw (lt→ltb n (n + 1) (omega arith)));
}
  where
    sum : (n + 1) / 65536 * 2 ^ 16 % 2 ^ 32 + (n + 1) % 65536 ≡ n + 1
    sum = omega arith

Tracks-observe_all :
    (m n : ℕ) (k : Keepalive)
    → m + n < 2 ^ 32
    → Tracks m k
    → Tracks (m + n) (observe_all k (m + 1) n)
unfolding observe_all
Tracks-observe_all m zero k h t = let e : m + 0 ≡ m = omega arith in rw e t
Tracks-observe_all m (suc n) k h t =
    let e : m + suc n ≡ m + 1 + n = omega arith in
    rw e (
      Tracks-observe_all (m + 1) n (observe_sequence k ((m + 1) % 65536)) (omega arith)
        (Tracks-observe m k (omega arith) t))

Tracks-first : (m : ℕ) → m < 65536 → Tracks m (observe_sequence started (m % 65536))
unfolding observe_sequence
Tracks-first m h = record { last = refl; wrapped = omega arith; highest = ground arith }

-- The extended highest sequence number is exact on a stream with no packet missing: it counts every
-- packet from the first one's number on, through each wrap of the 16-bit number, up to 2^32.
pub observe_all_exact :
    (first n : ℕ)
    → first < 65536
    → first + n < 2 ^ 32
    → (observe_all started first (suc n)).extended_highest ≡ first + n
unfolding observe_all
observe_all_exact first n h k =
    (Tracks-observe_all first n (observe_sequence started (first % 65536)) k
      (Tracks-first first h)).highest

-- No packet lowers the number that is reported.
pub observe_sequence_mono :
    (k : Keepalive) (sequence : ℕ)
    → k.extended_highest ≤ (observe_sequence k sequence).extended_highest
unfolding observe_sequence
observe_sequence_mono k sequence = ground arith
