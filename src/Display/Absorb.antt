-- ===== src/Display/Absorb.antt =====
-- What one packet, and the NAL units in it, do to an assembler.
use appium_ios_remotexpc.Prelude.{
  ◌+◌, ◌≡◌, refl, sym, ap, ◌∙◌, inl, inr, Bool, true, false, ◌||◌, Option, some, List, [], ◌∷◌,
  ◌++◌, append-nil, append_assoc, arith, ltb, if◌then◌else◌, Bool-cases, length,
}
use appium_ios_remotexpc.Prelude.Bytes.{Bytes}
use appium_ios_remotexpc.Display.Rtp.{RtpPacket}
use appium_ios_remotexpc.Display.Hevc.{nal_type_of, is_key_nal_type, Depacketizer, reset}
use appium_ios_remotexpc.Display.Hevc
use appium_ios_remotexpc.Display.Assembler.{
  Stats, Assembler, is_gap, note_packet, absorb_nal, absorb_all, absorb_packet,
}

-- The NAL units of a list that are long enough to have a header.
unfoldable pub usable : List Bytes → List Bytes
usable [] = []
usable (nal ∷ nals) = if ltb (length nal) 2 then usable nals else nal ∷ usable nals

unfoldable pub any_key : List Bytes → Bool
any_key [] = false
any_key (nal ∷ nals) = is_key_nal_type (nal_type_of nal) || any_key nals

pub or_assoc : (a b c : Bool) → ((a || b) || c) ≡ (a || (b || c))
or_assoc true b c = refl
or_assoc false b c = refl

pub or_false : (a : Bool) → (a || false) ≡ a
or_false true = refl
or_false false = refl

pub or_true : (a : Bool) → (a || true) ≡ true
or_true true = refl
or_true false = refl

pub if_or : (b c : Bool) → (if b then true else c) ≡ (c || b)
if_or true true = refl
if_or true false = refl
if_or false true = refl
if_or false false = refl

-- What absorbing NAL units does to an assembler.
pub record Absorbs (a : Assembler) (ns : List Bytes) (a' : Assembler) : Type 0 where
  pub nals : a'.current.nals ≡ a.current.nals ++ usable ns
  pub key : a'.current.is_key ≡ (a.current.is_key || any_key (usable ns))
  pub corrupt : a'.current.corrupt ≡ a.current.corrupt
  pub timestamp : a'.current.timestamp ≡ a.current.timestamp
  pub stats : a'.stats ≡ a.stats
  pub last : a'.last_sequence ≡ a.last_sequence
  pub depacketizer : a'.depacketizer ≡ a.depacketizer

module _ (codec : Bytes → Option Bytes) where
  absorb_nal-Absorbs : (a : Assembler) (n : Bytes) → Absorbs a (n ∷ []) (absorb_nal codec a n)
  unfolding absorb_nal usable any_key
  absorb_nal-Absorbs a n = elim (Bool-cases (ltb (length n) 2)) [
    | inl short ↦ rw short (record {
      nals = rw short (sym (append-nil a.current.nals));
      key = rw short (sym (or_false a.current.is_key));
      corrupt = refl;
      timestamp = refl;
      stats = refl;
      last = refl;
      depacketizer = refl;
    })
    | inr enough ↦ rw enough (record {
      nals = rw enough;
      key = rw enough (
          if_or (is_key_nal_type (nal_type_of n)) a.current.is_key
          ∙ ap (λ b. a.current.is_key || b) (sym (or_false (is_key_nal_type (nal_type_of n)))));
      corrupt = refl;
      timestamp = refl;
      stats = refl;
      last = refl;
      depacketizer = refl;
    })
  ]

  usable-cons : (n : Bytes) (ns : List Bytes) → usable (n ∷ ns) ≡ usable (n ∷ []) ++ usable ns
  unfolding usable
  usable-cons n ns = ground arith

  pub any_key-append : (xs ys : List Bytes) → any_key (xs ++ ys) ≡ (any_key xs || any_key ys)
  unfolding any_key
  any_key-append [] ys = refl
  any_key-append (x ∷ xs) ys =
      rw (any_key-append xs ys)
        (sym (or_assoc (is_key_nal_type (nal_type_of x)) (any_key xs) (any_key ys)))

  absorb_all-Absorbs : (ns : List Bytes) (a : Assembler) → Absorbs a ns (absorb_all codec a ns)
  unfolding absorb_all
  absorb_all-Absorbs [] a =
      unfold usable any_key in
      record {
        nals = sym (append-nil a.current.nals);
        key = sym (or_false a.current.is_key);
        corrupt = refl;
        timestamp = refl;
        stats = refl;
        last = refl;
        depacketizer = refl;
      }
  absorb_all-Absorbs (n ∷ ns) a =
      let one = absorb_nal-Absorbs a n in
      let more = absorb_all-Absorbs ns (absorb_nal codec a n) in
      record {
        nals =
            more.nals
            ∙ ap (λ t. t ++ usable ns) one.nals
            ∙ append_assoc a.current.nals (usable (n ∷ [])) (usable ns)
            ∙ ap (λ t. a.current.nals ++ t) (sym (usable-cons n ns));
        key =
            more.key
            ∙ ap (λ t. t || any_key (usable ns)) one.key
            ∙ or_assoc a.current.is_key (any_key (usable (n ∷ []))) (any_key (usable ns))
            ∙ ap (λ t. a.current.is_key || t)
                (sym (any_key-append (usable (n ∷ [])) (usable ns))
                  ∙ ap any_key (sym (usable-cons n ns)));
        corrupt = more.corrupt ∙ one.corrupt;
        timestamp = more.timestamp ∙ one.timestamp;
        stats = more.stats ∙ one.stats;
        last = more.last ∙ one.last;
        depacketizer = more.depacketizer ∙ one.depacketizer;
      }

  -- The depacketizer that a packet is fed to, and what comes of it.
  unfoldable pub fed : Assembler → RtpPacket → Depacketizer × List Bytes
  fed a p =
      Hevc.push (if is_gap a.last_sequence p.sequence then reset a.depacketizer else a.depacketizer)
        p.payload

  pub record Packet (a : Assembler) (p : RtpPacket) (a' : Assembler) : Type 0 where
    pub nals : a'.current.nals ≡ a.current.nals ++ usable (fed a p).1
    pub key : a'.current.is_key ≡ (a.current.is_key || any_key (usable (fed a p).1))
    pub corrupt :
        a'.current.corrupt ≡ (if is_gap a.last_sequence p.sequence then true else a.current.corrupt)
    pub timestamp : a'.current.timestamp ≡ p.timestamp
    pub received : a'.stats.packets_received ≡ a.stats.packets_received + 1
    pub emitted : a'.stats.access_units_emitted ≡ a.stats.access_units_emitted
    pub dropped : a'.stats.access_units_dropped ≡ a.stats.access_units_dropped
    pub last : a'.last_sequence ≡ some p.sequence
    pub depacketizer : a'.depacketizer ≡ (fed a p).0

  pub absorb_packet-Packet : (a : Assembler) (p : RtpPacket) → Packet a p (absorb_packet codec a p)
  unfolding absorb_packet note_packet fed
  absorb_packet-Packet a p =
      let (d, ns) = fed a p in
      let h = absorb_all-Absorbs ns (record (note_packet a p) { depacketizer = d }) in
      record {
        nals = h.nals;
        key = h.key;
        corrupt = h.corrupt;
        timestamp = h.timestamp;
        received = ap (λ (s : Stats). s.packets_received) h.stats;
        emitted = ap (λ (s : Stats). s.access_units_emitted) h.stats;
        dropped = ap (λ (s : Stats). s.access_units_dropped) h.stats;
        last = h.last;
        depacketizer = h.depacketizer;
      }
