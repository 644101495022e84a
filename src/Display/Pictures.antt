-- ===== src/Display/Pictures.antt =====
-- Pictures come out whole or not at all.
use mathlib.Core.Path.{ap₂}
use appium_ios_remotexpc.Prelude.{
  ℕ, ◌+◌, ◌≡◌, refl, sym, ap, ◌∙◌, Bool, true, false, ◌&&◌, ◌||◌, not, Option, none, some, List, [],
  ◌∷◌, ◌++◌, append-nil, append_assoc, arith, if◌then◌else◌,
}
use appium_ios_remotexpc.Prelude.Bytes.{Bytes}
use appium_ios_remotexpc.Display.Rtp.{RtpPacket}
use appium_ios_remotexpc.Display.Hevc.{nal_type_of, is_key_nal_type, Depacketizer, reset}
use appium_ios_remotexpc.Display.Hevc
use appium_ios_remotexpc.Display.Assembler.{
  AccessUnit, Assembler, is_gap, absorb_packet, complete, push, push_all,
}
use appium_ios_remotexpc.Display.Absorb.{
  usable, any_key, or_assoc, or_false, or_true, any_key-append, fed, Packet, absorb_packet-Packet,
}

-- The packets of one picture: the last has the marker bit, and no other.
abbrev pub IsPicture : List RtpPacket → Type 0
IsPicture [] = ⊥
IsPicture (p ∷ []) = p.marker ≡ true
IsPicture (p ∷ q ∷ ps) = (p.marker ≡ false) × IsPicture (q ∷ ps)

-- Each packet follows the one before.
unfoldable pub contiguous : Option ℕ → List RtpPacket → Bool
contiguous last [] = true
contiguous last (p ∷ ps) = not (is_gap last p.sequence) && contiguous (some p.sequence) ps

abbrev pub payloads : List RtpPacket → List Bytes
payloads [] = []
payloads (p ∷ ps) = p.payload ∷ payloads ps

abbrev pub last_timestamp : List RtpPacket → ℕ
last_timestamp [] = 0
last_timestamp (p ∷ []) = p.timestamp
last_timestamp (p ∷ q ∷ ps) = last_timestamp (q ∷ ps)

-- The access unit of some NAL units, if there are any.
abbrev pub unit_of : List Bytes → Bool → ℕ → List AccessUnit
unit_of [] key time = []
unit_of (n ∷ ns) key time = record { nals = n ∷ ns; is_key_frame = key; timestamp = time } ∷ []

usable-append : (xs ys : List Bytes) → usable (xs ++ ys) ≡ usable xs ++ usable ys
unfolding usable
usable-append [] ys = refl
usable-append (x ∷ xs) ys = ground (arith, usable-append xs ys)

abbrev outcome : Assembler × Option AccessUnit → Assembler × List AccessUnit
outcome (a, none) = (a, [])
outcome (a, some u) = (a, u ∷ [])

module _ (codec : Bytes → Option Bytes) where
  complete_intact :
      (a : Assembler)
      → a.current.corrupt ≡ false
      → (outcome (complete codec a)).1 ≡ unit_of a.current.nals a.current.is_key a.current.timestamp
  unfolding complete
  complete_intact a e = go a.current.nals refl
    where
      go :
          (ns : List Bytes)
          → a.current.nals ≡ ns
          → (outcome (complete codec a)).1 ≡ unit_of ns a.current.is_key a.current.timestamp
      go [] h = ground arith
      go (n ∷ ns) h = ground arith

  complete_corrupt :
      (a : Assembler)
      → a.current.corrupt ≡ true
      → ((outcome (complete codec a)).1 ≡ [])
        × ((complete codec a).0.stats.access_units_dropped ≡ a.stats.access_units_dropped + 1)
  unfolding complete
  complete_corrupt a e = ground arith

  one_step :
      (r : Assembler × Option AccessUnit)
      → (elim (r.1) [ none ↦ [] | some u ↦ u ∷ [] ]) ≡ (outcome r).1
  one_step (a, none) = refl
  one_step (a, some u) = refl

  push_marked :
      (a : Assembler) (p : RtpPacket)
      → p.marker ≡ true
      → push codec a p ≡ complete codec (absorb_packet codec a p)
  unfolding push
  push_marked a p e =
      let b = absorb_packet codec a p in ap (λ m. if m then complete codec b else (b, none)) e

  push_unmarked :
      (a : Assembler) (p : RtpPacket)
      → p.marker ≡ false
      → push codec a p ≡ (absorb_packet codec a p, none)
  unfolding push
  push_unmarked a p e =
      let b = absorb_packet codec a p in ap (λ m. if m then complete codec b else (b, none)) e

  push_all_last :
      (a : Assembler) (p : RtpPacket)
      → p.marker ≡ true
      → (push_all codec a (p ∷ [])).1 ≡ (outcome (complete codec (absorb_packet codec a p))).1
  unfolding push_all
  push_all_last a p e = one_step (push codec a p) ∙ ap (λ r. (outcome r).1) (push_marked a p e)

  push_all_last_state :
      (a : Assembler) (p : RtpPacket)
      → p.marker ≡ true
      → (push_all codec a (p ∷ [])).0 ≡ (complete codec (absorb_packet codec a p)).0
  unfolding push_all
  push_all_last_state a p e = ap (λ (r : Assembler × Option AccessUnit). r.0) (push_marked a p e)

  push_all_inner :
      (a : Assembler) (p : RtpPacket) (ps : List RtpPacket)
      → p.marker ≡ false
      → push_all codec a (p ∷ ps) ≡ push_all codec (absorb_packet codec a p) ps
  unfolding push_all
  push_all_inner a p ps e =
      ap
        (λ (r : Assembler × Option AccessUnit).
          let (a'', units) = push_all codec r.0 ps in
          (a'', elim (r.1) [ none ↦ units | some u ↦ u ∷ units ]))
        (push_unmarked a p e)

  fed_next :
      (a : Assembler) (p : RtpPacket)
      → is_gap a.last_sequence p.sequence ≡ false
      → fed codec a p ≡ Hevc.push a.depacketizer p.payload
  unfolding fed
  fed_next a p e = rw e

  no_gap : (g c : Bool) → (not g && c) ≡ true → (g ≡ false) × (c ≡ true)
  no_gap g c e = ground arith

  picture_nals : Assembler → List RtpPacket → List Bytes
  picture_nals a ps = usable (Hevc.push_all a.depacketizer (payloads ps)).1

  regroup :
      (a : Assembler) (p : RtpPacket) (ps : List RtpPacket) (a' : Assembler)
      → Packet codec a p a'
      → fed codec a p ≡ Hevc.push a.depacketizer p.payload
      → (time : ℕ)
      → unit_of
          (a'.current.nals ++ picture_nals a' ps)
          (a'.current.is_key || any_key (picture_nals a' ps))
          time
        ≡ unit_of
            (a.current.nals ++ picture_nals a (p ∷ ps))
            (a.current.is_key || any_key (picture_nals a (p ∷ ps)))
            time
  unfolding picture_nals Hevc.push_all
  regroup a p ps a' f e time =
      let (d, ns) = Hevc.push a.depacketizer p.payload in
      let more = (Hevc.push_all d (payloads ps)).1 in
      let dep : a'.depacketizer ≡ d =
        f.depacketizer ∙ ap (λ (r : Depacketizer × List Bytes). r.0) e in
      let got : usable (fed codec a p).1 ≡ usable ns =
        ap (λ (r : Depacketizer × List Bytes). usable r.1) e in
      let rest : usable (Hevc.push_all a'.depacketizer (payloads ps)).1 ≡ usable more =
        ap (λ x. usable (Hevc.push_all x (payloads ps)).1) dep in
      let split = usable-append ns more in
      let front : a'.current.nals ++ usable (Hevc.push_all a'.depacketizer (payloads ps)).1
          ≡ a.current.nals ++ usable (ns ++ more) =
        ap₂ ◌++◌ (f.nals ∙ ap (λ t. a.current.nals ++ t) got) rest
        ∙ append_assoc a.current.nals (usable ns) (usable more)
        ∙ ap (λ t. a.current.nals ++ t) (sym split) in
      let key : (a'.current.is_key
            || any_key (usable (Hevc.push_all a'.depacketizer (payloads ps)).1))
          ≡ (a.current.is_key || any_key (usable (ns ++ more))) =
        ap₂ ◌||◌ (f.key ∙ ap (λ t. a.current.is_key || any_key t) got) (ap any_key rest)
        ∙ or_assoc a.current.is_key (any_key (usable ns)) (any_key (usable more))
        ∙ ap (λ t. a.current.is_key || t)
            (sym (any_key-append codec (usable ns) (usable more)) ∙ ap any_key (sym split)) in
      ap₂ (λ x y. unit_of x y time) front key

  intact :
      (ps : List RtpPacket) (a : Assembler)
      → IsPicture ps
      → contiguous a.last_sequence ps ≡ true
      → a.current.corrupt ≡ false
      → (push_all codec a ps).1
        ≡ unit_of
            (a.current.nals ++ picture_nals a ps)
            (a.current.is_key || any_key (picture_nals a ps))
            (last_timestamp ps)
  unfolding contiguous picture_nals Hevc.push_all
  intact [] a m c e = absurd m
  intact (p ∷ []) a m c e =
      let f = absorb_packet-Packet codec a p in
      let g = no_gap (is_gap a.last_sequence p.sequence) true c in
      let sound : (absorb_packet codec a p).current.corrupt ≡ false = f.corrupt ∙ rw (g.0, e) in
      push_all_last a p m
      ∙ complete_intact (absorb_packet codec a p) sound
      ∙ rw (f.nals, f.key, f.timestamp, fed_next a p g.0, append-nil)
  intact (p ∷ q ∷ ps) a m c e =
      let f = absorb_packet-Packet codec a p in
      let a' = absorb_packet codec a p in
      let g = no_gap (is_gap a.last_sequence p.sequence) _ c in
      let sound : a'.current.corrupt ≡ false = f.corrupt ∙ rw (g.0, e) in
      ap (λ (r : Assembler × List AccessUnit). r.1) (push_all_inner a p (q ∷ ps) m.0)
      ∙ intact (q ∷ ps) a' m.1 (ap (λ l. contiguous l (q ∷ ps)) f.last ∙ g.1) sound
      ∙ regroup a p (q ∷ ps) a' f (fed_next a p g.0) (last_timestamp (q ∷ ps))

  gap_or :
      (k g c : Bool) → (k || not (not g && c)) ≡ true → ((if g then true else k) || not c) ≡ true
  gap_or k g c e = ground arith

  broken :
      (ps : List RtpPacket) (a : Assembler)
      → IsPicture ps
      → (a.current.corrupt || not (contiguous a.last_sequence ps)) ≡ true
      → ((push_all codec a ps).1 ≡ [])
        × ((push_all codec a ps).0.stats.access_units_dropped ≡ a.stats.access_units_dropped + 1)
  unfolding contiguous
  broken [] a m e = absurd m
  broken (p ∷ []) a m e =
      let f = absorb_packet-Packet codec a p in
      let a' = absorb_packet codec a p in
      let bad : a'.current.corrupt ≡ true =
        f.corrupt
        ∙ sym (or_false (if is_gap a.last_sequence p.sequence then true else a.current.corrupt))
        ∙ gap_or a.current.corrupt (is_gap a.last_sequence p.sequence) true e in
      let (none_left, counted) = complete_corrupt a' bad in
      (
        push_all_last a p m ∙ none_left,
        ap (λ (x : Assembler). x.stats.access_units_dropped) (push_all_last_state a p m)
            ∙ counted
            ∙ ap (λ n. n + 1) f.dropped,
      )
  broken (p ∷ q ∷ ps) a m e =
      let f = absorb_packet-Packet codec a p in
      let a' = absorb_packet codec a p in
      let bad : (a'.current.corrupt || not (contiguous a'.last_sequence (q ∷ ps))) ≡ true =
        ap₂ (λ k l. k || not (contiguous l (q ∷ ps))) f.corrupt f.last
        ∙ gap_or a.current.corrupt (is_gap a.last_sequence p.sequence)
            (contiguous (some p.sequence) (q ∷ ps)) e in
      let (none_left, counted) = broken (q ∷ ps) a' m.1 bad in
      let inner = push_all_inner a p (q ∷ ps) m.0 in
      (
        ap (λ (r : Assembler × List AccessUnit). r.1) inner ∙ none_left,
        ap (λ (r : Assembler × List AccessUnit). r.0.stats.access_units_dropped) inner
            ∙ counted
            ∙ ap (λ n. n + 1) f.dropped,
      )

  -- A picture whose packets all arrive in sequence, behind one that ended, comes out as one access
  -- unit: the NAL units that its payloads hold, in order, a key frame exactly if one of them is of a
  -- key type, at the time of its last packet; and as none if it holds no NAL unit.
  pub picture_intact :
      (a : Assembler) (ps : List RtpPacket)
      → IsPicture ps
      → contiguous a.last_sequence ps ≡ true
      → a.current.corrupt ≡ false
      → a.current.nals ≡ []
      → a.current.is_key ≡ false
      → let nals = usable (Hevc.push_all a.depacketizer (payloads ps)).1 in
        (push_all codec a ps).1 ≡ unit_of nals (any_key nals) (last_timestamp ps)
  unfolding picture_nals
  picture_intact a ps m c e n k =
      let nals = usable (Hevc.push_all a.depacketizer (payloads ps)).1 in
      intact ps a m c e
      ∙ ap₂ (λ x y. unit_of (x ++ nals) (y || any_key nals) (last_timestamp ps)) n k

  -- A picture with a gap before or between its packets, by their sequence numbers, is dropped: it
  -- gives no access unit at all, and the count of dropped ones grows by one.
  pub picture_broken :
      (a : Assembler) (ps : List RtpPacket)
      → IsPicture ps
      → contiguous a.last_sequence ps ≡ false
      → ((push_all codec a ps).1 ≡ [])
        × ((push_all codec a ps).0.stats.access_units_dropped ≡ a.stats.access_units_dropped + 1)
  picture_broken a ps m c = broken ps a m (rw c (or_true a.current.corrupt))
