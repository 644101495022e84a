-- ===== src/Display/HevcLaws.antt =====
-- What the depacketizer makes of NAL units that were packed as RFC 7798 has it.
use appium_ios_remotexpc.Prelude.{concat-snoc}
use appium_ios_remotexpc.Prelude.{
  ℕ, zero, suc, ◌+◌, ◌*◌, ◌/◌, ◌%◌, ◌≤◌, ◌<◌, ◌≡◌, refl, ap, ◌∙◌, ◌⊎◌, true, List, [], ◌∷◌, ◌++◌,
  append-nil, append_assoc, arith, lt→ltb, le→ltb, length, concat, All, length-append, take-length,
  drop-length,
}
use appium_ios_remotexpc.Prelude.Bytes.{Bytes, be_bytes, of_be, of_be-be_bytes}
use appium_ios_remotexpc.Display.Hevc.{
  nal_type_of, strip_trailer, Depacketizer, idle, aggregated, push_aggregation_packet,
  push_fragmentation_unit, push, push_all, reset,
}

-- An aggregation packet: a payload header of type 48, then each NAL behind its length.
abbrev pub aggregate : List Bytes → Bytes
aggregate [] = []
aggregate (nal ∷ nals) = be_bytes 2 (length nal) ++ (nal ++ aggregate nals)

aggregated-aggregate :
    (nals : List Bytes) (fuel : ℕ)
    → All (λ nal. length nal < 65536) nals
    → length (aggregate nals) ≤ fuel
    → aggregated fuel (aggregate nals) ≡ nals
unfolding aggregated
aggregated-aggregate [] fuel h f = refl
aggregated-aggregate (nal ∷ nals) zero h f = absurd (omega arith)
aggregated-aggregate (nal ∷ nals) (suc fuel) h f =
    let rest = aggregate nals in
    let size : of_be (be_bytes 2 (length nal)) ≡ length nal = of_be-be_bytes 2 (length nal) h.0 in
    rw (size, take-length (length nal) nal rest refl, drop-length (length nal) nal rest refl)
      (ap (λ t. nal ∷ t)
        (aggregated-aggregate nals fuel h.1 (omega (arith, length-append {0} nal rest))))

-- The depacketizer takes an aggregation packet apart into the NAL units that it was made of, in
-- order, and its fragment state is as before.
pub push-aggregate :
    (d : Depacketizer) (b0 b1 : ℕ) (nals : List Bytes)
    → b0 / 2 % 64 ≡ 48
    → All (λ nal. length nal < 65536) nals
    → push d (b0 ∷ b1 ∷ aggregate nals) ≡ (d, nals)
unfolding push nal_type_of push_aggregation_packet
push-aggregate d b0 b1 nals e h =
    rw (e, le→ltb (suc (suc (length (aggregate nals)))) 2 (omega arith))
      (ap (λ t. (d, t))
        (aggregated-aggregate nals (suc (suc (length (aggregate nals)))) h (omega arith)))

-- A NAL unit `h0 h1 body` in fragments: the payload header keeps the first and the last bit of `h0`
-- around type 49, and the fragment header has the start and end bits over the NAL's own type.
abbrev pub fragment : ℕ → ℕ → ℕ → Bytes → Bytes
fragment h0 h1 bits piece = (h0 / 128 * 128 + 49 * 2 + h0 % 2) ∷ h1 ∷ (bits + h0 / 2 % 64) ∷ piece

-- The fragments behind the first: the last piece has the end bit.
abbrev pub later_fragments : ℕ → ℕ → List Bytes → Bytes → List Bytes
later_fragments h0 h1 [] last = fragment h0 h1 64 last ∷ []
later_fragments h0 h1 (piece ∷ pieces) last =
    fragment h0 h1 0 piece ∷ later_fragments h0 h1 pieces last

assembling : List Bytes → Depacketizer
assembling pieces = record { fu_buffer = pieces; fu_active = true }

-- A fragment is handed to `pushFragmentationUnit`.
push-fragment :
    (d : Depacketizer) (h0 h1 bits : ℕ) (piece : Bytes)
    → h0 < 256
    → push d (fragment h0 h1 bits piece) ≡ push_fragmentation_unit d (fragment h0 h1 bits piece)
unfolding push nal_type_of
push-fragment d h0 h1 bits piece h =
    let e : (h0 / 128 * 128 + 49 * 2 + h0 % 2) / 2 % 64 ≡ 49 = omega arith in
    rw (e, le→ltb (suc (suc (suc (length piece)))) 2 (omega arith))

-- The NAL header that is rebuilt is the one that was taken apart.
rebuilt :
    (h0 bits : ℕ)
    → h0 < 256
    → bits % 64 ≡ 0
    → ((h0 / 128 * 128 + 49 * 2 + h0 % 2) / 128 * 128
          + (h0 / 128 * 128 + 49 * 2 + h0 % 2) % 2
          + (bits + h0 / 2 % 64) % 64 * 2)
        % 256
      ≡ h0
rebuilt h0 bits h e = omega arith

push_first :
    (d : Depacketizer) (h0 h1 : ℕ) (piece : Bytes)
    → h0 < 256
    → push d (fragment h0 h1 128 piece) ≡ (assembling ((h0 ∷ h1 ∷ []) ∷ piece ∷ []), [])
unfolding assembling
push_first d h0 h1 piece h =
    let size = le→ltb (suc (suc (suc (length piece)))) 3 (omega arith) in
    let start : (128 + h0 / 2 % 64) / 128 % 2 ≡ 1 = omega arith in
    let stop : (128 + h0 / 2 % 64) / 64 % 2 ≡ 0 = omega arith in
    push-fragment d h0 h1 128 piece h
    ∙ unfold push_fragmentation_unit in rw (size, start, stop, rebuilt h0 128 h refl)

push_middle :
    (pieces : List Bytes) (h0 h1 : ℕ) (piece : Bytes)
    → h0 < 256
    → push (assembling pieces) (fragment h0 h1 0 piece) ≡ (assembling (pieces ++ (piece ∷ [])), [])
unfolding assembling
push_middle pieces h0 h1 piece h =
    let size = le→ltb (suc (suc (suc (length piece)))) 3 (omega arith) in
    let start : (0 + h0 / 2 % 64) / 128 % 2 ≡ 0 = omega arith in
    let stop : (0 + h0 / 2 % 64) / 64 % 2 ≡ 0 = omega arith in
    push-fragment (assembling pieces) h0 h1 0 piece h
    ∙ unfold push_fragmentation_unit in rw (size, start, stop)

push_last :
    (pieces : List Bytes) (h0 h1 : ℕ) (piece : Bytes)
    → h0 < 256
    → 0 < length (concat pieces)
    → push (assembling pieces) (fragment h0 h1 64 piece)
      ≡ (idle, strip_trailer (concat pieces ++ piece) ∷ [])
unfolding assembling
push_last pieces h0 h1 piece h p =
    let size = le→ltb (suc (suc (suc (length piece)))) 3 (omega arith) in
    let start : (64 + h0 / 2 % 64) / 128 % 2 ≡ 0 = omega arith in
    let stop : (64 + h0 / 2 % 64) / 64 % 2 ≡ 1 = omega arith in
    let full =
      lt→ltb 0 (length (concat pieces ++ piece))
        (omega (arith, length-append {0} (concat pieces) piece)) in
    push-fragment (assembling pieces) h0 h1 64 piece h
    ∙ unfold push_fragmentation_unit in rw (size, start, stop, concat-snoc pieces piece, full)

push_later :
    (pieces later : List Bytes) (h0 h1 : ℕ) (last : Bytes)
    → h0 < 256
    → 0 < length (concat pieces)
    → push_all (assembling pieces) (later_fragments h0 h1 later last)
      ≡ (idle, strip_trailer (concat pieces ++ (concat later ++ last)) ∷ [])
unfolding push_all
push_later pieces [] h0 h1 last h p = rw (push_last pieces h0 h1 last h p)
push_later pieces (piece ∷ later) h0 h1 last h p =
    let more : 0 < length (concat (pieces ++ (piece ∷ []))) =
      rw (concat-snoc pieces piece) (omega (arith, length-append {0} (concat pieces) piece)) in
    rw
      (
        push_middle pieces h0 h1 piece h,
        push_later (pieces ++ (piece ∷ [])) later h0 h1 last h more,
        concat-snoc pieces piece,
      )
      (simp append_assoc)

-- A NAL unit that was cut into fragments of any sizes, two or more, comes out of the depacketizer
-- whole when its last fragment arrives, less the trailer of the display service if it ends in that,
-- whatever was in the depacketizer before; and nothing stays behind.
pub push_all_fragments :
    (d : Depacketizer) (h0 h1 : ℕ) (first last : Bytes) (later : List Bytes)
    → h0 < 256
    → push_all d (fragment h0 h1 128 first ∷ later_fragments h0 h1 later last)
      ≡ (idle, strip_trailer (h0 ∷ h1 ∷ (first ++ (concat later ++ last))) ∷ [])
unfolding push_all
push_all_fragments d h0 h1 first last later h = rw (
  push_first d h0 h1 first h,
  push_later ((h0 ∷ h1 ∷ []) ∷ first ∷ []) later h0 h1 last h (omega arith),
  append-nil,
)

-- After a reset, fragments without a start give nothing and leave nothing behind: no NAL unit is
-- stitched together from the two sides of a gap.
pub reset_drops :
    (d : Depacketizer) (h0 h1 bits : ℕ) (piece : Bytes)
    → h0 < 256
    → bits ≡ 0 ⊎ (bits ≡ 64)
    → push (reset d) (fragment h0 h1 bits piece) ≡ (idle, [])
reset_drops d h0 h1 bits piece h b =
    let start : (bits + h0 / 2 % 64) / 128 % 2 ≡ 0 = omega arith in
    let size = le→ltb (suc (suc (suc (length piece)))) 3 (omega arith) in
    push-fragment (reset d) h0 h1 bits piece h
    ∙ unfold push_fragmentation_unit reset in rw (size, start)
