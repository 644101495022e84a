-- ===== src/Transport/Drain.antt =====
-- The loop of `ingestXpcData` of src/lib/remote-xpc/remote-xpc-framed-transport.ts, without its fuel.
use appium_ios_remotexpc.Prelude.{
  ℕ, zero, suc, ◌<◌, ◌≡◌, refl, sym, ap, ◌∙◌, Option, none, some, List, [], ◌∷◌, ◌++◌, append-nil,
  append_assoc, arith, length, drop, concat, length-drop, drop-append,
}
use appium_ios_remotexpc.Prelude.Result.{Result, ok, err, stuck}
use appium_ios_remotexpc.Prelude.Bytes.{Bytes}
use appium_ios_remotexpc.Xpc.Value.{Platform, Error}
use appium_ios_remotexpc.Xpc.Decode.{Decoded, get_xpc_message_byte_length, decode_message}
use appium_ios_remotexpc.Transport.Receive.{Body, emit, drain, ingest_xpc_data}
use appium_ios_remotexpc.Transport.Prefix.{decode_message-append}

module _ (p : Platform) where
  -- The messages found, and what is left.
  abbrev pub Found : Type 0
  Found = List (Body p) × Bytes

  -- A round of the loop, by what decoding gives; the rounds behind it are `continue`.
  abbrev pub round : (Bytes → Found) → Bytes → Result Error (Decoded p) → Found
  round continue b (ok d) = emit p d.body (continue (drop d.bytes_consumed b))
  round continue b (err e) = ([], b)
  round continue b stuck = ([], b)

  drain-suc : (f : ℕ) (b : Bytes) → drain p (suc f) b ≡ round (drain p f) b (decode_message p b)
  unfolding drain decode_message get_xpc_message_byte_length
  drain-suc f [] = refl
  drain-suc f (x ∷ b) = go (decode_message p (x ∷ b))
    where
      go :
          (r : Result Error (Decoded p))
          → elim r [
            | ok d ↦ emit p d.body (drain p f (drop d.bytes_consumed (x ∷ b)))
            | err e ↦ ([], x ∷ b)
            | stuck ↦ ([], x ∷ b)
          ]
            ≡ round (drain p f) (x ∷ b) r
      go (ok d) = refl
      go (err e) = refl
      go stuck = refl

  round-cong :
      (k m : Bytes → Found) (b : Bytes)
      → ((d : Decoded p)
          → decode_message p b ≡ ok d
          → k (drop d.bytes_consumed b) ≡ m (drop d.bytes_consumed b))
      → round k b (decode_message p b) ≡ round m b (decode_message p b)
  round-cong k m b h = go (decode_message p b) h
    where
      go :
          (r : Result Error (Decoded p))
          → ((d : Decoded p) → r ≡ ok d → k (drop d.bytes_consumed b) ≡ m (drop d.bytes_consumed b))
          → round k b r ≡ round m b r
      go (ok d) h = ap (emit p d.body) (h d refl)
      go (err e) h = refl
      go stuck h = refl

  -- What is left of a buffer with a message in front is shorter.
  shorter :
      (b : Bytes) (d : Decoded p)
      → decode_message p b ≡ ok d
      → length (drop d.bytes_consumed b) < length b
  shorter b d h =
      let found = decode_message-append p b [] d h in
      omega (arith, found.1, found.2, length-drop d.bytes_consumed b)

  -- Any fuel above the length is enough.
  drain-fuel : (f g : ℕ) (b : Bytes) → length b < f → length b < g → drain p f b ≡ drain p g b
  drain-fuel zero g b hf hg = absurd (omega arith)
  drain-fuel (suc f) zero b hf hg = absurd (omega arith)
  drain-fuel (suc f) (suc g) b hf hg =
      drain-suc f b
      ∙ round-cong (drain p f) (drain p g) b (λ d h.
        drain-fuel f g (drop d.bytes_consumed b) (omega (arith, shorter b d h))
          (omega (arith, shorter b d h)))
      ∙ sym (drain-suc g b)

  -- The loop on a whole buffer.
  abbrev pub drain_all : Bytes → Found
  drain_all b = drain p (suc (length b)) b

  pub drain_all-round : (b : Bytes) → drain_all b ≡ round drain_all b (decode_message p b)
  drain_all-round b =
      drain-suc (length b) b
      ∙ round-cong (drain p (length b)) drain_all b (λ d h.
        drain-fuel (length b) (suc (length (drop d.bytes_consumed b))) (drop d.bytes_consumed b)
          (shorter b d h) (omega arith))

  -- What comes later is found behind what was found.
  abbrev pub then_drain : Found → Bytes → Found
  then_drain (found, rest) c = (found ++ (drain_all (rest ++ c)).0, (drain_all (rest ++ c)).1)

  emit-then_drain :
      (body : Option (Body p)) (out : Found) (c : Bytes)
      → emit p body (then_drain out c) ≡ then_drain (emit p body out) c
  emit-then_drain none out c = refl
  emit-then_drain (some x) out c = refl

  -- The loop on a buffer that grew is the loop on the buffer, and then on what it left with what came.
  pub drain_all-append :
      (k : ℕ) (a c : Bytes) → length a < k → drain_all (a ++ c) ≡ then_drain (drain_all a) c
  drain_all-append zero a c l = absurd (omega arith)
  drain_all-append (suc k) a c l =
      go (decode_message p a) refl
        (λ d h. drain_all-append k (drop d.bytes_consumed a) c (omega (arith, shorter a d h)))
      ∙ ap (λ t. then_drain t c) (sym (drain_all-round a))
    where
      go :
          (r : Result Error (Decoded p))
          → decode_message p a ≡ r
          → ((d : Decoded p)
              → decode_message p a ≡ ok d
              → drain_all (drop d.bytes_consumed a ++ c)
                ≡ then_drain (drain_all (drop d.bytes_consumed a)) c)
          → drain_all (a ++ c) ≡ then_drain (round drain_all a r) c
      go (ok d) h ih =
          let found = decode_message-append p a c d h in
          drain_all-round (a ++ c)
          ∙ ap (round drain_all (a ++ c)) found.0
          ∙ ap (λ t. emit p d.body (drain_all t)) (drop-append d.bytes_consumed a c found.2)
          ∙ ap (emit p d.body) (ih d h)
          ∙ emit-then_drain d.body (drain_all (drop d.bytes_consumed a)) c
      go (err e) h ih = refl
      go stuck h ih = refl

  -- `ingestXpcData` of one chunk after the other.
  unfoldable pub ingest_all : Bytes → List Bytes → Found
  ingest_all pending [] = ([], pending)
  ingest_all pending (chunk ∷ chunks) =
      let (found, rest) = ingest_xpc_data p pending chunk in
      let (more, rest') = ingest_all rest chunks in (found ++ more, rest')

  ingest_all-then :
      (a : Bytes) (chunks : List Bytes)
      → (
        (drain_all a).0 ++ (ingest_all (drain_all a).1 chunks).0,
        (ingest_all (drain_all a).1 chunks).1,
      )
        ≡ drain_all (a ++ concat chunks)
  unfolding ingest_all ingest_xpc_data
  ingest_all-then a [] =
      ap (λ t. (t, (drain_all a).1)) (append-nil (drain_all a).0)
      ∙ ap drain_all (sym (append-nil a))
  ingest_all-then a (c ∷ cs) =
      let r = drain_all a in
      let next = drain_all (r.1 ++ c) in
      ap (λ t. (t, (ingest_all next.1 cs).1))
        (sym (append_assoc r.0 next.0 (ingest_all next.1 cs).0))
      ∙ ap (λ t. (t.0 ++ (ingest_all t.1 cs).0, (ingest_all t.1 cs).1))
          (sym (drain_all-append (suc (length a)) a c (omega arith)))
      ∙ ingest_all-then (a ++ c) cs
      ∙ ap drain_all (append_assoc a c (concat cs))

  -- The messages that are found, and what is held back, do not depend on how the bytes are cut into
  -- chunks, whatever the bytes are.
  pub ingest_all-concat : (chunks : List Bytes) → ingest_all [] chunks ≡ drain_all (concat chunks)
  unfolding drain
  ingest_all-concat chunks = ingest_all-then [] chunks
