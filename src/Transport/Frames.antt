-- ===== src/Transport/Frames.antt =====
-- What the frames of a stream do to the transport of
-- src/lib/remote-xpc/remote-xpc-framed-transport.ts.
use appium_ios_remotexpc.Prelude.{
  ℕ, ◌%◌, ◌^◌, ◌≡◌, refl, sym, ap, ◌∙◌, Bool, true, false, ◌||◌, not, List, [], ◌∷◌, ◌++◌, map,
  append_assoc, arith, ◌==◌, if◌then◌else◌, lt→ltb,
}
use appium_ios_remotexpc.Prelude.Result.{Result, ok, ◌>>=◌, bind-eq-ok, ok-injective}
use appium_ios_remotexpc.Prelude.Bytes.{Bytes, be_bytes}
use appium_ios_remotexpc.Xpc.Value.{Platform}
use appium_ios_remotexpc.Framing.{accept, accept_all}
use appium_ios_remotexpc.Http.Frames.{
  Error, window_update_frame, window_update_body, serialize, serialize_body, pack, pack_values,
}
use appium_ios_remotexpc.Http.Parser.{
  ParsedFrame, data_parsed, other, append, http_framing, build_window_update_frames,
}
use appium_ios_remotexpc.Http.ReadBack.{serialize-body}
use appium_ios_remotexpc.Transport.Receive.{
  Transport, Body, Output, wrote, message, ingest_xpc_data, handle_frames, handle_data, receive,
}
use appium_ios_remotexpc.Transport.Drain.{ingest_all}

-- Window updates can always be written.
serialize-window_update :
    (id n : ℕ) → (bytes : Bytes) × (serialize (window_update_frame id n []) ≡ ok bytes)
unfolding serialize_body pack pack_values
serialize-window_update id n =
    (_, serialize-body (window_update_frame id n []) (be_bytes 4 (n % 2 ^ 31)) written)
  where
    written : serialize_body (window_update_body n) [] ≡ ok (be_bytes 4 (n % 2 ^ 31))
    written = rw (lt→ltb (n % 2 ^ 31) (2 ^ 32) (omega arith))

build_window_update_frames-ok :
    (id n : ℕ) → (updates : List Bytes) × (build_window_update_frames id n ≡ ok updates)
unfolding build_window_update_frames
build_window_update_frames-ok id n = go (not (id % 2 == 0) || (n == 0))
  where
    frames : Result Error (List Bytes)
    frames = serialize (window_update_frame 0 n []) >>= λ first.
        serialize (window_update_frame id n []) >>= λ second. ok (first ∷ second ∷ [])

    go : (b : Bool) → (updates : List Bytes) × ((if b then ok [] else frames) ≡ ok updates)
    go true = ([], refl)
    go false =
        let first = serialize-window_update 0 n in
        let second = serialize-window_update id n in
        (first.0 ∷ second.0 ∷ [], rw (first.1, second.1))

-- The data of the data frames.
abbrev pub payloads : List ParsedFrame → List Bytes
payloads [] = []
payloads (other ∷ frames) = payloads frames
payloads (data_parsed id d n ∷ frames) = d ∷ payloads frames

payloads-append : (xs ys : List ParsedFrame) → payloads (xs ++ ys) ≡ payloads xs ++ payloads ys
payloads-append [] ys = refl
payloads-append (other ∷ xs) ys = payloads-append xs ys
payloads-append (data_parsed id d n ∷ xs) ys = ap (λ t. d ∷ t) (payloads-append xs ys)

module _ (p : Platform) where
  -- The messages that were emitted.
  abbrev pub bodies : List (Output p) → List (Body p)
  bodies [] = []
  bodies (wrote b ∷ outputs) = bodies outputs
  bodies (message body ∷ outputs) = body ∷ bodies outputs

  bodies-append : (xs ys : List (Output p)) → bodies (xs ++ ys) ≡ bodies xs ++ bodies ys
  bodies-append [] ys = refl
  bodies-append (wrote b ∷ xs) ys = bodies-append xs ys
  bodies-append (message body ∷ xs) ys = ap (λ t. body ∷ t) (bodies-append xs ys)

  bodies-wrote :
      (updates : List Bytes) (ys : List (Output p)) → bodies (map wrote updates ++ ys) ≡ bodies ys
  bodies-wrote [] ys = refl
  bodies-wrote (u ∷ updates) ys = bodies-wrote updates ys

  bodies-message :
      (found : List (Body p)) (ys : List (Output p))
      → bodies (map message found ++ ys) ≡ found ++ bodies ys
  bodies-message [] ys = refl
  bodies-message (x ∷ found) ys = ap (λ t. x ∷ t) (bodies-message found ys)

  ingest_all-append :
      (pending : Bytes) (ps qs : List Bytes)
      → ingest_all p pending (ps ++ qs) ≡ (
        (ingest_all p pending ps).0 ++ (ingest_all p (ingest_all p pending ps).1 qs).0,
        (ingest_all p (ingest_all p pending ps).1 qs).1,
      )
  unfolding ingest_all
  ingest_all-append pending [] qs = refl
  ingest_all-append pending (c ∷ ps) qs =
      let one = ingest_xpc_data p pending c in
      let ih = ingest_all-append one.1 ps qs in
      ap (λ t. (one.0 ++ t.0, t.1)) ih
      ∙ ap (λ t. (t, (ingest_all p (ingest_all p one.1 ps).1 qs).1))
          (sym (
            append_assoc one.0 (ingest_all p one.1 ps).0
              (ingest_all p (ingest_all p one.1 ps).1 qs).0))

  -- The frames are handled, and their data are taken in one after the other.
  abbrev Handled : List ParsedFrame → Bytes → Type 0
  Handled frames pending =
      (out : List (Output p) × Bytes) × (handle_frames p frames pending ≡ ok out)
      × ((bodies out.0, out.1) ≡ ingest_all p pending (payloads frames))

  handled : (frames : List ParsedFrame) (pending : Bytes) → Handled frames pending
  unfolding handle_frames ingest_all
  handled [] pending = (([], pending), refl, refl)
  handled (other ∷ frames) pending = handled frames pending
  handled (data_parsed id d n ∷ frames) pending =
      let updates = build_window_update_frames-ok id n in
      let one = ingest_xpc_data p pending d in
      let later = handled frames one.1 in
      (
        (map wrote updates.0 ++ (map message one.0 ++ later.0.0), later.0.1),
        rw (updates.1, later.1),
        ap (λ t. (t, later.0.1))
              (bodies-wrote updates.0 (map message one.0 ++ later.0.0)
                ∙ bodies-message one.0 later.0.0)
            ∙ ap (λ t. (one.0 ++ t.0, t.1)) later.2,
      )

  -- What the transport emits for chunks whose frames are `frames`.
  pub record Received (t : Transport) (chunks : List Bytes) (frames : List ParsedFrame)
      (buffer : Bytes) : Type 0 where
    pub outputs : List (Output p)
    pub after : Transport
    pub received : receive p t chunks ≡ ok (outputs, after)
    pub frame_buffer : after.frame_buffer ≡ buffer
    pub ingested :
        (bodies outputs, after.pending_xpc_data) ≡ ingest_all p t.pending_xpc_data (payloads frames)

  pub receive-Received :
      (t : Transport) (chunks : List Bytes) (frames : List ParsedFrame) (buffer : Bytes)
      → t.has_socket ≡ true
      → accept_all http_framing t.frame_buffer chunks ≡ ok (frames, buffer)
      → Received t chunks frames buffer
  unfolding receive handle_data accept_all append ingest_all
  receive-Received t [] frames buffer s e =
      let q = ok-injective e in
      record {
        outputs = [];
        after = t;
        received = refl;
        frame_buffer = ap (λ x. x.1) q;
        ingested = ap (λ x. ingest_all p t.pending_xpc_data (payloads x.0)) q;
      }
  receive-Received t (chunk ∷ chunks) frames buffer s e =
      let first = bind-eq-ok (accept http_framing t.frame_buffer chunk) later e in
      let x = first.0 in
      let second = bind-eq-ok (accept_all http_framing x.1 chunks) (joined x) first.2 in
      let y = second.0 in
      let q = ok-injective second.2 in
      let h = handled x.0 t.pending_xpc_data in
      let t' = advanced x h.0 in
      let ih = receive-Received t' chunks y.0 y.1 s second.1 in
      record {
        outputs = h.0.0 ++ ih.outputs;
        after = ih.after;
        received =
            ap (λ b. (if b then taken else ok ([], t)) >>= continued) s
            ∙ ap (λ r. (r >>= handling) >>= continued) first.1
            ∙ ap (λ r. (r >>= λ o. ok (o.0, advanced x o)) >>= continued) h.1
            ∙ ap (λ r. r >>= λ o. ok (h.0.0 ++ o.0, o.1)) ih.received;
        frame_buffer = ih.frame_buffer ∙ ap (λ z. z.1) q;
        ingested =
            ap (λ z. (z, ih.after.pending_xpc_data)) (bodies-append h.0.0 ih.outputs)
            ∙ ap (λ z. (bodies h.0.0 ++ z.0, z.1)) ih.ingested
            ∙ ap
                (λ z.
                  (z.0 ++ (ingest_all p z.1 (payloads y.0)).0, (ingest_all p z.1 (payloads y.0)).1))
                h.2
            ∙ sym (ingest_all-append t.pending_xpc_data (payloads x.0) (payloads y.0))
            ∙ ap (ingest_all p t.pending_xpc_data)
                (sym (payloads-append x.0 y.0) ∙ ap (λ z. payloads z.0) q);
      }
    where
      joined :
          List ParsedFrame × Bytes
          → List ParsedFrame × Bytes
          → Result Error (List ParsedFrame × Bytes)
      joined x y = ok (x.0 ++ y.0, y.1)

      later : List ParsedFrame × Bytes → Result Error (List ParsedFrame × Bytes)
      later x = accept_all http_framing x.1 chunks >>= joined x

      advanced : List ParsedFrame × Bytes → List (Output p) × Bytes → Transport
      advanced x o = record t { frame_buffer = x.1; pending_xpc_data = o.1 }

      handling : List ParsedFrame × Bytes → Result Error (List (Output p) × Transport)
      handling x = handle_frames p x.0 t.pending_xpc_data >>= λ o. ok (o.0, advanced x o)

      taken : Result Error (List (Output p) × Transport)
      taken = append t.frame_buffer chunk >>= handling

      continued : List (Output p) × Transport → Result Error (List (Output p) × Transport)
      continued o = receive p o.1 chunks >>= λ n. ok (o.0 ++ n.0, n.1)
