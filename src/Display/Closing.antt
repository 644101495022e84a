-- ===== src/Display/Closing.antt =====
-- The requests that a `UdpMediaReceiver` of src/services/ios/display/transport/rtp.ts answers, and
-- what becomes of its consumers when it is closed.
use appium_ios_remotexpc.Prelude.{
  ℕ, ◌≡◌, refl, sym, ap, ◌∙◌, Bool, true, false, Option, none, some, List, [], ◌∷◌, ◌++◌, map,
  append-nil, append_assoc,
}
use appium_ios_remotexpc.Prelude.Bytes.{Bytes}
use appium_ios_remotexpc.Display.Receiver.{
  Receiver, Resolved, Event, message, request, abort, shut, step, run, next_from, IsValid,
  step-IsValid, receiver, head_or_end,
}

-- Whose promises are resolved, who waits, and who asks.
abbrev pub answered : Resolved → List ℕ
answered out = map (λ (consumer, value). consumer) out

abbrev pub waiting : Option ℕ → List ℕ
waiting none = []
waiting (some consumer) = consumer ∷ []

abbrev pub asked : List Event → List ℕ
asked [] = []
asked (message d ∷ events) = asked events
asked (request consumer ∷ events) = consumer ∷ asked events
asked (abort ∷ events) = asked events
asked (shut ∷ events) = asked events

-- An event is no request, or one that comes while nobody waits.
abbrev pub InTurn : Receiver → Event → Type 0
InTurn r (message d) = Unit
InTurn r (request consumer) = r.pending ≡ none
InTurn r abort = Unit
InTurn r shut = Unit

-- The consumers ask one after the other: none asks while another waits.
unfoldable pub TakeTurns : Receiver → List Event → Type 0
TakeTurns r [] = Unit
TakeTurns r (e ∷ events) = InTurn r e × TakeTurns (step r e).0 events

-- A step answers who waits or who asks, and leaves nobody out.
step_answers :
    (r : Receiver) (e : Event)
    → InTurn r e
    → answered (step r e).1 ++ waiting (step r e).0.pending ≡ waiting r.pending ++ asked (e ∷ [])
unfolding step
step_answers r e t = go r.queue r.pending r.closed e t
  where
    go :
        (q : List Bytes) (p : Option ℕ) (c : Bool) (e : Event)
        → InTurn (receiver q p c) e
        → answered (step (receiver q p c) e).1 ++ waiting (step (receiver q p c) e).0.pending
          ≡ waiting p ++ asked (e ∷ [])
    go q none c (message d) t = refl
    go q (some n) c (message d) t = refl
    go [] none true (request m) t = refl
    go [] none false (request m) t = refl
    go (d ∷ q) none c (request m) t = refl
    go q (some n) c (request m) t = cc
    go q none c abort t = refl
    go q (some n) c abort t = refl
    go q none true shut t = refl
    go q (some n) true shut t = refl
    go q none false shut t = refl
    go q (some n) false shut t = refl

answered-append : (xs ys : Resolved) → answered (xs ++ ys) ≡ answered xs ++ answered ys
answered-append [] ys = refl
answered-append (x ∷ xs) ys = ap (λ t. x.0 ∷ t) (answered-append xs ys)

asked-cons : (e : Event) (es : List Event) → asked (e ∷ es) ≡ asked (e ∷ []) ++ asked es
asked-cons (message d) es = refl
asked-cons (request c) es = refl
asked-cons abort es = refl
asked-cons shut es = refl

run_answers :
    (r : Receiver) (events : List Event)
    → TakeTurns r events
    → answered (run r events).1 ++ waiting (run r events).0.pending
      ≡ waiting r.pending ++ asked events
unfolding run TakeTurns
run_answers r [] t = sym (append-nil (waiting r.pending))
run_answers r (e ∷ events) (now, later) =
    let r' = (step r e).0 in
    rw (answered-append (step r e).1 (run r' events).1) (
      append_assoc (answered (step r e).1) (answered (run r' events).1)
        (waiting (run r' events).0.pending)
      ∙ ap (λ t. answered (step r e).1 ++ t) (run_answers r' events later)
      ∙ sym (append_assoc (answered (step r e).1) (waiting r'.pending) (asked events))
      ∙ ap (λ t. t ++ asked events) (step_answers r e now)
      ∙ append_assoc (waiting r.pending) (asked (e ∷ [])) (asked events)
      ∙ ap (λ t. waiting r.pending ++ t) (sym (asked-cons e events)))

-- A receiver that is closed, and where nobody waits.
IsClosed : Receiver → Type 0
IsClosed r = (r.closed ≡ true) × (r.pending ≡ none)

step-IsClosed : (r : Receiver) (e : Event) → IsClosed r → IsClosed (step r e).0
unfolding step IsClosed
step-IsClosed r e h = go r.queue r.pending r.closed e h
  where
    go :
        (q : List Bytes) (p : Option ℕ) (c : Bool) (e : Event)
        → IsClosed (receiver q p c)
        → IsClosed (step (receiver q p c) e).0
    go q (some n) c e h = cc h.1
    go q none false e h = cc h.0
    go q none true (message d) h = h
    go [] none true (request m) h = h
    go (d ∷ q) none true (request m) h = h
    go q none true abort h = h
    go q none true shut h = h

run-IsClosed : (r : Receiver) (events : List Event) → IsClosed r → IsClosed (run r events).0
unfolding run
run-IsClosed r [] h = h
run-IsClosed r (e ∷ events) h = run-IsClosed (step r e).0 events (step-IsClosed r e h)

-- In a closed receiver every event is in turn.
closed-TakeTurns : (r : Receiver) (events : List Event) → IsClosed r → TakeTurns r events
unfolding TakeTurns IsClosed
closed-TakeTurns r [] h = tt
closed-TakeTurns r (e ∷ events) h =
    (in_turn e, closed-TakeTurns (step r e).0 events (step-IsClosed r e h))
  where
    in_turn : (e : Event) → InTurn r e
    in_turn (message d) = tt
    in_turn (request c) = h.1
    in_turn abort = tt
    in_turn shut = tt

-- `close` of a valid receiver.
shut-IsClosed : (r : Receiver) → IsValid r → IsClosed (step r shut).0
unfolding step IsClosed
shut-IsClosed r v = go r.queue r.pending r.closed v
  where
    go :
        (q : List Bytes) (p : Option ℕ) (c : Bool)
        → IsValid (receiver q p c)
        → IsClosed (step (receiver q p c) shut).0
    go q none true v = (refl, refl)
    go q none false v = (refl, refl)
    go q (some n) true v = let e = v.waits_open refl in cc
    go q (some n) false v = (refl, refl)

-- The events before and after the receiver is closed.
abbrev pub and_shut : List Event → List Event → List Event
and_shut events later = events ++ (shut ∷ later)

and_shut-TakeTurns :
    (r : Receiver) (events later : List Event)
    → IsValid r
    → TakeTurns r events
    → TakeTurns r (and_shut events later)
unfolding TakeTurns
and_shut-TakeTurns r [] later v t = (tt, closed-TakeTurns (step r shut).0 later (shut-IsClosed r v))
and_shut-TakeTurns r (e ∷ events) later v (now, t) =
    (now, and_shut-TakeTurns (step r e).0 events later (step-IsValid r e v) t)

and_shut-IsClosed :
    (r : Receiver) (events later : List Event)
    → IsValid r
    → IsClosed (run r (and_shut events later)).0
unfolding run
and_shut-IsClosed r [] later v = run-IsClosed (step r shut).0 later (shut-IsClosed r v)
and_shut-IsClosed r (e ∷ events) later v =
    and_shut-IsClosed (step r e).0 events later (step-IsValid r e v)

-- A request to a closed receiver.
next_from_closed :
    (q : List Bytes) (consumer : ℕ) (r : Receiver)
    → r.closed ≡ true
    → (next_from q consumer r).1 ≡ (consumer, head_or_end q) ∷ []
unfolding next_from
next_from_closed [] consumer r e = rw e
next_from_closed (d ∷ q) consumer r e = refl

-- If no consumer asks while another waits, then over any run in which a valid receiver is closed,
-- whatever happens before and after it, those who were waiting and each one that asks are answered
-- exactly once and in order; nobody waits at the end; and one that asks then is answered at once,
-- with the next buffered datagram or with the end.
pub closed_answers :
    (r : Receiver) (events later : List Event) (consumer : ℕ)
    → IsValid r
    → TakeTurns r events
    → (answered (run r (and_shut events later)).1
        ≡ waiting r.pending ++ asked (and_shut events later))
      × ((run r (and_shut events later)).0.pending ≡ none)
      × ((step (run r (and_shut events later)).0 (request consumer)).1
          ≡ (consumer, head_or_end (run r (and_shut events later)).0.queue) ∷ [])
unfolding step IsClosed
closed_answers r events later consumer v t =
    let all = and_shut events later in
    let after = (run r all).0 in
    let done : IsClosed after = and_shut-IsClosed r events later v in
    (
      sym (append-nil (answered (run r all).1))
          ∙ ap (λ p. answered (run r all).1 ++ waiting p) (sym done.1)
          ∙ run_answers r all (and_shut-TakeTurns r events later v t),
      done.1,
      next_from_closed after.queue consumer after done.0,
    )
