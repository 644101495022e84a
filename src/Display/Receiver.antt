-- ===== src/Display/Receiver.antt =====
-- `UdpMediaReceiver` of src/services/ios/display/transport/rtp.ts: datagrams are buffered until the
-- consumer of `packets` asks for them. The socket itself is not modelled. A consumer is a number:
-- a call of `waitForPacket` stores the `resolve` of its promise, over one that is still stored.
use appium_ios_remotexpc.Prelude.{
  ℕ, ◌≡◌, refl, sym, ap, ◌∙◌, Bool, true, false, Option, none, some, List, [], ◌∷◌, ◌++◌,
  append-nil, append_assoc, if◌then◌else◌,
}
use appium_ios_remotexpc.Prelude.Bytes.{Bytes}

-- The queue, the consumer whose promise `pendingResolve` resolves, and whether the receiver is
-- closed.
pub record Receiver : Type 0 where
  pub queue : List Bytes
  pub pending : Option ℕ
  pub closed : Bool

-- The promises that a call resolves: whose they are, and the datagram, or `undefined` (`none`).
abbrev pub Resolved : Type 0
Resolved = List (ℕ × Option Bytes)

abbrev pub opened : Receiver
opened = record { queue = []; pending = none; closed = false }

abbrev pub is_waiting : Option ℕ → Bool
is_waiting none = false
is_waiting (some consumer) = true

abbrev pub wake_pending : Option ℕ → Receiver → Option Bytes → Receiver × Resolved
wake_pending none r value = (r, [])
wake_pending (some consumer) r value = (record r { pending = none }, (consumer, value) ∷ [])

unfoldable pub wake : Receiver → Option Bytes → Receiver × Resolved
wake r value = wake_pending r.pending r value

unfoldable pub enqueue : Receiver → Bytes → Receiver × Resolved
unfolding wake
enqueue r datagram =
    if is_waiting r.pending
    then wake r (some datagram)
    else (record r { queue = r.queue ++ (datagram ∷ []) }, [])

unfoldable pub close : Receiver → Receiver × Resolved
unfolding wake
close r = if r.closed then (r, []) else wake (record r { closed = true }) none

-- `waitForPacket`: a promise of the same receiver that still waits is overwritten.
unfoldable pub wait_for_packet : ℕ → Receiver → Receiver × Resolved
wait_for_packet consumer r =
    if r.closed then (r, (consumer, none) ∷ []) else (record r { pending = some consumer }, [])

-- A round of `packets`: `this.queue.shift() ?? (await this.waitForPacket())`.
unfoldable pub next_from : List Bytes → ℕ → Receiver → Receiver × Resolved
unfolding wait_for_packet
next_from [] consumer r = wait_for_packet consumer r
next_from (datagram ∷ queue) consumer r =
    (record r { queue = queue }, (consumer, some datagram) ∷ [])

-- What happens to a receiver: the socket delivers, a consumer asks, a signal aborts (`onAbort`),
-- somebody closes it or the socket fails.
pub data Event : Type 0 where
  message : Bytes → Event
  request : ℕ → Event
  abort shut : Event

unfoldable pub step : Receiver → Event → Receiver × Resolved
unfolding enqueue close next_from wake
step r (message datagram) = enqueue r datagram
step r (request consumer) = next_from r.queue consumer r
step r abort = wake r none
step r shut = close r

unfoldable pub run : Receiver → List Event → Receiver × Resolved
run r [] = (r, [])
run r (event ∷ events) =
    let (r', out) = step r event in let (r'', more) = run r' events in (r'', out ++ more)

-- A consumer waits only if nothing is buffered and the receiver is open.
pub record IsValid (r : Receiver) : Type 0 where
  pub waits_empty : is_waiting r.pending ≡ true → r.queue ≡ []
  pub waits_open : is_waiting r.pending ≡ true → r.closed ≡ false

abbrev pub receiver : List Bytes → Option ℕ → Bool → Receiver
receiver queue pending closed = record { queue = queue; pending = pending; closed = closed }

idle-IsValid : (queue : List Bytes) (closed : Bool) → IsValid (receiver queue none closed)
idle-IsValid queue closed = record { waits_empty = λ e. cc; waits_open = λ e. cc }

pub opened-IsValid : IsValid opened
opened-IsValid = idle-IsValid [] false

-- Every event keeps the invariant.
pub step-IsValid : (r : Receiver) (e : Event) → IsValid r → IsValid (step r e).0
unfolding step
step-IsValid r e v = go r.queue r.pending r.closed e v
  where
    go :
        (q : List Bytes) (p : Option ℕ) (c : Bool) (e : Event)
        → IsValid (receiver q p c)
        → IsValid (step (receiver q p c) e).0
    go q none c (message d) v = idle-IsValid (q ++ (d ∷ [])) c
    go q (some n) c (message d) v = idle-IsValid q c
    go [] p true (request m) v = v
    go [] p false (request m) v = record { waits_empty = λ e. refl; waits_open = λ e. refl }
    go (d ∷ q) none c (request m) v = idle-IsValid q c
    go (d ∷ q) (some n) c (request m) v = let e = v.waits_empty refl in cc
    go q none c abort v = v
    go q (some n) c abort v = idle-IsValid q c
    go q p true shut v = v
    go q none false shut v = idle-IsValid q true
    go q (some n) false shut v = idle-IsValid q true

-- The datagrams that consumers got, and those that the socket delivered.
abbrev pub delivered : Resolved → List Bytes
delivered [] = []
delivered ((consumer, none) ∷ out) = delivered out
delivered ((consumer, some d) ∷ out) = d ∷ delivered out

abbrev pub received : List Event → List Bytes
received [] = []
received (message d ∷ events) = d ∷ received events
received (request consumer ∷ events) = received events
received (abort ∷ events) = received events
received (shut ∷ events) = received events

delivered-append : (xs ys : Resolved) → delivered (xs ++ ys) ≡ delivered xs ++ delivered ys
delivered-append [] ys = refl
delivered-append ((c, none) ∷ xs) ys = delivered-append xs ys
delivered-append ((c, some d) ∷ xs) ys = ap (λ t. d ∷ t) (delivered-append xs ys)

step_keeps :
    (r : Receiver) (e : Event)
    → IsValid r
    → delivered (step r e).1 ++ (step r e).0.queue ≡ r.queue ++ received (e ∷ [])
unfolding step
step_keeps r e v = go r.queue r.pending r.closed e v
  where
    go :
        (q : List Bytes) (p : Option ℕ) (c : Bool) (e : Event)
        → IsValid (receiver q p c)
        → delivered (step (receiver q p c) e).1 ++ (step (receiver q p c) e).0.queue
          ≡ q ++ received (e ∷ [])
    go q none c (message d) v = refl
    go q (some n) c (message d) v = rw (v.waits_empty refl)
    go [] p true (request m) v = refl
    go [] p false (request m) v = refl
    go (d ∷ q) p c (request m) v = sym (append-nil (d ∷ q))
    go q none c abort v = sym (append-nil q)
    go q (some n) c abort v = sym (append-nil q)
    go q p true shut v = sym (append-nil q)
    go q none false shut v = sym (append-nil q)
    go q (some n) false shut v = sym (append-nil q)

-- The next datagram of a queue, or `undefined`.
abbrev pub head_or_end : List Bytes → Option Bytes
head_or_end [] = none
head_or_end (d ∷ q) = some d

received-cons : (e : Event) (es : List Event) → received (e ∷ es) ≡ received (e ∷ []) ++ received es
received-cons (message d) es = refl
received-cons (request c) es = refl
received-cons abort es = refl
received-cons shut es = refl

-- Whatever happens to a valid receiver, in any order, no datagram is lost, doubled or overtaken:
-- those handed to consumers, then those still buffered, are the ones that were buffered, then
-- those that the socket delivered, in order; and the invariant is kept.
pub run_keeps :
    (r : Receiver) (events : List Event)
    → IsValid r
    → IsValid (run r events).0
      × (delivered (run r events).1 ++ (run r events).0.queue ≡ r.queue ++ received events)
unfolding run
run_keeps r [] v = (v, sym (append-nil r.queue))
run_keeps r (e ∷ events) v =
    let r' = (step r e).0 in
    let (v', h) = run_keeps r' events (step-IsValid r e v) in
    (
      v',
      rw (delivered-append (step r e).1 (run r' events).1) (
          append_assoc (delivered (step r e).1) (delivered (run r' events).1)
            (run r' events).0.queue
          ∙ ap (λ t. delivered (step r e).1 ++ t) h
          ∙ sym (append_assoc (delivered (step r e).1) r'.queue (received events))
          ∙ ap (λ t. t ++ received events) (step_keeps r e v)
          ∙ append_assoc r.queue (received (e ∷ [])) (received events)
          ∙ ap (λ t. r.queue ++ t) (sym (received-cons e events))),
    )
