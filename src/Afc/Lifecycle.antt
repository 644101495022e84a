-- ===== src/Afc/Lifecycle.antt =====
-- No request of src/services/ios/afc/demux.ts is lost, whatever happens.
use appium_ios_remotexpc.Prelude.{lt→ltb}
use appium_ios_remotexpc.Prelude.{◌<◌}
use appium_ios_remotexpc.Prelude.{
  ℕ, ◌≡◌, refl, sym, ap, ◌∙◌, Bool, true, false, ◌&&◌, not, Option, none, some, List, [], ◌∷◌, ◌++◌,
  arith, ltb, if◌then◌else◌, All,
}
use appium_ios_remotexpc.Prelude.Result.{Result, ok, err, stuck, ◌>>=◌, ◌>>◌, guard}
use appium_ios_remotexpc.Prelude.Bytes.{Bytes}
use mathlib.Core.Path.{subst}
use appium_ios_remotexpc.Afc.Demux.{
  Outcome, rejected, Failure, demux_stopped, socket_replaced, operation_timed_out, Demux, new_demux,
  find, clear_timeout, has_timer, conclude, settle, fail_pending, reset_for_new_socket, stop,
  ensure_reader_started, clear_pending, on_timeout, answer_of, fail_reader, route, begin_send,
  is_locked, end_send, Event, connected, locked, written, fired, packet, failed, ended, stop_called,
  reset_called, step, run, is_socket, reader_error, demux_is_stopped,
}
use appium_ios_remotexpc.Afc.Tables.{hit-true, hit, tally, settled_waiter, has_timer-find}
use appium_ios_remotexpc.Afc.Balance.{
  Balanced, rest, hit_le, settle-Balanced, begin_send-Balanced, reset-Balanced, same-Balanced,
  stop-Balanced, finish_reader-Balanced, fail_reader-Balanced, new_demux-Balanced,
}

on_timeout-Balanced :
    (num w : ℕ) (d : Demux)
    → Balanced d
    → has_timer num w d.timers ≡ true
    → Balanced (on_timeout num w d)
unfolding on_timeout conclude settle clear_pending
on_timeout-Balanced num w d b h =
    subst Balanced (sym (ap after found))
      (settle-Balanced num w (rejected (operation_timed_out num)) d b found)
  where
    found : find num d.pending ≡ some w
    found =
        has_timer-find num w d.pending (ap (has_timer num w) (sym b.timers_pending) ∙ h)
          (omega (arith, b.numbers num, hit_le (ltb num d.packet_num)))

    after : Option ℕ → Demux
    after r =
        let rung = record d { timers = clear_timeout w d.timers } in
        elim r [
          | none ↦ rung
          | some v ↦ conclude w (rejected (operation_timed_out num)) (clear_pending num rung)
        ]

route-Balanced :
    (num : ℕ) (outcome : Outcome) (d : Demux)
    → Balanced d
    → Balanced
        (elim (find num d.pending) [ none ↦ d | some w ↦ settle w outcome (clear_pending num d) ])
route-Balanced num outcome d b = go (find num d.pending) refl
  where
    go :
        (r : Option ℕ)
        → find num d.pending ≡ r
        → Balanced (elim r [ none ↦ d | some w ↦ settle w outcome (clear_pending num d) ])
    go none h = b
    go (some w) h = settle-Balanced num w outcome d b h

connected-Balanced : (socket : ℕ) (d : Demux) → Balanced d → Balanced (step d (connected socket))
unfolding step ensure_reader_started
connected-Balanced socket d b = go d.stopped (d.reader_active && is_socket socket d.reader_socket)
  where
    started : Demux
    started = record d {
      reader_socket = some socket;
      reader_active = true;
      readers = d.readers ++ (socket ∷ []);
    }

    after : Result Failure Demux → Demux
    after r = elim r [ ok d' ↦ d' | err e ↦ d | stuck ↦ d ]

    go :
        (stopped runs : Bool)
        → Balanced
            (after (guard (not stopped) demux_is_stopped >> ok (if runs then d else started)))
    go true runs = b
    go false true = b
    go false false = same-Balanced d started refl refl refl refl refl b

packet-Balanced :
    (socket num op : ℕ) (payload : Bytes) (d : Demux)
    → Balanced d
    → Balanced (step d (packet socket num op payload))
unfolding step route
packet-Balanced socket num op payload d b = go (answer_of op payload)
  where
    routed : Outcome → Result Failure Demux
    routed outcome =
        ok
          (elim (find num d.pending) [ none ↦ d | some w ↦ settle w outcome (clear_pending num d) ])

    go :
        (r : Result Failure Outcome)
        → Balanced (elim (r >>= routed) [
          | ok d' ↦ d'
          | err failure ↦ fail_reader socket failure d
          | stuck ↦ d
        ])
    go (ok outcome) = route-Balanced num outcome d b
    go (err failure) = fail_reader-Balanced socket failure d b
    go stuck = b

written-Balanced :
    (sent : Bool) (d : Demux) → sent ≡ true → Balanced d → Balanced (step d (written sent))
unfolding step end_send
written-Balanced sent d h b = subst (λ c. Balanced (step d (written c))) (sym h) (go d.sending)
  where
    go : (r : Option (ℕ × ℕ)) → Balanced (elim r [ none ↦ d | some s ↦ end_send true s.0 s.1 d ])
    go none = b
    go (some s) =
        same-Balanced d (record d { sending = none; returned = some s.1 }) refl refl refl refl refl
          b

-- Every write gets through.
abbrev pub IsSent : Event → Type 0
IsSent (written sent) = sent ≡ true
IsSent (connected socket) = Unit {0}
IsSent locked = Unit {0}
IsSent (fired num w) = Unit {0}
IsSent (packet socket num op payload) = Unit {0}
IsSent (failed socket error) = Unit {0}
IsSent (ended socket) = Unit {0}
IsSent stop_called = Unit {0}
IsSent reset_called = Unit {0}

step-Balanced : (d : Demux) (event : Event) → IsSent event → Balanced d → Balanced (step d event)
unfolding step
step-Balanced d (connected socket) s b = connected-Balanced socket d b
step-Balanced d locked s b = go (is_locked d.sending d.returned d.settled)
  where
    go : (r : Bool) → Balanced (if r then d else begin_send d)
    go true = b
    go false = begin_send-Balanced d b
step-Balanced d (written sent) s b = written-Balanced sent d s b
step-Balanced d (fired num w) s b = go (has_timer num w d.timers) refl
  where
    go : (r : Bool) → has_timer num w d.timers ≡ r → Balanced (if r then on_timeout num w d else d)
    go true h = on_timeout-Balanced num w d b h
    go false h = b
step-Balanced d (packet socket num op payload) s b = packet-Balanced socket num op payload d b
step-Balanced d (failed socket error) s b = fail_reader-Balanced socket (reader_error error) d b
step-Balanced d (ended socket) s b = finish_reader-Balanced socket d b
step-Balanced d stop_called s b = stop-Balanced d b
step-Balanced d reset_called s b = reset-Balanced d b

run-Balanced :
    (d : Demux) (events : List Event) → All IsSent events → Balanced d → Balanced (run d events)
unfolding run
run-Balanced d [] s b = b
run-Balanced d (event ∷ events) s b =
    run-Balanced (step d event) events s.1 (step-Balanced d event s.0 b)

-- Whatever happens to a new demultiplexer, as long as no write fails: the timers that run are those
-- of the pending requests, a packet number is used by one of them at most, and each request that was
-- sent is either pending or was settled, and this once.
pub run-new_demux : (events : List Event) → All IsSent events → Balanced (run new_demux events)
run-new_demux events s = run-Balanced new_demux events s new_demux-Balanced

-- As long as no write fails, `stop` and `resetForNewSocket` leave no request behind: whatever
-- happened before, each request that was sent has then been settled exactly once, and no timer runs.
pub stop-settles :
    (events : List Event) (w : ℕ)
    → All IsSent events
    → w < (run new_demux events).waiters
    → (tally settled_waiter w (stop (run new_demux events)).settled ≡ 1)
      × ((stop (run new_demux events)).timers ≡ [])
      × (tally settled_waiter w (reset_for_new_socket (run new_demux events)).settled ≡ 1)
      × ((reset_for_new_socket (run new_demux events)).timers ≡ [])
unfolding stop fail_pending reset_for_new_socket
stop-settles events w s h =
    let halted = rest demux_stopped stopped (same-Balanced d stopped refl refl refl refl refl b) in
    let replaced = rest socket_replaced d b in
    (
      omega (arith, halted.all_settled w, b.once w, known),
      halted.no_timers,
      omega (arith, replaced.all_settled w, b.once w, known),
      replaced.no_timers,
    )
  where
    d : Demux
    d = run new_demux events

    b : Balanced d
    b = run-new_demux events s

    stopped : Demux
    stopped = record d { stopped = true }

    known : hit (ltb w d.waiters) ≡ 1
    known = hit-true (lt→ltb w d.waiters h)
