-- ===== src/Afc/Tracking.antt =====
-- Which packets may settle a request of src/services/ios/afc/demux.ts, over a run.
use appium_ios_remotexpc.Prelude.{
  ℕ, ◌≡◌, refl, Bool, true, false, ◌&&◌, not, Option, none, some, List, [], ◌∷◌, ◌++◌,
  if◌then◌else◌, All,
}
use appium_ios_remotexpc.Prelude.Result.{Result, ok, err, stuck, ◌>>=◌, ◌>>◌, guard}
use appium_ios_remotexpc.Prelude.Bytes.{Bytes}
use appium_ios_remotexpc.Afc.Demux.{
  Outcome, rejected, Failure, demux_stopped, operation_timed_out, reader_error, demux_is_stopped,
  Demux, find, clear_timeout, has_timer, conclude, settle, fail_pending, stop,
  ensure_reader_started, clear_pending, on_timeout, answer_of, fail_reader, finish_reader,
  is_current_reader, route, begin_send, is_locked, end_send, Event, connected, locked, written,
  fired, packet, failed, ended, stop_called, reset_called, step, run, is_socket,
}
use appium_ios_remotexpc.Afc.Routing.{
  Tracks, find-own, Allows, conclude-Tracks, same-Tracks, clear_pending-Tracks, settle-Tracks,
  fail_pending-Tracks, begin_send-Tracks,
}
use mathlib.Core.Path.{subst}

module _ (P : ℕ × Outcome → Type 0) (rejects : (w : ℕ) (f : Failure) → P (w, rejected f)) where
  finish_reader-Tracks : (socket : ℕ) (d : Demux) → Tracks P d → Tracks P (finish_reader socket d)
  unfolding finish_reader
  finish_reader-Tracks socket d =
      same-Tracks P rejects d (finish_reader socket d) refl refl refl refl

  fail_reader-Tracks :
      (socket : ℕ) (failure : Failure) (d : Demux)
      → Tracks P d
      → Tracks P (fail_reader socket failure d)
  unfolding fail_reader
  fail_reader-Tracks socket failure d t =
      finish_reader-Tracks socket _ (go (is_current_reader socket d))
    where
      go : (c : Bool) → Tracks P (if c then fail_pending failure true d else d)
      go true = fail_pending-Tracks P rejects failure true d t
      go false = t

  stop-Tracks : (d : Demux) → Tracks P d → Tracks P (stop d)
  unfolding stop
  stop-Tracks d t =
      let stopped = record d { stopped = true } in
      same-Tracks P rejects (fail_pending demux_stopped false stopped) (stop d) refl refl refl refl
        (fail_pending-Tracks P rejects demux_stopped false stopped
          (same-Tracks P rejects d stopped refl refl refl refl t))

  on_timeout-Tracks : (num w : ℕ) (d : Demux) → Tracks P d → Tracks P (on_timeout num w d)
  unfolding on_timeout
  on_timeout-Tracks num w d t = go (find num d.pending)
    where
      rung : Demux
      rung = record d { timers = clear_timeout w d.timers }

      rung-Tracks : Tracks P rung
      rung-Tracks = same-Tracks P rejects d rung refl refl refl refl t

      go :
          (r : Option ℕ)
          → Tracks P (elim r [
            | none ↦ rung
            | some v ↦ conclude w (rejected (operation_timed_out num)) (clear_pending num rung)
          ])
      go none = rung-Tracks
      go (some v) =
          conclude-Tracks P rejects w (rejected (operation_timed_out num)) (clear_pending num rung)
            (rejects w (operation_timed_out num))
            (clear_pending-Tracks P rejects num rung rung-Tracks)

  connected-Tracks : (socket : ℕ) (d : Demux) → Tracks P d → Tracks P (step d (connected socket))
  unfolding step ensure_reader_started
  connected-Tracks socket d t = go d.stopped (d.reader_active && is_socket socket d.reader_socket)
    where
      started : Demux
      started = record d {
        reader_socket = some socket;
        reader_active = true;
        readers = d.readers ++ (socket ∷ []);
      }

      after : Result Failure Demux → Demux
      after r = elim r [ ok d' ↦ d' | err e ↦ d | stuck ↦ d ]

      go :
          (stopped runs : Bool)
          → Tracks P
              (after (guard (not stopped) demux_is_stopped >> ok (if runs then d else started)))
      go true runs = t
      go false true = t
      go false false = same-Tracks P rejects d started refl refl refl refl t

  written-Tracks : (sent : Bool) (d : Demux) → Tracks P d → Tracks P (step d (written sent))
  unfolding step end_send
  written-Tracks sent d t = go d.sending sent
    where
      done : Demux
      done = record d { sending = none }

      done-Tracks : Tracks P done
      done-Tracks = same-Tracks P rejects d done refl refl refl refl t

      go :
          (r : Option (ℕ × ℕ)) (b : Bool)
          → Tracks P (elim r [ none ↦ d | some s ↦ end_send b s.0 s.1 d ])
      go none b = t
      go (some s) true =
          same-Tracks P rejects d (record done { returned = some s.1 }) refl refl refl refl t
      go (some s) false = clear_pending-Tracks P rejects s.0 done done-Tracks

  packet-Tracks :
      (socket num op : ℕ) (payload : Bytes) (d : Demux)
      → Allows P rejects (packet socket num op payload)
      → Tracks P d
      → Tracks P (step d (packet socket num op payload))
  unfolding step route
  packet-Tracks socket num op payload d a t = go (answer_of op payload) refl
    where
      found :
          (outcome : Outcome) (r : Option ℕ)
          → P (num, outcome)
          → find num d.pending ≡ r
          → Tracks P (elim r [ none ↦ d | some w ↦ settle w outcome (clear_pending num d) ])
      found outcome none q h = t
      found outcome (some w) q h =
          settle-Tracks P rejects w outcome (clear_pending num d)
            (subst (λ v. P (v, outcome)) (find-own num w d.pending t.own_number h) q)
            (clear_pending-Tracks P rejects num d t)

      routed : Outcome → Result Failure Demux
      routed outcome =
          ok (elim (find num d.pending) [
            | none ↦ d
            | some w ↦ settle w outcome (clear_pending num d)
          ])

      go :
          (r : Result Failure Outcome)
          → answer_of op payload ≡ r
          → Tracks P (elim (r >>= routed) [
            | ok d' ↦ d'
            | err failure ↦ fail_reader socket failure d
            | stuck ↦ d
          ])
      go (ok outcome) h = found outcome (find num d.pending) (a outcome h) refl
      go (err failure) h = fail_reader-Tracks socket failure d t
      go stuck h = t

  step-Tracks :
      (d : Demux) (event : Event) → Allows P rejects event → Tracks P d → Tracks P (step d event)
  unfolding step
  step-Tracks d (connected socket) a t = connected-Tracks socket d t
  step-Tracks d locked a t = go (is_locked d.sending d.returned d.settled)
    where
      go : (r : Bool) → Tracks P (if r then d else begin_send d)
      go true = t
      go false = begin_send-Tracks P rejects d t
  step-Tracks d (written sent) a t = written-Tracks sent d t
  step-Tracks d (fired num w) a t = go (has_timer num w d.timers)
    where
      go : (r : Bool) → Tracks P (if r then on_timeout num w d else d)
      go true = on_timeout-Tracks num w d t
      go false = t
  step-Tracks d (packet socket num op payload) a t = packet-Tracks socket num op payload d a t
  step-Tracks d (failed socket error) a t = fail_reader-Tracks socket (reader_error error) d t
  step-Tracks d (ended socket) a t = finish_reader-Tracks socket d t
  step-Tracks d stop_called a t = stop-Tracks d t
  step-Tracks d reset_called a t = absurd a

  pub run-Tracks :
      (d : Demux) (events : List Event)
      → All (Allows P rejects) events
      → Tracks P d
      → Tracks P (run d events)
  unfolding run
  run-Tracks d [] a t = t
  run-Tracks d (event ∷ events) a t =
      run-Tracks (step d event) events a.1 (step-Tracks d event a.0 t)
