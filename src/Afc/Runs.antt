-- ===== src/Afc/Runs.antt =====
-- Runs of the AFC packets, of the reader and of the demultiplexer.
use appium_ios_remotexpc.Afc.Demux.{on_timeout}
use appium_ios_remotexpc.Prelude.{All}
use appium_ios_remotexpc.Prelude.{false}
use appium_ios_remotexpc.Prelude.{none}
use appium_ios_remotexpc.Prelude.{some}
use appium_ios_remotexpc.Prelude.{true}
use appium_ios_remotexpc.Prelude.{◌≤◌}
use appium_ios_remotexpc.Prelude.{◌≡◌, refl, List, [], ◌∷◌, ◌++◌, arith}
use appium_ios_remotexpc.Prelude.Result.{ok, ◌>>=◌}
use appium_ios_remotexpc.Prelude.Bytes.{le_bytes}
use appium_ios_remotexpc.Afc.Packets.{
  Fits, header_of, send_afc_packet, read_afc_response, response_of,
  read_afc_response-send_afc_packet,
}
use appium_ios_remotexpc.Afc.Reads
use appium_ios_remotexpc.Afc.Demux
use appium_ios_remotexpc.Afc.Reads.{fresh, arrives, wants, IsOpen, answered, arrived, run-IsOpen}
use appium_ios_remotexpc.Afc.Demux.{
  new_demux, connected, locked, written, fired, packet, reset_called, resolved, is_settled,
  ensure_reader_started, begin_send, register_pending, set, end_send, has_timer, route, answer_of,
  find, delete, clear_pending, clear_timeout, settle, conclude, is_socket, stop,
  reset_for_new_socket, fail_pending, reject_all,
}
use appium_ios_remotexpc.Afc.Tables.{tally, key, settled_waiter}
use appium_ios_remotexpc.Afc.Balance.{Balanced}
use appium_ios_remotexpc.Afc.Lifecycle.{run-new_demux, stop-settles}
use appium_ios_remotexpc.Afc.Answers.{IsAnswer, run-IsAnswer}
use appium_ios_remotexpc.Afc.Stale.{fired-drops}

-- A status packet with something behind it.
status-Fits : Fits 1 5 (le_bytes 8 7) []
status-Fits = record { op_fits = omega arith; num_fits = omega arith; size_fits = omega arith }

read_afc_response-send_afc_packet_example :
    (send_afc_packet 1 5 (le_bytes 8 7) [] >>= λ b. read_afc_response (b ++ (9 ∷ [])))
    ≡ (response_of (header_of 1 5 (le_bytes 8 7) []) (le_bytes 8 7 ++ []) >>= λ r. ok (r, 9 ∷ []))
read_afc_response-send_afc_packet_example =
    read_afc_response-send_afc_packet 1 5 (le_bytes 8 7) [] (9 ∷ []) status-Fits

abbrev events : List Reads.Event
events = wants 2 ∷ arrives (1 ∷ []) ∷ arrives (2 ∷ 3 ∷ []) ∷ wants 1 ∷ wants 4 ∷ []

run-IsOpen_example :
    IsOpen (Reads.run fresh events).0
    × (answered (Reads.run fresh events).1 ++ (Reads.run fresh events).0.buffer
        ≡ [] ++ arrived events)
run-IsOpen_example = run-IsOpen fresh events (record { works = refl; starved = tt })

-- Two requests: the second has the lock only when the first is answered, it is answered while it is
-- still being written, and in between comes a packet that nobody waits for.
abbrev exchange : List Demux.Event
exchange =
    connected 7
    ∷ locked
    ∷ written true
    ∷ locked
    ∷ packet 7 5 2 []
    ∷ packet 7 0 1 (le_bytes 8 3)
    ∷ locked
    ∷ packet 7 1 2 (8 ∷ [])
    ∷ fired 1 1
    ∷ written true
    ∷ []

run-exchange :
    (Demux.run new_demux exchange).settled ≡ (0, resolved 3 []) ∷ (1, resolved 0 (8 ∷ [])) ∷ []
unfolding Demux.run Demux.step ensure_reader_started begin_send register_pending set end_send
    has_timer route answer_of find delete clear_pending clear_timeout settle conclude is_socket
    is_settled
run-exchange = refl

-- A call does not get the lock while the request before it waits for its answer.
run-waits :
    Demux.run new_demux (connected 7 ∷ locked ∷ written true ∷ locked ∷ [])
    ≡ Demux.run new_demux (connected 7 ∷ locked ∷ written true ∷ [])
unfolding Demux.run Demux.step ensure_reader_started begin_send register_pending set end_send
    is_settled
run-waits = refl

run-new_demux_example : Balanced (Demux.run new_demux exchange)
run-new_demux_example =
    run-new_demux exchange (tt, (tt, (refl, (tt, (tt, (tt, (tt, (tt, (tt, (refl, tt))))))))))

run-IsAnswer_example :
    All (IsAnswer exchange) (Demux.run new_demux exchange).settled
    × ((Demux.run new_demux exchange).packet_num ≡ (Demux.run new_demux exchange).waiters)
run-IsAnswer_example =
    run-IsAnswer exchange (tt, (tt, (tt, (tt, (tt, (tt, (tt, (tt, (tt, (tt, tt))))))))))

-- One request is answered, one is not.
abbrev halfway : List Demux.Event
halfway = connected 7 ∷ locked ∷ written true ∷ packet 7 0 2 [] ∷ locked ∷ written true ∷ []

halfway-waiters : (Demux.run new_demux halfway).waiters ≡ 2
unfolding is_settled Demux.run Demux.step ensure_reader_started begin_send register_pending set
    end_send route answer_of find delete clear_pending clear_timeout settle conclude is_socket
halfway-waiters = refl

stop-settles_example :
    (tally settled_waiter 1 (stop (Demux.run new_demux halfway)).settled ≡ 1)
    × ((stop (Demux.run new_demux halfway)).timers ≡ [])
    × (tally settled_waiter 1 (reset_for_new_socket (Demux.run new_demux halfway)).settled ≡ 1)
    × ((reset_for_new_socket (Demux.run new_demux halfway)).timers ≡ [])
stop-settles_example =
    stop-settles halfway 1 (tt, (tt, (refl, (tt, (tt, (refl, tt))))))
      (omega (arith, halfway-waiters))

-- A failed write, a reset, and another request under the number 0.
abbrev reused : Demux.Demux
reused =
    Demux.run new_demux (
      connected 7
      ∷ locked
      ∷ written false
      ∷ reset_called
      ∷ connected 8
      ∷ locked
      ∷ written true
      ∷ [])

reused-find : find 0 reused.pending ≡ some 1
unfolding is_settled Demux.run Demux.step ensure_reader_started begin_send register_pending set
    end_send find delete clear_pending reset_for_new_socket fail_pending reject_all is_socket
reused-find = refl

reused-key : tally key 0 reused.pending ≤ 1
unfolding is_settled Demux.run Demux.step ensure_reader_started begin_send register_pending set
    end_send find delete clear_pending reset_for_new_socket fail_pending reject_all is_socket
reused-key = omega arith

reused-timer : has_timer 0 0 reused.timers ≡ true
unfolding is_settled Demux.run Demux.step ensure_reader_started begin_send register_pending set
    end_send has_timer delete clear_pending reset_for_new_socket fail_pending reject_all is_socket
reused-timer = refl

fired-drops_example :
    (find 0 (Demux.step reused (fired 0 0)).pending ≡ none)
    × (tally settled_waiter 1 (Demux.step reused (fired 0 0)).settled
        ≡ tally settled_waiter 1 reused.settled)
    × (tally settled_waiter 1 (Demux.step (Demux.step reused (fired 0 0)) (fired 0 1)).settled
        ≡ tally settled_waiter 1 reused.settled)
fired-drops_example =
    fired-drops reused 0 0 1 reused-find reused-key reused-timer (λ e. absurd (omega (arith, e)))

-- The dropped request holds the lock for good: after its timer, a reset and a new socket, the next
-- call does not get it.
abbrev hung : Demux.Demux
hung = Demux.run reused (fired 0 0 ∷ fired 0 1 ∷ reset_called ∷ connected 9 ∷ [])

locked-hung : Demux.step hung locked ≡ hung
unfolding Demux.run Demux.step is_settled ensure_reader_started begin_send register_pending set
    end_send has_timer on_timeout conclude clear_timeout find delete clear_pending
    reset_for_new_socket fail_pending reject_all is_socket
locked-hung = refl
