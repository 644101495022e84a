-- ===== src/Afc/Demux.antt =====
-- `AfcPacketDemux` of src/services/ios/afc/demux.ts. A request is the promise that
-- `_registerPending` creates (`waiter`), counted in the order of creation; a socket and an error are
-- told apart by numbers. What happens between two `await`s is one event.
use appium_ios_remotexpc.Prelude.{
  ℕ, suc, Bool, true, false, ◌&&◌, ◌||◌, not, Option, none, some, List, [], ◌∷◌, ◌++◌, leb, ◌==◌,
  if◌then◌else◌, length,
}
use appium_ios_remotexpc.Prelude.Result.{Result, ok, err, stuck, ◌>>=◌, ◌>>◌, guard}
use appium_ios_remotexpc.Prelude.Bytes.{Bytes, read_le}

-- Why a request is rejected.
pub data Failure : Type 0 where
  demux_is_stopped demux_stopped socket_replaced : Failure
  operation_timed_out : ℕ → Failure
  reader_error : ℕ → Failure
  short_status : Failure

pub data Outcome : Type 0 where
  resolved : (status : ℕ) → Bytes → Outcome
  rejected : Failure → Outcome

-- Packet numbers with the waiters behind them: the entries of `pending`, and the timers that run.
abbrev pub Table : Type 0
Table = List (ℕ × ℕ)

-- The fields, and what they stand for outside: the timers that run, how many waiters there are, how
-- they were settled, the errors that `onFatalError` was called with, the reader loops that run, the
-- packet that is being sent under the send lock, and the waiter that the callback under the lock
-- returned last.
pub record Demux : Type 0 where
  pub pending : Table
  pub packet_num : ℕ
  pub reader_socket : Option ℕ
  pub reader_active : Bool
  pub stopped : Bool
  pub timers : Table
  pub waiters : ℕ
  pub settled : List (ℕ × Outcome)
  pub fatal : List Failure
  pub readers : List ℕ
  pub sending : Option (ℕ × ℕ)
  pub returned : Option ℕ

abbrev pub new_demux : Demux
new_demux = record {
  pending = [];
  packet_num = 0;
  reader_socket = none;
  reader_active = false;
  stopped = false;
  timers = [];
  waiters = 0;
  settled = [];
  fatal = [];
  readers = [];
  sending = none;
  returned = none;
}

-- `get`, `delete` and `set` of a Map.
unfoldable pub find : ℕ → Table → Option ℕ
find num [] = none
find num ((n, w) ∷ rest) = let more = find num rest in if n == num then some w else more

unfoldable pub delete : ℕ → Table → Table
delete num [] = []
delete num ((n, w) ∷ rest) = let more = delete num rest in if n == num then rest else (n, w) ∷ more

unfoldable pub set : (num waiter : ℕ) → Table → Table
set num waiter [] = (num, waiter) ∷ []
set num waiter ((n, w) ∷ rest) =
    let more = set num waiter rest in if n == num then (num, waiter) ∷ rest else (n, w) ∷ more

-- `clearTimeout` of the waiter's timer.
unfoldable pub clear_timeout : ℕ → Table → Table
clear_timeout waiter [] = []
clear_timeout waiter ((n, w) ∷ rest) =
    let more = clear_timeout waiter rest in if w == waiter then rest else (n, w) ∷ more

unfoldable pub has_timer : (num waiter : ℕ) → Table → Bool
has_timer num waiter [] = false
has_timer num waiter ((n, w) ∷ rest) = ((n == num) && (w == waiter)) || has_timer num waiter rest

-- `resolve` and `reject` of the promise, and those of the waiter, which clear the timer.
unfoldable pub conclude : ℕ → Outcome → Demux → Demux
conclude waiter outcome d = record d { settled = d.settled ++ ((waiter, outcome) ∷ []) }

unfoldable pub settle : ℕ → Outcome → Demux → Demux
settle waiter outcome d =
    conclude waiter outcome (record d { timers = clear_timeout waiter d.timers })

-- The loop of `_failPending`.
unfoldable pub reject_all : Failure → Table → Demux → Demux
reject_all failure [] d = d
reject_all failure ((n, w) ∷ rest) d = reject_all failure rest (settle w (rejected failure) d)

unfoldable pub fail_pending : Failure → (notify : Bool) → Demux → Demux
fail_pending failure notify d =
    let cleared = record (reject_all failure d.pending d) { pending = [] } in
    if notify then record cleared { fatal = cleared.fatal ++ (failure ∷ []) } else cleared

unfoldable pub reset_for_new_socket : Demux → Demux
reset_for_new_socket d = record (fail_pending socket_replaced false d) {
  reader_socket = none;
  reader_active = false;
  stopped = false;
  packet_num = 0;
}

unfoldable pub stop : Demux → Demux
stop d = record (fail_pending demux_stopped false (record d { stopped = true })) {
  reader_socket = none;
  reader_active = false;
}

unfoldable pub is_socket : ℕ → Option ℕ → Bool
is_socket socket none = false
is_socket socket (some s) = s == socket

-- `ensureReaderStarted`
unfoldable pub ensure_reader_started : ℕ → Demux → Result Failure Demux
ensure_reader_started socket d =
    guard (not d.stopped) demux_is_stopped
    >> ok (
        if d.reader_active && is_socket socket d.reader_socket then d else record d {
          reader_socket = some socket;
          reader_active = true;
          readers = d.readers ++ (socket ∷ []);
        })

-- `_registerPending`, and the timer that it starts.
unfoldable pub register_pending : ℕ → Demux → Demux
register_pending num d = record d {
  timers = d.timers ++ ((num, d.waiters) ∷ []);
  waiters = suc d.waiters;
  pending = set num d.waiters d.pending;
}

unfoldable pub clear_pending : ℕ → Demux → Demux
clear_pending num d = record d { pending = delete num d.pending }

-- The timer's callback.
unfoldable pub on_timeout : (num waiter : ℕ) → Demux → Demux
on_timeout num waiter d =
    let fired = record d { timers = clear_timeout waiter d.timers } in
    elim (find num d.pending) [
      | none ↦ fired
      | some w ↦ conclude waiter (rejected (operation_timed_out num)) (clear_pending num fired)
    ]

-- What a packet of operation `op` says: a status (1), or data.
unfoldable pub answer_of : (op : ℕ) → Bytes → Result Failure Outcome
answer_of op payload =
    if op == 1
    then guard (leb 8 (length payload)) short_status >> ok (resolved (read_le 8 payload 0) [])
    else ok (resolved 0 payload)

-- `_isCurrentReader`
unfoldable pub is_current_reader : ℕ → Demux → Bool
is_current_reader socket d = not d.stopped && is_socket socket d.reader_socket

unfoldable pub remove : ℕ → List ℕ → List ℕ
remove socket [] = []
remove socket (s ∷ rest) = let more = remove socket rest in if s == socket then rest else s ∷ more

-- A reader loop ends: `finally` of `_runReaderLoop`.
unfoldable pub finish_reader : ℕ → Demux → Demux
finish_reader socket d = record d {
  reader_active = if is_socket socket d.reader_socket then false else d.reader_active;
  readers = remove socket d.readers;
}

-- An error in the reader loop: the `catch` blocks of `_readerLoop` and `_runReaderLoop`.
unfoldable pub fail_reader : ℕ → Failure → Demux → Demux
fail_reader socket failure d =
    finish_reader socket (if is_current_reader socket d then fail_pending failure true d else d)

-- The body of the reader loop, behind the reads.
unfoldable pub route : (num op : ℕ) → Bytes → Demux → Result Failure Demux
route num op payload d = do
  outcome ← answer_of op payload
  ok (elim (find num d.pending) [ none ↦ d | some w ↦ settle w outcome (clear_pending num d) ])

-- `sendAndWait` under the lock, up to the first write.
unfoldable pub begin_send : Demux → Demux
begin_send d =
    let num = d.packet_num in
    record (register_pending num (record d { packet_num = suc num })) {
      sending = some (num, d.waiters);
    }

-- The writes are done, and the callback returns the waiter; or they failed, and it throws.
unfoldable pub end_send : (sent : Bool) → (num waiter : ℕ) → Demux → Demux
end_send sent num waiter d =
    let done = record d { sending = none } in
    if sent then record done { returned = some waiter } else clear_pending num done

unfoldable pub is_settled : ℕ → List (ℕ × Outcome) → Bool
is_settled waiter [] = false
is_settled waiter ((w, outcome) ∷ rest) = (w == waiter) || is_settled waiter rest

-- Whether the send lock is held: while a packet is sent, and until the waiter that the callback
-- returned is settled, since the promise of an async function follows the one it returns.
abbrev pub is_locked : Option (ℕ × ℕ) → Option ℕ → List (ℕ × Outcome) → Bool
is_locked (some s) returned settled = true
is_locked none none settled = false
is_locked none (some waiter) settled = not (is_settled waiter settled)

-- What happens to a demultiplexer: a call has a socket, a call has the lock, the writes end, a timer
-- fires, a reader loop has read a packet, fails or sees that it is over, and the service calls.
pub data Event : Type 0 where
  connected : (socket : ℕ) → Event
  locked : Event
  written : (sent : Bool) → Event
  fired : (num waiter : ℕ) → Event
  packet : (socket num op : ℕ) → Bytes → Event
  failed : (socket error : ℕ) → Event
  ended : (socket : ℕ) → Event
  stop_called reset_called : Event

-- An event that cannot happen in a state leaves it.
unfoldable pub step : Demux → Event → Demux
step d (connected socket) = elim (ensure_reader_started socket d) [
  | ok d' ↦ d'
  | err e ↦ d
  | stuck ↦ d
]
step d locked = if is_locked d.sending d.returned d.settled then d else begin_send d
step d (written sent) = elim d.sending [ none ↦ d | some s ↦ end_send sent s.0 s.1 d ]
step d (fired num waiter) = if has_timer num waiter d.timers then on_timeout num waiter d else d
step d (packet socket num op payload) = elim (route num op payload d) [
  | ok d' ↦ d'
  | err failure ↦ fail_reader socket failure d
  | stuck ↦ d
]
step d (failed socket error) = fail_reader socket (reader_error error) d
step d (ended socket) = finish_reader socket d
step d stop_called = stop d
step d reset_called = reset_for_new_socket d

unfoldable pub run : Demux → List Event → Demux
run d [] = d
run d (event ∷ events) = run (step d event) events
