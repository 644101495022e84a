-- ===== src/Afc/Answers.antt =====
-- What a request of src/services/ios/afc/demux.ts is resolved with.
use appium_ios_remotexpc.Prelude.{inr}
use appium_ios_remotexpc.Afc.Demux.{new_demux}
use appium_ios_remotexpc.Prelude.{inl}
use appium_ios_remotexpc.Prelude.{ℕ, ◌≡◌, refl, ◌⊎◌, List, [], ◌∷◌, All}
use appium_ios_remotexpc.Prelude.Result.{ok}
use appium_ios_remotexpc.Afc.Demux.{
  Outcome, resolved, rejected, Failure, answer_of, Event, connected, locked, written, fired, packet,
  failed, ended, stop_called, reset_called, run,
}
use appium_ios_remotexpc.Afc.Routing.{Allows}
use appium_ios_remotexpc.Afc.Tracking.{run-Tracks}

-- A packet with the number `w` whose content is `outcome`.
abbrev pub Carries : ℕ → Outcome → Event → Type 0
Carries w outcome (packet socket num op payload) = (num ≡ w) × (answer_of op payload ≡ ok outcome)
Carries w outcome event = ⊥

abbrev pub Some : (Event → Type 0) → List Event → Type 0
Some P [] = ⊥
Some P (e ∷ es) = P e ⊎ Some P es

-- What settled a request: a packet of its own number, or an error.
abbrev pub IsAnswer : List Event → ℕ × Outcome → Type 0
IsAnswer events (w, resolved status payload) = Some (Carries w (resolved status payload)) events
IsAnswer events (w, rejected failure) = Unit {0}

abbrev pub IsKept : Event → Type 0
IsKept reset_called = ⊥
IsKept (connected socket) = Unit {0}
IsKept locked = Unit {0}
IsKept (written sent) = Unit {0}
IsKept (fired num w) = Unit {0}
IsKept (packet socket num op payload) = Unit {0}
IsKept (failed socket error) = Unit {0}
IsKept (ended socket) = Unit {0}
IsKept stop_called = Unit {0}

errors : (events : List Event) (w : ℕ) (f : Failure) → IsAnswer events (w, rejected f)
errors events w f = tt

-- Each event of a run may settle what it settles.
allows :
    (es events : List Event)
    → ((Q : Event → Type 0) → Some Q es → Some Q events)
    → All IsKept es
    → All (Allows (IsAnswer events) (errors events)) es
allows [] events embed k = tt
allows (e ∷ es) events embed k =
    (here e k.0 (λ Q q. embed Q (inl q)), allows es events (λ Q q. embed Q (inr q)) k.1)
  where
    here :
        (e : Event)
        → IsKept e
        → ((Q : Event → Type 0) → Q e → Some Q events)
        → Allows (IsAnswer events) (errors events) e
    here (packet socket num op payload) k found = λ outcome h. answered outcome h
      where
        answered :
            (outcome : Outcome) → answer_of op payload ≡ ok outcome → IsAnswer events (num, outcome)
        answered (resolved status data') h = found (Carries num (resolved status data')) (refl, h)
        answered (rejected f) h = tt
    here reset_called k found = k
    here (connected socket) k found = tt
    here locked k found = tt
    here (written sent) k found = tt
    here (fired num w) k found = tt
    here (failed socket error) k found = tt
    here (ended socket) k found = tt
    here stop_called k found = tt

-- Whatever happens to a new demultiplexer that is not reset, failing writes, timeouts and stops
-- included: a request that was resolved got the content of a packet that arrived with the number of
-- this request, and the next request is sent with its own number.
pub run-IsAnswer :
    (events : List Event)
    → All IsKept events
    → All (IsAnswer events) (run new_demux events).settled
      × ((run new_demux events).packet_num ≡ (run new_demux events).waiters)
run-IsAnswer events k =
    let t =
      run-Tracks (IsAnswer events) (errors events) new_demux events
        (allows events events (λ Q q. q) k)
        (record { own_number = tt; counted = refl; allowed = tt }) in
    (t.allowed, t.counted)
