-- ===== src/Afc/Reads.antt =====
-- The buffered reader of a socket in src/services/ios/afc/codec.ts (`SocketState`, `readExact`), and
-- the lists of texts.
use appium_ios_remotexpc.Prelude.{
  ℕ, ◌<◌, ◌≡◌, refl, sym, ap, ◌∙◌, inl, inr, Bool, true, false, not, List, [], ◌∷◌, ◌++◌, map,
  append-nil, append_assoc, arith, leb, if◌then◌else◌, Bool-cases, length, take, drop, length-drop,
  take-append-drop,
}
use appium_ios_remotexpc.Prelude.Bytes.{Bytes}

-- The bytes not yet read, how many bytes each waiting read wants, and whether the socket is usable.
pub record SocketState : Type 0 where
  pub buffer : Bytes
  pub waiters : List ℕ
  pub usable : Bool

-- How a read ends: with its bytes or with an error.
pub data Answer : Type 0 where
  resolved : Bytes → Answer
  rejected : Answer

abbrev pub fresh : SocketState
fresh = record { buffer = []; waiters = []; usable = true }

-- The loop of `onData`: waiters are served in order while there are bytes enough for the first.
unfoldable pub serve : Bytes → List ℕ → Bytes × (List ℕ × List Answer)
serve buffer [] = (buffer, ([], []))
serve buffer (n ∷ waiters) =
    let (left, (waiting, answers)) = serve (drop n buffer) waiters in
    if leb n (length buffer)
    then (left, (waiting, resolved (take n buffer) ∷ answers))
    else (buffer, (n ∷ waiters, []))

-- `onData`; nothing once the state is gone.
unfoldable pub on_data : SocketState → Bytes → SocketState × List Answer
on_data s chunk =
    let (left, (waiting, answers)) = serve (s.buffer ++ chunk) s.waiters in
    if s.usable then (record s { buffer = left; waiters = waiting }, answers) else (s, [])

-- `readExact`: at once if there are bytes enough, also before reads that wait.
unfoldable pub read_exact : SocketState → ℕ → SocketState × List Answer
read_exact s n =
    if not s.usable
    then (s, rejected ∷ [])
    else if leb n (length s.buffer)
    then (record s { buffer = drop n s.buffer }, resolved (take n s.buffer) ∷ [])
    else (record s { waiters = s.waiters ++ (n ∷ []) }, [])

-- `fatalizeAfcSocket` and `cleanupSocketState`: every waiting read is rejected.
unfoldable pub fatalize : SocketState → SocketState × List Answer
fatalize s = (record { buffer = []; waiters = []; usable = false }, map (λ n. rejected) s.waiters)

pub data Event : Type 0 where
  arrives : Bytes → Event
  wants : ℕ → Event

unfoldable pub step : SocketState → Event → SocketState × List Answer
step s (arrives chunk) = on_data s chunk
step s (wants n) = read_exact s n

unfoldable pub run : SocketState → List Event → SocketState × List Answer
run s [] = (s, [])
run s (e ∷ events) =
    let (s', answers) = step s e in let (s'', more) = run s' events in (s'', answers ++ more)

-- The bytes that reads got, and those that arrived.
abbrev pub answered : List Answer → Bytes
answered [] = []
answered (resolved b ∷ answers) = b ++ answered answers
answered (rejected ∷ answers) = answered answers

abbrev pub arrived : List Event → Bytes
arrived [] = []
arrived (arrives b ∷ events) = b ++ arrived events
arrived (wants n ∷ events) = arrived events

-- The first waiter wants more than there is.
abbrev pub Starved : Bytes → List ℕ → Type 0
Starved b [] = Unit {0}
Starved b (n ∷ ns) = length b < n

serve-bytes : (b : Bytes) (ws : List ℕ) → answered (serve b ws).1.1 ++ (serve b ws).0 ≡ b
unfolding serve
serve-bytes b [] = refl
serve-bytes b (n ∷ ws) = elim (Bool-cases (leb n (length b))) [
  | inl e ↦ rw e (served (serve-bytes (drop n b) ws))
  | inr e ↦ rw e
]
  where
    served :
        answered (serve (drop n b) ws).1.1 ++ (serve (drop n b) ws).0 ≡ drop n b
        → (take n b ++ answered (serve (drop n b) ws).1.1) ++ (serve (drop n b) ws).0 ≡ b
    served ih =
        append_assoc (take n b) (answered (serve (drop n b) ws).1.1) (serve (drop n b) ws).0
        ∙ ap (λ t. take n b ++ t) ih
        ∙ take-append-drop n b

leb→gt : (a b : ℕ) → leb a b ≡ false → b < a
leb→gt a b h = ground arith

serve-Starved : (b : Bytes) (ws : List ℕ) → Starved (serve b ws).0 (serve b ws).1.0
unfolding serve
serve-Starved b [] = tt
serve-Starved b (n ∷ ws) = elim (Bool-cases (leb n (length b))) [
  | inl e ↦ rw e (serve-Starved (drop n b) ws)
  | inr e ↦ rw e (leb→gt n (length b) e)
]

answered-append : (xs ys : List Answer) → answered (xs ++ ys) ≡ answered xs ++ answered ys
answered-append [] ys = refl
answered-append (resolved b ∷ xs) ys =
    ap (λ t. b ++ t) (answered-append xs ys) ∙ sym (append_assoc b (answered xs) (answered ys))
answered-append (rejected ∷ xs) ys = answered-append xs ys

-- The state of a socket that works: the first waiter wants more than there is.
pub record IsOpen (s : SocketState) : Type 0 where
  pub works : s.usable ≡ true
  pub starved : Starved s.buffer s.waiters

-- What a step does to an open socket.
record Steps (s : SocketState) (arrived : Bytes) (out : SocketState × List Answer) : Type 0 where
  still : IsOpen out.0
  bytes : answered out.1 ++ out.0.buffer ≡ s.buffer ++ arrived

Starved-append :
    (b : Bytes) (ws : List ℕ) (n : ℕ) → Starved b ws → length b < n → Starved b (ws ++ (n ∷ []))
Starved-append b [] n h k = k
Starved-append b (w ∷ ws) n h k = h

read_exact-Steps : (s : SocketState) (n : ℕ) → IsOpen s → Steps s [] (read_exact s n)
unfolding read_exact
read_exact-Steps s n v = elim (Bool-cases (leb n (length s.buffer))) [
  | inl e ↦
      rw (v.works, e)
        (record {
          still = record { works = refl; starved = shorter s.waiters v.starved };
          bytes =
              ap (λ t. t ++ drop n s.buffer) (append-nil (take n s.buffer))
              ∙ take-append-drop n s.buffer
              ∙ sym (append-nil s.buffer);
        })
  | inr e ↦
      rw (v.works, e)
        (record {
          still = record {
            works = refl;
            starved = Starved-append s.buffer s.waiters n v.starved (leb→gt n (length s.buffer) e);
          };
          bytes = sym (append-nil s.buffer);
        })
]
  where
    shorter : (ws : List ℕ) → Starved s.buffer ws → Starved (drop n s.buffer) ws
    shorter [] h = tt
    shorter (w ∷ ws) h = omega (arith, length-drop {0} n s.buffer)

on_data-Steps : (s : SocketState) (b : Bytes) → IsOpen s → Steps s b (on_data s b)
unfolding on_data
on_data-Steps s b v = rw v.works (record {
  still = record { works = refl; starved = serve-Starved (s.buffer ++ b) s.waiters };
  bytes = serve-bytes (s.buffer ++ b) s.waiters;
})

step-Steps : (s : SocketState) (e : Event) → IsOpen s → Steps s (arrived (e ∷ [])) (step s e)
unfolding step
step-Steps s (arrives b) v = rw append-nil (on_data-Steps s b v)
step-Steps s (wants n) v = read_exact-Steps s n v

arrived-cons : (e : Event) (es : List Event) → arrived (e ∷ es) ≡ arrived (e ∷ []) ++ arrived es
arrived-cons (arrives b) es = ap (λ t. t ++ arrived es) (sym (append-nil b))
arrived-cons (wants n) es = refl

-- However reads and chunks mix on an open socket, no byte is lost, doubled or overtaken: the bytes
-- that reads got, in the order in which they ended, and then those still buffered are those that
-- were buffered and then those that arrived. And the first waiting read always wants more bytes
-- than are buffered.
pub run-IsOpen :
    (s : SocketState) (events : List Event)
    → IsOpen s
    → IsOpen (run s events).0
      × (answered (run s events).1 ++ (run s events).0.buffer ≡ s.buffer ++ arrived events)
unfolding run
run-IsOpen s [] v = (v, sym (append-nil s.buffer))
run-IsOpen s (e ∷ events) v =
    let first = step-Steps s e v in
    let later = run-IsOpen (step s e).0 events first.still in
    let out = (step s e).1 in
    (
      later.0,
      ap (λ t. t ++ (run (step s e).0 events).0.buffer)
            (answered-append out (run (step s e).0 events).1)
          ∙ append_assoc (answered out) (answered (run (step s e).0 events).1)
              (run (step s e).0 events).0.buffer
          ∙ ap (λ t. answered out ++ t) later.1
          ∙ sym (append_assoc (answered out) (step s e).0.buffer (arrived events))
          ∙ ap (λ t. t ++ arrived events) first.bytes
          ∙ append_assoc s.buffer (arrived (e ∷ [])) (arrived events)
          ∙ ap (λ t. s.buffer ++ t) (sym (arrived-cons e events)),
    )
