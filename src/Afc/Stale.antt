-- ===== src/Afc/Stale.antt =====
-- A timer in src/services/ios/afc/demux.ts that a failed write leaves behind.
use appium_ios_remotexpc.Prelude.{
  ℕ, ◌≤◌, ◌≡◌, refl, sym, ap, ◌∙◌, ◌≢◌, inl, inr, Bool, true, false, Option, none, some, [], ◌∷◌,
  arith, ◌==◌, if◌then◌else◌, ne→==, Bool-cases,
}
use appium_ios_remotexpc.Afc.Demux.{
  Table, rejected, operation_timed_out, Demux, find, delete, clear_timeout, has_timer, conclude,
  clear_pending, on_timeout, fired, step,
}
use appium_ios_remotexpc.Afc.Tables.{
  hit, tally, key, settled_waiter, tally-append, hit-true, find_there, delete_here, delete_there,
}

tally-find-delete : (num : ℕ) (xs : Table) → tally key num xs ≤ 1 → find num (delete num xs) ≡ none
unfolding find delete
tally-find-delete num [] h = refl
tally-find-delete num ((n, v) ∷ xs) h = elim (Bool-cases (n == num)) [
  | inl same ↦
      ap (find num) (delete_here num n v xs same) ∙ absent xs (omega (arith, h, hit-true same))
  | inr other ↦
      ap (find num) (delete_there num n v xs other)
      ∙ find_there num n v (delete num xs) other
      ∙ tally-find-delete num xs (omega (arith, h))
]
  where
    absent : (ys : Table) → tally key num ys ≡ 0 → find num ys ≡ none
    absent [] k = refl
    absent ((m, u) ∷ ys) k = elim (Bool-cases (m == num)) [
      | inl same ↦ absurd (omega (arith, k, hit-true same))
      | inr other ↦ find_there num m u ys other ∙ absent ys (omega (arith, k))
    ]

-- The state in which a timer that finds an entry leaves.
abbrev taken : (num waiter : ℕ) → Demux → Demux
taken num waiter d =
    conclude waiter (rejected (operation_timed_out num))
      (clear_pending num (record d { timers = clear_timeout waiter d.timers }))

fired-found :
    (d : Demux) (num waiter w : ℕ)
    → find num d.pending ≡ some w
    → has_timer num waiter d.timers ≡ true
    → step d (fired num waiter) ≡ taken num waiter d
unfolding step on_timeout
fired-found d num waiter w f t = ap (λ b. if b then on_timeout num waiter d else d) t ∙ ap after f
  where
    after : Option ℕ → Demux
    after r = elim r [
      | none ↦ record d { timers = clear_timeout waiter d.timers }
      | some v ↦ taken num waiter d
    ]

fired-absent :
    (d : Demux) (num waiter : ℕ)
    → find num d.pending ≡ none
    → (step d (fired num waiter)).settled ≡ d.settled
unfolding step on_timeout
fired-absent d num waiter f = go (has_timer num waiter d.timers)
  where
    after : Option ℕ → Demux
    after r = elim r [
      | none ↦ record d { timers = clear_timeout waiter d.timers }
      | some v ↦ taken num waiter d
    ]

    go : (b : Bool) → (if b then on_timeout num waiter d else d).settled ≡ d.settled
    go true = ap (λ r. (after r).settled) f
    go false = refl

-- In any state in which a timer of one request runs and another request is pending under the same
-- packet number, which no third one has: when that timer fires, the pending request is taken out
-- without being settled, and when its own timer fires after that, it is not settled either.
pub fired-drops :
    (d : Demux) (num old w : ℕ)
    → find num d.pending ≡ some w
    → tally key num d.pending ≤ 1
    → has_timer num old d.timers ≡ true
    → w ≢ old
    → (find num (step d (fired num old)).pending ≡ none)
      × (tally settled_waiter w (step d (fired num old)).settled ≡ tally settled_waiter w d.settled)
      × (tally settled_waiter w (step (step d (fired num old)) (fired num w)).settled
          ≡ tally settled_waiter w d.settled)
unfolding conclude clear_pending
fired-drops d num old w f k t ne =
    let left = fired-found d num old w f t in
    let gone : find num (step d (fired num old)).pending ≡ none =
      ap (λ x. find num x.pending) left ∙ tally-find-delete num d.pending k in
    let kept : tally settled_waiter w (step d (fired num old)).settled
        ≡ tally settled_waiter w d.settled =
      ap (λ x. tally settled_waiter w x.settled) left
      ∙ omega (
        arith,
        tally-append settled_waiter w d.settled ((old, rejected (operation_timed_out num)) ∷ []),
        ap hit (ne→== old w (λ e. ne (sym e))),
      ) in
    (
      gone,
      kept,
      ap (tally settled_waiter w) (fired-absent (step d (fired num old)) num w gone) ∙ kept,
    )
