-- ===== src/Afc/Routing.antt =====
-- Which packet resolves which request in src/services/ios/afc/demux.ts.
use appium_ios_remotexpc.Prelude.{
  ℕ, suc, ◌≡◌, refl, sym, ap, ◌∙◌, inl, inr, Bool, true, false, some, [], ◌∷◌, ◌==◌, ==→eq,
  Bool-cases, All, All-append,
}
use appium_ios_remotexpc.Prelude.Result.{ok}
use mathlib.Core.Path.{subst}
use appium_ios_remotexpc.Afc.Demux.{
  Table, Outcome, rejected, Failure, Demux, find, delete, set, clear_timeout, conclude, settle,
  reject_all, fail_pending, register_pending, clear_pending, answer_of, begin_send, Event,
  connected, locked, written, fired, packet, failed, ended, stop_called, reset_called,
}
use appium_ios_remotexpc.Afc.Tables.{find_here, find_there}

-- Requests have the packet numbers in which they were created, and what was settled is allowed.
pub record Tracks (P : ℕ × Outcome → Type 0) (d : Demux) : Type 0 where
  pub own_number : All (λ e. e.0 ≡ e.1) d.pending
  pub counted : d.packet_num ≡ d.waiters
  pub allowed : All P d.settled

pub find-own : (num w : ℕ) (xs : Table) → All (λ e. e.0 ≡ e.1) xs → find num xs ≡ some w → num ≡ w
unfolding find
find-own num w [] h f = cc
find-own num w ((n, v) ∷ xs) h f = elim (Bool-cases (n == num)) [
  | inl same ↦
      let e = sym (find_here num n v xs same) ∙ f in
      let v_is_w : v ≡ w = cc in sym (==→eq n num same) ∙ h.0 ∙ v_is_w
  | inr other ↦ find-own num w xs h.1 (sym (find_there num n v xs other) ∙ f)
]

delete-own : (num : ℕ) (xs : Table) → All (λ e. e.0 ≡ e.1) xs → All (λ e. e.0 ≡ e.1) (delete num xs)
unfolding delete
delete-own num [] h = tt
delete-own num ((n, v) ∷ xs) h = elim (Bool-cases (n == num)) [
  | inl same ↦ rw same (h.1)
  | inr other ↦ rw other (h.0, delete-own num xs h.1)
]

set-own : (num : ℕ) (xs : Table) → All (λ e. e.0 ≡ e.1) xs → All (λ e. e.0 ≡ e.1) (set num num xs)
unfolding set
set-own num [] h = (refl, tt)
set-own num ((n, v) ∷ xs) h = elim (Bool-cases (n == num)) [
  | inl same ↦ rw same (refl, h.1)
  | inr other ↦ rw other (h.0, set-own num xs h.1)
]

module _ (P : ℕ × Outcome → Type 0) (rejects : (w : ℕ) (f : Failure) → P (w, rejected f)) where
  -- What an event may settle.
  abbrev pub Allows : Event → Type 0
  Allows (packet socket num op payload) =
      (outcome : Outcome) → answer_of op payload ≡ ok outcome → P (num, outcome)
  Allows reset_called = ⊥
  Allows (connected socket) = Unit {0}
  Allows locked = Unit {0}
  Allows (written sent) = Unit {0}
  Allows (fired num w) = Unit {0}
  Allows (failed socket error) = Unit {0}
  Allows (ended socket) = Unit {0}
  Allows stop_called = Unit {0}

  pub conclude-Tracks :
      (w : ℕ) (outcome : Outcome) (d : Demux)
      → P (w, outcome)
      → Tracks P d
      → Tracks P (conclude w outcome d)
  unfolding conclude
  conclude-Tracks w outcome d a t = record {
    own_number = t.own_number;
    counted = t.counted;
    allowed = All-append P d.settled ((w, outcome) ∷ []) t.allowed (a, tt);
  }

  -- Other fields do not matter.
  pub same-Tracks :
      (d d' : Demux)
      → d'.pending ≡ d.pending
      → d'.packet_num ≡ d.packet_num
      → d'.waiters ≡ d.waiters
      → d'.settled ≡ d.settled
      → Tracks P d
      → Tracks P d'
  same-Tracks d d' p n w s t = record {
    own_number = subst (All (λ e. e.0 ≡ e.1)) (sym p) t.own_number;
    counted = n ∙ t.counted ∙ sym w;
    allowed = subst (All P) (sym s) t.allowed;
  }

  pub clear_pending-Tracks : (num : ℕ) (d : Demux) → Tracks P d → Tracks P (clear_pending num d)
  unfolding clear_pending
  clear_pending-Tracks num d t = record {
    own_number = delete-own num d.pending t.own_number;
    counted = t.counted;
    allowed = t.allowed;
  }

  pub settle-Tracks :
      (w : ℕ) (outcome : Outcome) (d : Demux)
      → P (w, outcome)
      → Tracks P d
      → Tracks P (settle w outcome d)
  unfolding settle
  settle-Tracks w outcome d a t =
      conclude-Tracks w outcome (record d { timers = clear_timeout w d.timers }) a
        (same-Tracks d (record d { timers = clear_timeout w d.timers }) refl refl refl refl t)

  pub reject_all-Tracks :
      (failure : Failure) (table : Table) (d : Demux)
      → Tracks P d
      → Tracks P (reject_all failure table d)
  unfolding reject_all
  reject_all-Tracks failure [] d t = t
  reject_all-Tracks failure ((n, w) ∷ table) d t =
      reject_all-Tracks failure table (settle w (rejected failure) d)
        (settle-Tracks w (rejected failure) d (rejects w failure) t)

  pub fail_pending-Tracks :
      (failure : Failure) (notify : Bool) (d : Demux)
      → Tracks P d
      → Tracks P (fail_pending failure notify d)
  unfolding fail_pending
  fail_pending-Tracks failure notify d t = go notify
    where
      all : Demux
      all = reject_all failure d.pending d

      cleared : Tracks P (record all { pending = [] })
      cleared =
          let r = reject_all-Tracks failure d.pending d t in
          record { own_number = tt; counted = r.counted; allowed = r.allowed }

      go : (b : Bool) → Tracks P (fail_pending failure b d)
      go true = same-Tracks (record all { pending = [] }) _ refl refl refl refl cleared
      go false = cleared

  pub begin_send-Tracks : (d : Demux) → Tracks P d → Tracks P (begin_send d)
  unfolding begin_send register_pending
  begin_send-Tracks d t = record {
    own_number =
        subst (λ w. All (λ e. e.0 ≡ e.1) (set d.packet_num w d.pending)) t.counted
          (set-own d.packet_num d.pending t.own_number);
    counted = ap suc t.counted;
    allowed = t.allowed;
  }
