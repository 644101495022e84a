-- ===== src/Afc/Balance.antt =====
-- No request of src/services/ios/afc/demux.ts is lost: each one waits or was settled, once.
use appium_ios_remotexpc.Prelude.{
  ℕ, suc, ◌+◌, ◌≤◌, ◌≡◌, refl, sym, ap, ◌∙◌, Bool, true, false, some, [], ◌∷◌, ◌++◌, arith, ltb,
  ◌==◌, if◌then◌else◌, le→ltb, ==-refl,
}
use appium_ios_remotexpc.Afc.Demux.{
  Table, Outcome, rejected, Failure, demux_stopped, socket_replaced, Demux, new_demux, find, set,
  clear_timeout, conclude, settle, reject_all, fail_pending, reset_for_new_socket, stop,
  register_pending, clear_pending, fail_reader, finish_reader, is_current_reader, begin_send,
}
use appium_ios_remotexpc.Afc.Tables.{
  hit, tally, key, waiter, settled_waiter, tally-append, tally-delete, key-delete,
  delete-eq-clear_timeout, set-append,
}

-- The timers are those of the pending requests; packet numbers are used once; and each waiter that
-- was created is pending or settled, once.
pub record Balanced (d : Demux) : Type 0 where
  pub timers_pending : d.timers ≡ d.pending
  pub numbers : (n : ℕ) → tally key n d.pending ≤ hit (ltb n d.packet_num)
  pub once :
      (w : ℕ) → tally settled_waiter w d.settled + tally waiter w d.pending ≡ hit (ltb w d.waiters)

pub hit_le : (b : Bool) → hit b ≤ 1
hit_le true = omega arith
hit_le false = omega arith

pub new_demux-Balanced : Balanced new_demux
new_demux-Balanced = record {
  timers_pending = refl;
  numbers = λ n. omega arith;
  once = λ w. none_below w;
}
  where
    none_below : (w : ℕ) → 0 + 0 ≡ hit (ltb w 0)
    none_below w = ap hit (sym (le→ltb w 0 (omega arith)))

-- A request that is found is settled.
pub settle-Balanced :
    (num w : ℕ) (outcome : Outcome) (d : Demux)
    → Balanced d
    → find num d.pending ≡ some w
    → Balanced (settle w outcome (clear_pending num d))
unfolding settle conclude clear_pending
settle-Balanced num w outcome d b h = record {
  timers_pending =
      ap (clear_timeout w) b.timers_pending
      ∙ sym (
          delete-eq-clear_timeout num w d.pending h
            (omega (arith, b.once w, hit_le (ltb w d.waiters))));
  numbers = λ n. omega (arith, b.numbers n, key-delete num n d.pending);
  once = λ x. omega (
    arith,
    b.once x,
    tally-delete num w x d.pending h,
    tally-append settled_waiter x d.settled ((w, outcome) ∷ []),
  );
}

-- A request that is registered is pending.
ltb-suc : (n m : ℕ) → hit (ltb n (suc m)) ≡ hit (m == n) + hit (ltb n m)
ltb-suc n m = ground arith

pub begin_send-Balanced : (d : Demux) → Balanced d → Balanced (begin_send d)
unfolding begin_send register_pending
begin_send-Balanced d b = record {
  timers_pending = ap (λ t. t ++ ((d.packet_num, d.waiters) ∷ [])) b.timers_pending ∙ sym appended;
  numbers = λ n. omega (
    arith,
    b.numbers n,
    ltb-suc n d.packet_num,
    ap (tally key n) appended,
    tally-append key n d.pending ((d.packet_num, d.waiters) ∷ []),
  );
  once = λ x. omega (
    arith,
    b.once x,
    ltb-suc x d.waiters,
    ap (tally waiter x) appended,
    tally-append waiter x d.pending ((d.packet_num, d.waiters) ∷ []),
  );
}
  where
    fresh : tally key d.packet_num d.pending ≡ 0
    fresh =
        omega
          (arith, b.numbers d.packet_num, ap hit (le→ltb d.packet_num d.packet_num (omega arith)))

    appended : set d.packet_num d.waiters d.pending ≡ d.pending ++ ((d.packet_num, d.waiters) ∷ [])
    appended = set-append d.packet_num d.waiters d.pending fresh

-- All that pend are rejected.
pub record Rejected (d d' : Demux) (table : Table) : Type 0 where
  pub no_timers : d'.timers ≡ []
  pub same_num : d'.packet_num ≡ d.packet_num
  pub same_waiters : d'.waiters ≡ d.waiters
  pub all_settled :
      (w : ℕ)
      → tally settled_waiter w d'.settled ≡ tally settled_waiter w d.settled + tally waiter w table

reject_all-Rejected :
    (failure : Failure) (table : Table) (d : Demux)
    → d.timers ≡ table
    → Rejected d (reject_all failure table d) table
unfolding reject_all settle conclude clear_timeout
reject_all-Rejected failure [] d h = record {
  no_timers = h;
  same_num = refl;
  same_waiters = refl;
  all_settled = λ w. omega arith;
}
reject_all-Rejected failure ((n, w) ∷ table) d h =
    let ih = reject_all-Rejected failure table (settle w (rejected failure) d) cleared in
    record {
      no_timers = ih.no_timers;
      same_num = ih.same_num;
      same_waiters = ih.same_waiters;
      all_settled = λ x. omega (
        arith,
        ih.all_settled x,
        tally-append settled_waiter x d.settled ((w, rejected failure) ∷ []),
      );
    }
  where
    cleared : clear_timeout w d.timers ≡ table
    cleared =
        ap (clear_timeout w) h
        ∙ ap (λ b. if b then table else (n, w) ∷ clear_timeout w table) (==-refl w)

-- The state once all that pended is rejected.
module _ (failure : Failure) (d : Demux) (b : Balanced d) where
  pub rest : Rejected d (reject_all failure d.pending d) d.pending
  rest = reject_all-Rejected failure d.pending d b.timers_pending

  settled_all :
      (w : ℕ)
      → tally settled_waiter w (reject_all failure d.pending d).settled + 0
        ≡ hit (ltb w (reject_all failure d.pending d).waiters)
  settled_all w =
      omega (arith, rest.all_settled w, b.once w, ap (λ k. hit (ltb w k)) rest.same_waiters)

  pub fail_pending-Balanced : (notify : Bool) → Balanced (fail_pending failure notify d)
  unfolding fail_pending
  fail_pending-Balanced true = record {
    timers_pending = rest.no_timers;
    numbers = λ n. omega arith;
    once = settled_all;
  }
  fail_pending-Balanced false = record {
    timers_pending = rest.no_timers;
    numbers = λ n. omega arith;
    once = settled_all;
  }

pub reset-Balanced : (d : Demux) → Balanced d → Balanced (reset_for_new_socket d)
unfolding reset_for_new_socket fail_pending
reset-Balanced d b = record {
  timers_pending = (rest socket_replaced d b).no_timers;
  numbers = λ n. omega arith;
  once = settled_all socket_replaced d b;
}

-- Other fields do not matter.
pub same-Balanced :
    (d d' : Demux)
    → d'.pending ≡ d.pending
    → d'.timers ≡ d.timers
    → d'.packet_num ≡ d.packet_num
    → d'.waiters ≡ d.waiters
    → d'.settled ≡ d.settled
    → Balanced d
    → Balanced d'
same-Balanced d d' p t n w s b = record {
  timers_pending = t ∙ b.timers_pending ∙ sym p;
  numbers = λ k. omega (arith, b.numbers k, ap (tally key k) p, ap (λ m. hit (ltb k m)) n);
  once = λ x. omega (
    arith,
    b.once x,
    ap (tally waiter x) p,
    ap (tally settled_waiter x) s,
    ap (λ m. hit (ltb x m)) w,
  );
}

pub stop-Balanced : (d : Demux) → Balanced d → Balanced (stop d)
unfolding stop
stop-Balanced d b =
    let stopped = record d { stopped = true } in
    same-Balanced (fail_pending demux_stopped false stopped) (stop d) refl refl refl refl refl (
      fail_pending-Balanced demux_stopped stopped
        (same-Balanced d stopped refl refl refl refl refl b) false)

pub finish_reader-Balanced :
    (socket : ℕ) (d : Demux) → Balanced d → Balanced (finish_reader socket d)
unfolding finish_reader
finish_reader-Balanced socket d = same-Balanced d (finish_reader socket d) refl refl refl refl refl

pub fail_reader-Balanced :
    (socket : ℕ) (failure : Failure) (d : Demux)
    → Balanced d
    → Balanced (fail_reader socket failure d)
unfolding fail_reader
fail_reader-Balanced socket failure d b =
    finish_reader-Balanced socket _ (go (is_current_reader socket d))
  where
    go : (c : Bool) → Balanced (if c then fail_pending failure true d else d)
    go true = fail_pending-Balanced failure d b true
    go false = b
