-- ===== src/Splitter/Rounds.antt =====
-- One round of `processBinaryData`: it looks only at bytes that are there, and it takes some.
use appium_ios_remotexpc.Splitter.Process.{Output}
use appium_ios_remotexpc.Splitter.Process.{process_binary_data}
use appium_ios_remotexpc.Prelude.{
  ℕ, zero, suc, ◌+◌, ◌≤◌, ◌<◌, ◌≡◌, refl, sym, ap, ◌∙◌, ◌≢◌, inl, inr, Bool, true, not, Option,
  none, some, ◌++◌, arith, ltb, le→ltb, ltb→le, Bool-cases, length, take, drop, length-append,
  length-drop, take-append, drop-append,
}
use appium_ios_remotexpc.Prelude.Result.{Result, ok, err, stuck, ◌>>=◌}
use appium_ios_remotexpc.Prelude.Bytes.{Bytes}
use appium_ios_remotexpc.Splitter.Process.{
  Options, Error, Action, wait, skip, emit, read_uint, read_length, adjust, other_order,
  plausible_length, take_action, next_action, process_loop, push_message, after_action,
}

read_uint-append :
    (little : Bool) (size offset : ℕ) (a b : Bytes)
    → offset + size ≤ length a
    → read_uint little size offset (a ++ b) ≡ read_uint little size offset a
unfolding read_uint
read_uint-append little size offset a b h = rw (
  drop-append offset a b (omega arith),
  take-append size (drop offset a) b (omega (arith, length-drop {0} offset a)),
)

read_length-append :
    (o : Options) (a b : Bytes)
    → o.field_offset + o.field_length ≤ length a
    → read_length o (a ++ b) ≡ read_length o a
unfolding read_length
read_length-append o a b h = ground (
  arith,
  read_uint-append o.little_endian 4 o.field_offset a b,
  read_uint-append o.little_endian 4 (o.field_offset + 4) a b,
  read_uint-append o.little_endian 2 o.field_offset a b,
  read_uint-append o.little_endian 1 o.field_offset a b,
)

other_order-append :
    (o : Options) (a b : Bytes)
    → o.field_offset + o.field_length ≤ length a
    → other_order o (a ++ b) ≡ other_order o a
unfolding other_order
other_order-append o a b h =
    ground (arith, read_uint-append (not o.little_endian) 4 o.field_offset a b)

plausible_length-append :
    (o : Options) (a b : Bytes) (n : Option ℕ)
    → o.field_offset + o.field_length ≤ length a
    → plausible_length o (a ++ b) n ≡ plausible_length o a n
unfolding plausible_length
plausible_length-append o a b none h = other_order-append o a b h
plausible_length-append o a b (some n) h = rw (other_order-append o a b h)

-- Bytes behind those that a round looked at do not change what it does, unless it waits.
take_action-append :
    (o : Options) (a b : Bytes) (n : Option ℕ)
    → take_action o a n ≢ wait
    → take_action o (a ++ b) n ≡ take_action o a n
unfolding take_action
take_action-append o a b none h = refl
take_action-append o a b (some n) h = ground (arith, length-append a b)

-- The part of a round behind the check for a length field, on the result of reading it.
act : Options → Bytes → Result Error ℕ → Result Error Action
act o a r = r >>= λ n. ok (take_action o a (plausible_length o a (adjust n o.adjustment)))

act-append :
    (o : Options) (a b : Bytes) (r : Result Error ℕ)
    → o.field_offset + o.field_length ≤ length a
    → act o a r ≢ ok wait
    → act o (a ++ b) r ≡ act o a r
unfolding act
act-append o a b (ok n) h k = rw (plausible_length-append o a b (adjust n o.adjustment) h) (
    ap ok
      (take_action-append o a b (plausible_length o a (adjust n o.adjustment)) (λ e. k (ap ok e))))
act-append o a b (err e) h k = refl
act-append o a b stuck h k = refl

next_action_enough :
    (o : Options) (a : Bytes)
    → o.field_offset + o.field_length ≤ length a
    → next_action o a ≡ act o a (read_length o a)
unfolding next_action act
next_action_enough o a h = rw (le→ltb (length a) (o.field_offset + o.field_length) h)

pub next_action-append :
    (o : Options) (a b : Bytes)
    → next_action o a ≢ ok wait
    → next_action o (a ++ b) ≡ next_action o a
next_action-append o a b h = elim (Bool-cases (ltb (length a) (o.field_offset + o.field_length))) [
  | inl short ↦ absurd (h (unfold next_action in rw short))
  | inr enough ↦ found (ltb→le _ _ enough)
]
  where
    found : o.field_offset + o.field_length ≤ length a → next_action o (a ++ b) ≡ next_action o a
    found le =
        next_action_enough o (a ++ b) (omega (arith, length-append {0} a b))
        ∙ ap (act o (a ++ b)) (read_length-append o a b le)
        ∙ act-append o a b (read_length o a) le (λ e. h (next_action_enough o a le ∙ e))
        ∙ sym (next_action_enough o a le)

-- Where a round does not wait, the bytes that it takes are there, and there is one at least.
abbrev pub Takes : Options → Bytes → Action → Type 0
Takes o a wait = Unit {0}
Takes o a skip = 0 < length a
Takes o a (emit n) = (0 < n) × (n ≤ length a) × (o.field_offset + o.field_length ≤ n)

read_length_pos : (o : Options) (a : Bytes) (n : ℕ) → read_length o a ≡ ok n → 0 < o.field_length
unfolding read_length
read_length_pos o a n e = ground arith

take_action-Takes :
    (o : Options) (a : Bytes) (n : Option ℕ)
    → o.field_offset + o.field_length ≤ length a
    → 0 < o.field_length
    → Takes o a (take_action o a n)
unfolding take_action
take_action-Takes o a none h p = omega arith
take_action-Takes o a (some n) h p =
    elim (Bool-cases (ltb (length a) (o.field_offset + o.field_length + n))) [
      | inl short ↦ rw short tt
      | inr enough ↦ rw enough (omega (arith, ltb→le _ _ enough))
    ]

act-Takes :
    (o : Options) (a : Bytes) (r : Result Error ℕ) (action : Action)
    → o.field_offset + o.field_length ≤ length a
    → ((n : ℕ) → r ≡ ok n → 0 < o.field_length)
    → act o a r ≡ ok action
    → Takes o a action
unfolding act
act-Takes o a (ok n) action h p e =
    let found = take_action o a (plausible_length o a (adjust n o.adjustment)) in
    let same : found ≡ action = cc in
    rw same at (take_action-Takes o a (plausible_length o a (adjust n o.adjustment)) h (p n refl))
act-Takes o a (err x) action h p e = cc
act-Takes o a stuck action h p e = cc

pub next_action-Takes :
    (o : Options) (a : Bytes) (action : Action) → next_action o a ≡ ok action → Takes o a action
next_action-Takes o a action e =
    elim (Bool-cases (ltb (length a) (o.field_offset + o.field_length))) [
      | inl short ↦ waits action short e
      | inr enough ↦
          act-Takes o a (read_length o a) action (ltb→le _ _ enough) (read_length_pos o a)
            (sym (next_action_enough o a (ltb→le _ _ enough)) ∙ e)
    ]
  where
    waits :
        (action : Action)
        → ltb (length a) (o.field_offset + o.field_length) ≡ true
        → next_action o a ≡ ok action
        → Takes o a action
    waits wait short e = tt
    waits skip short e = absurd (unfold next_action in cc (rw short at e))
    waits (emit n) short e = absurd (unfold next_action in cc (rw short at e))

next_action-ne-stuck : (o : Options) (a : Bytes) → next_action o a ≢ stuck
unfolding next_action read_length
next_action-ne-stuck o a = ground arith

-- The loop, without fuel: a step at a time.
pub process_loop-fuel :
    (f g : ℕ) (o : Options) (b : Bytes)
    → length b < f
    → length b < g
    → process_loop f o b ≡ process_loop g o b
unfolding process_loop
process_loop-fuel zero g o b hf hg = absurd (omega arith)
process_loop-fuel (suc f) zero o b hf hg = absurd (omega arith)
process_loop-fuel (suc f) (suc g) o b hf hg =
    go (process_loop-fuel f g o) (next_action o b) (next_action-Takes o b)
  where
    go :
        ((b : Bytes) → length b < f → length b < g → process_loop f o b ≡ process_loop g o b)
        → (r : Result Error Action) → ((action : Action) → r ≡ ok action → Takes o b action)
        → (r >>= after_action (process_loop f o) b) ≡ (r >>= after_action (process_loop g o) b)
    go ih (ok wait) t = refl
    go ih (ok skip) t =
        ih (drop 1 b) (omega (arith, t skip refl, length-drop {0} 1 b))
          (omega (arith, t skip refl, length-drop {0} 1 b))
    go ih (ok (emit n)) t =
        ap (λ r. r >>= λ out. ok (push_message (take n b) out))
          (ih (drop n b) (omega (arith, t (emit n) refl, length-drop {0} n b))
            (omega (arith, t (emit n) refl, length-drop {0} n b)))
    go ih (err e) t = refl
    go ih stuck t = refl

-- `processBinaryData` as an equation without fuel.
pub process_binary_data_step :
    (o : Options) (b : Bytes)
    → process_binary_data o b ≡ (next_action o b >>= after_action (process_binary_data o) b)
unfolding process_binary_data process_loop
process_binary_data_step o b = go (next_action o b) (next_action-Takes o b)
  where
    go :
        (r : Result Error Action)
        → ((action : Action) → r ≡ ok action → Takes o b action)
        → (r >>= after_action (process_loop (length b) o) b)
          ≡ (r >>= after_action (λ c. process_loop (suc (length c)) o c) b)
    go (ok wait) t = refl
    go (ok skip) t =
        process_loop-fuel (length b) (suc (length (drop 1 b))) o (drop 1 b)
          (omega (arith, t skip refl, length-drop {0} 1 b)) (omega arith)
    go (ok (emit n)) t =
        ap (λ r. r >>= λ out. ok (push_message (take n b) out))
          (process_loop-fuel (length b) (suc (length (drop n b))) o (drop n b)
            (omega (arith, t (emit n) refl, length-drop {0} n b)) (omega arith))
    go (err e) t = refl
    go stuck t = refl

process_loop-ne-stuck :
    (f : ℕ) (o : Options) (b : Bytes) → length b < f → process_loop f o b ≢ stuck
unfolding process_loop
process_loop-ne-stuck zero o b h = absurd (omega arith)
process_loop-ne-stuck (suc f) o b h =
    go (process_loop-ne-stuck f o) (next_action o b) (next_action-Takes o b)
      (next_action-ne-stuck o b)
  where
    pushed :
        (r : Result Error Output) (m : Bytes)
        → r ≢ stuck
        → (r >>= λ out. ok (push_message m out)) ≢ stuck
    pushed (ok out) m h e = cc
    pushed (err x) m h e = cc
    pushed stuck m h e = h refl

    go :
        ((c : Bytes) → length c < f → process_loop f o c ≢ stuck)
        → (r : Result Error Action) → ((action : Action) → r ≡ ok action → Takes o b action)
        → r ≢ stuck
        → (r >>= after_action (process_loop f o) b) ≢ stuck
    go ih (ok wait) t n = λ e. cc
    go ih (ok skip) t n = ih (drop 1 b) (omega (arith, t skip refl, length-drop {0} 1 b))
    go ih (ok (emit n)) t ne =
        pushed (process_loop f o (drop n b)) (take n b)
          (ih (drop n b) (omega (arith, t (emit n) refl, length-drop {0} n b)))
    go ih (err x) t n = λ e. cc
    go ih stuck t n = λ e. n refl

-- The `while` loop of `processBinaryData` ends on every buffer and under all options.
pub process_binary_data-ne-stuck : (o : Options) (b : Bytes) → process_binary_data o b ≢ stuck
unfolding process_binary_data
process_binary_data-ne-stuck o b = process_loop-ne-stuck (suc (length b)) o b (omega arith)
