-- ===== src/Splitter/Chunks.antt =====
-- The messages do not depend on how the stream was cut into chunks.
use appium_ios_remotexpc.Prelude.{append_assoc}
use mathlib.Core.Path.{fun_ext}
use appium_ios_remotexpc.Prelude.{concat}
use appium_ios_remotexpc.Prelude.{List}
use appium_ios_remotexpc.Prelude.{append-nil}
use appium_ios_remotexpc.Splitter.Process.{transform}
use appium_ios_remotexpc.Prelude.{ap}
use appium_ios_remotexpc.Splitter.Process.{feed}
use appium_ios_remotexpc.Prelude.{
  ℕ, zero, suc, ◌<◌, ◌≡◌, refl, sym, ◌∙◌, [], ◌∷◌, ◌++◌, arith, length, take, drop, length-drop,
  take-append, drop-append,
}
use appium_ios_remotexpc.Prelude.Result.{Result, ok, err, stuck, ◌>>=◌}
use appium_ios_remotexpc.Prelude.Bytes.{Bytes}
use appium_ios_remotexpc.Splitter.Process.{
  Options, Error, Action, wait, skip, emit, next_action, after_action, process_binary_data,
  push_message, Output,
}
use appium_ios_remotexpc.Splitter.Rounds.{
  Takes, next_action-append, next_action-Takes, process_binary_data_step,
}

-- What is processed later comes behind what has been pushed.
abbrev then_process : Options → Bytes → Output → Result Error Output
then_process o b (messages, rest) =
    process_binary_data o (rest ++ b) >>= λ (more, rest'). ok (messages ++ more, rest')

unpushed : (r : Result Error Output) → (r >>= λ (more, rest). ok ([] ++ more, rest)) ≡ r
unpushed (ok out) = refl
unpushed (err e) = refl
unpushed stuck = refl

push_assoc :
    (o : Options) (b m : Bytes) (r : Result Error Output)
    → ((r >>= then_process o b) >>= λ out. ok (push_message m out))
      ≡ ((r >>= λ out. ok (push_message m out)) >>= then_process o b)
push_assoc o b m (ok (ms, rest)) = go (process_binary_data o (rest ++ b))
  where
    go :
        (r : Result Error Output)
        → ((r >>= λ (more, rest'). ok (ms ++ more, rest')) >>= λ out. ok (push_message m out))
          ≡ (r >>= λ (more, rest'). ok (m ∷ (ms ++ more), rest'))
    go (ok out) = refl
    go (err e) = refl
    go stuck = refl
push_assoc o b m (err e) = refl
push_assoc o b m stuck = refl

process-append :
    (k : ℕ) (o : Options) (a b : Bytes)
    → length a < k
    → process_binary_data o (a ++ b) ≡ (process_binary_data o a >>= then_process o b)
process-append zero o a b h = absurd (omega arith)
process-append (suc k) o a b h =
    rw (process_binary_data_step o a)
      (go (process-append k o) (next_action o a) (next_action-Takes o a) refl)
  where
    go :
        ((a b : Bytes)
          → length a < k
          → process_binary_data o (a ++ b) ≡ (process_binary_data o a >>= then_process o b))
        → (r : Result Error Action) → ((action : Action) → r ≡ ok action → Takes o a action)
        → next_action o a ≡ r
        → process_binary_data o (a ++ b)
          ≡ ((r >>= after_action (process_binary_data o) a) >>= then_process o b)
    go ih (ok wait) t e = sym (unpushed (process_binary_data o (a ++ b)))
    go ih (ok skip) t e =
        process_binary_data_step o (a ++ b)
        ∙ rw (next_action-append o a b (λ w. cc), e, drop-append 1 a b (t skip refl))
            (ih (drop 1 a) b (omega (arith, t skip refl, length-drop {0} 1 a)))
    go ih (ok (emit n)) t e =
        process_binary_data_step o (a ++ b)
        ∙ rw
            (
              next_action-append o a b (λ w. cc),
              e,
              drop-append n a b (t (emit n) refl).1,
              take-append n a b (t (emit n) refl).1,
              ih (drop n a) b (omega (arith, t (emit n) refl, length-drop {0} n a)),
            )
            (push_assoc o b (take n a) (process_binary_data o (drop n a)))
    go ih (err x) t e =
        process_binary_data_step o (a ++ b) ∙ rw (next_action-append o a b (λ w. cc), e)
    go ih stuck t e =
        process_binary_data_step o (a ++ b) ∙ rw (next_action-append o a b (λ w. cc), e)

append_nothing : (r : Result Error Output) → (r >>= λ (ms, rest). ok (ms ++ [], rest)) ≡ r
append_nothing (ok (ms, rest)) = ap (λ m. ok (m, rest)) (append-nil ms)
append_nothing (err e) = refl
append_nothing stuck = refl

-- However a stream is cut into chunks, the splitter pushes the same messages, keeps the same rest
-- and fails in the same way as on the whole stream at once.
pub feed-eq-process :
    (o : Options) (buffer chunk : Bytes) (chunks : List Bytes)
    → feed o buffer (chunk ∷ chunks) ≡ process_binary_data o (buffer ++ (chunk ++ concat chunks))
unfolding feed transform
feed-eq-process o buffer chunk [] =
    rw append-nil (append_nothing (process_binary_data o (buffer ++ chunk)))
feed-eq-process o buffer chunk (c ∷ chunks) =
    ap (λ f. process_binary_data o (buffer ++ chunk) >>= f)
      (fun_ext (λ out.
        ap (λ r. r >>= λ (more, rest'). ok (out.0 ++ more, rest'))
          (feed-eq-process o out.1 c chunks)))
    ∙ sym (
        process-append (suc (length (buffer ++ chunk))) o (buffer ++ chunk) (c ++ concat chunks)
          (omega arith))
    ∙ ap (process_binary_data o) (append_assoc buffer chunk (c ++ concat chunks))
