-- ===== src/Resilience/Retry/Keeps.antt =====
-- What `func`, `sleep` and the draws keep of the world, `retry_async` keeps.
use plugshub_common.Common.{
  ℕ, suc, ◌+◌, ◌-◌, ◌<◌, ◌≡◌, sym, ap, ◌∙◌, inl, inr, true, false, none, arith, ◌==◌, Bool-cases,
  Bool, Option, some,
}
use plugshub_common.Exec.{Result, ok, raised, Exec, continue, Result-cases}
use plugshub_common.Errors.{Exc}
use plugshub_common.Float.{Float}
use plugshub_common.Resilience.Retry.{
  Sys, Host, RetryPolicy, allow_call, note_success, note_failure, pause, retry_async,
  compute_backoff, capped_delay, draw,
}
use plugshub_common.Resilience.Retry.Outcome.{
  left_by, paused, Retried, here, again, Ends, refused, succeeded, not_retryable, exhausted,
  interrupted, retry_async-Run, retry_async_none, loop_ok, loop_not_retryable, loop,
}

module _ (fl : Float) {W : Type 0} (host : Host fl W) where
  open fl use {F}

  world-allow_call : (s : Sys fl W) → (allow_call fl host s).1.world ≡ s.world
  unfolding allow_call
  world-allow_call s = ground arith

  world-note_failure : (s : Sys fl W) → (note_failure fl host s).world ≡ s.world
  unfolding note_failure
  world-note_failure s = ground arith

  world-note_success : (s : Sys fl W) → (note_success fl host s).world ≡ s.world
  unfolding note_success
  world-note_success s = ground arith

  module _ {T : Type 0} (func : Exec (Sys fl W) T) (policy : RetryPolicy fl)
      (sleep : F → Exec (Sys fl W) (Unit {0})) (P : W → Type 0)
      (func_keeps : (s : Sys fl W) → P s.world → P (func s).1.world)
      (sleep_keeps : (d : F) (s : Sys fl W) → P s.world → P (sleep d s).1.world)
      (draw_keeps : (x : F) (w : W) → P w → P (host.uniform x w).1) where
    left_by_keeps : (s : Sys fl W) → P s.world → P (left_by fl host func policy sleep s).world
    left_by_keeps s h = func_keeps _ (rw (world-allow_call s) h)

    draw_delay_keeps :
        (jitter : Bool) (delay : Option F) (s : Sys fl W)
        → P s.world
        → P (draw fl host jitter delay s).1.world
    draw_delay_keeps jitter none s h = h
    draw_delay_keeps true (some d) s h = draw_keeps d s.world h
    draw_delay_keeps false (some d) s h = h

    compute_backoff_keeps :
        (n : ℕ) (s : Sys fl W) → P s.world → P (compute_backoff fl host n policy s).1.world
    unfolding compute_backoff
    compute_backoff_keeps n s h = draw_delay_keeps policy.jitter (capped_delay fl n policy) s h

    continue_keeps : (r : Result F) (s : Sys fl W) → P s.world → P (continue r sleep s).1.world
    continue_keeps (ok d) s h = sleep_keeps d s h
    continue_keeps (raised e) s h = h

    paused_keeps :
        (n : ℕ) (s : Sys fl W) → P s.world → P (paused fl host func policy sleep n s).1.world
    unfolding pause
    paused_keeps n s h =
        continue_keeps _ _
          (compute_backoff_keeps (n + 1) _ (rw (world-note_failure _) (left_by_keeps s h)))

    Retried_keeps :
        (a : ℕ) (s : Sys fl W) {b : ℕ} {t : Sys fl W}
        → Retried fl host func policy sleep a s b t
        → P s.world
        → P t.world
    Retried_keeps a s here h = h
    Retried_keeps a s (again {b} {t} e rs call o r lt quiet next) h =
        paused_keeps b t (Retried_keeps a s rs h)

    Ends_keeps :
        {a : ℕ} {s : Sys fl W} {r : Result T} {t : Sys fl W}
        → Ends fl host func policy sleep a s r t
        → P s.world
        → P t.world
    Ends_keeps {s} (refused no_call) h = rw (world-allow_call s) h
    Ends_keeps {s} (succeeded v call o) h = rw (world-note_success _) (left_by_keeps s h)
    Ends_keeps {s} (not_retryable e call o fatal) h = left_by_keeps s h
    Ends_keeps {s} (exhausted e call o r last) h = rw (world-note_failure _) (left_by_keeps s h)
    Ends_keeps {a} {s} (interrupted e i call o r lt stopped) h = paused_keeps a s h

    pub retry_async_keeps :
        (s : Sys fl W) → P s.world → P (retry_async fl host func policy sleep s).1.world
    retry_async_keeps s h = elim (Bool-cases (policy.max_attempts == 0)) [
      | inl never ↦ rw (retry_async_none fl host func policy sleep s (ground arith)) h
      | inr some_left ↦
          let run = retry_async-Run fl host func policy sleep s (ground arith) in
          Ends_keeps run.ends (Retried_keeps 1 s run.rounds h)
    ]

  -- What holds of every answer of the function holds of the answer of the whole call.
  module _ {T : Type 0} (func : Exec (Sys fl W) T) (policy : RetryPolicy fl)
      (sleep : F → Exec (Sys fl W) (Unit {0})) (Q : T → Type 0)
      (answers : (s : Sys fl W) (v : T) → (func s).0 ≡ ok v → Q v) where
    Ends_answers :
        {a : ℕ} {s : Sys fl W} {r : Result T} {t : Sys fl W}
        → Ends fl host func policy sleep a s r t
        → (v : T) → r ≡ ok v
        → Q v
    Ends_answers (refused no_call) v h = absurd (ground (arith, h))
    Ends_answers (succeeded x call o) v h = answers _ v (o ∙ h)
    Ends_answers (not_retryable e call o fatal) v h = absurd (ground (arith, h))
    Ends_answers (exhausted e call o r last) v h = absurd (ground (arith, h))
    Ends_answers (interrupted e i call o r lt stopped) v h = absurd (ground (arith, h))

    pub retry_async_answers :
        (s : Sys fl W) (v : T) → (retry_async fl host func policy sleep s).0 ≡ ok v → Q v
    retry_async_answers s v h = elim (Bool-cases (policy.max_attempts == 0)) [
      | inl never ↦
          absurd (ground (arith, h, retry_async_none fl host func policy sleep s (ground arith)))
      | inr some_left ↦
          let run = retry_async-Run fl host func policy sleep s (ground arith) in
          Ends_answers run.ends v h
    ]

  note_success-none : (s : Sys fl W) → s.breaker ≡ none → note_success fl host s ≡ s
  unfolding note_success
  note_success-none s h = rw h

  -- With no breaker, a first attempt that returns, or raises what is not retried, is the whole call.
  pub retry_async_once :
      {T : Type 0} (func : Exec (Sys fl W) T) (policy : RetryPolicy fl)
      (sleep : F → Exec (Sys fl W) (Unit {0})) (s : Sys fl W)
      → 0 < policy.max_attempts
      → allow_call fl host s ≡ (true, s)
      → ((e : Exc) → (func s).0 ≡ raised e → policy.retry_on e ≡ false)
      → (func s).1.breaker ≡ none
      → retry_async fl host func policy sleep s ≡ func s
  unfolding retry_async
  retry_async_once {T} func policy sleep s h free fatal none_t =
      let positive : policy.max_attempts ≡ suc (policy.max_attempts - 1) = omega arith in
      let n = policy.max_attempts - 1 in
      let allowed = ap (λ p. p.0) free in
      let same = ap (λ p. func p.1) free in
      ap (λ m. loop fl host func policy sleep m 1 none s) positive
      ∙ elim (Result-cases (func s).0) [
        | inl (v, o) ↦
            loop_ok fl host func policy sleep n 1 none s v allowed (ap (λ p. p.0) same ∙ o)
            ∙ ap {B = Result T × Sys fl W} (λ p. (ok v, note_success fl host p.1)) same
            ∙ ap {B = Result T × Sys fl W} (λ t. (ok v, t)) (note_success-none (func s).1 none_t)
            ∙ ap {B = Result T × Sys fl W} (λ r. (r, (func s).1)) (sym o)
        | inr (e, o) ↦
            loop_not_retryable fl host func policy sleep n 1 none s e allowed
              (ap (λ p. p.0) same ∙ o) (fatal e o)
            ∙ ap {B = Result T × Sys fl W} (λ p. (raised e, p.1)) same
            ∙ ap {B = Result T × Sys fl W} (λ r. (r, (func s).1)) (sym o)
      ]
