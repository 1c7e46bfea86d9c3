-- ===== src/Resilience/Retry/Calls.antt =====
-- How often `retry_async` calls the function, when it does not, and how long it waits.
use plugshub_common.Common.{
  ℕ, suc, ◌+◌, ◌-◌, ◌≤◌, ◌<◌, ◌≡◌, refl, ap, ◌∙◌, false, none, some, ◌++◌, arith, Bool, Option,
}
use plugshub_common.Text.{codes}
use plugshub_common.Errors.{circuit_breaker_open}
use plugshub_common.Exec.{Result, ok, raised, Exec, continue}
use plugshub_common.Float.{Float}
use plugshub_common.Resilience.Breaker.{CircuitBreaker, opened, elapsed}
use plugshub_common.Resilience.Breaker.Transitions.{allow_refused}
use plugshub_common.Resilience.Retry.{
  Sys, Host, RetryPolicy, allow_call, note_success, note_failure, open_error, pause, retry_async,
  compute_backoff, capped_delay, draw,
}
use plugshub_common.Resilience.Retry.Outcome.{
  entered, left_by, paused, Retried, here, again, Ends, refused, succeeded, not_retryable,
  exhausted, interrupted, retry_async-Run, loop, loop_refused,
}

module _ (fl : Float) {W : Type 0} (host : Host fl W) where
  open fl use {F}

  -- A counter of the calls, kept by the world outside the package.
  module _ {T : Type 0} (func : Exec (Sys fl W) T) (policy : RetryPolicy fl)
      (sleep : F → Exec (Sys fl W) (Unit {0})) (calls : W → ℕ)
      (called : (s : Sys fl W) → calls (func s).1.world ≤ calls s.world + 1)
      (slept : (d : F) (s : Sys fl W) → calls (sleep d s).1.world ≡ calls s.world)
      (drawn : (x : F) (w : W) → calls (host.uniform x w).1 ≡ calls w) where
    calls-entered :
        (s : Sys fl W) → calls (entered fl host func policy sleep s).world ≡ calls s.world
    unfolding allow_call
    calls-entered s = ground arith

    calls-note_failure : (s : Sys fl W) → calls (note_failure fl host s).world ≡ calls s.world
    unfolding note_failure
    calls-note_failure s = ground arith

    calls-note_success : (s : Sys fl W) → calls (note_success fl host s).world ≡ calls s.world
    unfolding note_success
    calls-note_success s = ground arith

    calls-draw :
        (jitter : Bool) (delay : Option F) (s : Sys fl W)
        → calls (draw fl host jitter delay s).1.world ≡ calls s.world
    calls-draw jitter none s = refl
    calls-draw jitter (some d) s = ground (arith, drawn d s.world)

    calls-compute_backoff :
        (n : ℕ) (s : Sys fl W) → calls (compute_backoff fl host n policy s).1.world ≡ calls s.world
    unfolding compute_backoff
    calls-compute_backoff n s = calls-draw policy.jitter (capped_delay fl n policy) s

    calls-continue :
        (r : Result F) (s : Sys fl W) → calls (continue r sleep s).1.world ≡ calls s.world
    calls-continue (ok d) s = slept d s
    calls-continue (raised e) s = refl

    calls-paused :
        (n : ℕ) (s : Sys fl W)
        → calls (paused fl host func policy sleep n s).1.world ≤ calls s.world + 1
    unfolding pause
    calls-paused n s =
        let left = left_by fl host func policy sleep s in
        let same : calls (paused fl host func policy sleep n s).1.world ≡ calls left.world =
          calls-continue _ _ ∙ calls-compute_backoff (n + 1) _ ∙ calls-note_failure left in
        omega (arith, same, called (entered fl host func policy sleep s), calls-entered s)

    -- Each round that is retried makes at most one call.
    calls-Retried :
        (a : ℕ) (s : Sys fl W) {b : ℕ} {t : Sys fl W}
        → Retried fl host func policy sleep a s b t
        → calls t.world + a ≤ calls s.world + b
    calls-Retried a s here = omega arith
    calls-Retried a s (again {b} {t} e rs call o r lt quiet next) =
        omega (arith, calls-Retried a s rs, calls-paused b t)

    -- The last attempt makes at most one call.
    calls-Ends :
        {a : ℕ} {s : Sys fl W} {r : Result T} {t : Sys fl W}
        → Ends fl host func policy sleep a s r t
        → calls t.world ≤ calls s.world + 1
    calls-Ends {s} (refused no_call) = omega (arith, calls-entered s)
    calls-Ends {s} (succeeded v call o) = omega (
      arith,
      calls-note_success (left_by fl host func policy sleep s),
      called (entered fl host func policy sleep s),
      calls-entered s,
    )
    calls-Ends {s} (not_retryable e call o fatal) =
        omega (arith, called (entered fl host func policy sleep s), calls-entered s)
    calls-Ends {s} (exhausted e call o r last) = omega (
      arith,
      calls-note_failure (left_by fl host func policy sleep s),
      called (entered fl host func policy sleep s),
      calls-entered s,
    )
    calls-Ends {a} {s} (interrupted e i call o r lt stopped) = omega (arith, calls-paused a s)

    -- If each call of `func` counts at most one, and neither sleeping nor drawing the jitter counts, then a
    -- call of `retry_async` with at least one attempt calls `func` at most `max_attempts` times.
    pub retry_async_calls :
        (s : Sys fl W)
        → 0 < policy.max_attempts
        → calls (retry_async fl host func policy sleep s).1.world
          ≤ calls s.world + policy.max_attempts
    retry_async_calls s h =
        let run = retry_async-Run fl host func policy sleep s h in
        omega (arith, run.within, calls-Retried 1 s run.rounds, calls-Ends run.ends)

  allow_call_refused :
      (s : Sys fl W) (b : CircuitBreaker fl)
      → s.breaker ≡ some b
      → b.state ≡ opened
      → elapsed fl (host.clock s.world) b ≡ false
      → allow_call fl host s ≡ (false, s)
  unfolding allow_call
  allow_call_refused s b e o w = rw (e, allow_refused fl (host.clock s.world) b o w) (ground arith)

  open_error_named :
      (s : Sys fl W) (b : CircuitBreaker fl)
      → s.breaker ≡ some b
      → open_error fl host s
        ≡ circuit_breaker_open (codes "circuit '" ++ b.name ++ codes "' is open")
  unfolding open_error
  open_error_named s b e = ground arith

  -- While the breaker is open and its recovery window has not elapsed, `retry_async` with at least
  -- one attempt fails at once with `CircuitBreakerOpen`, which names the circuit: `func` is not
  -- called, nothing is slept, and the whole state stays as it was.
  pub retry_async_open :
      {T : Type 0} (func : Exec (Sys fl W) T) (policy : RetryPolicy fl)
      (sleep : F → Exec (Sys fl W) (Unit {0})) (s : Sys fl W) (b : CircuitBreaker fl)
      → 0 < policy.max_attempts
      → s.breaker ≡ some b
      → b.state ≡ opened
      → elapsed fl (host.clock s.world) b ≡ false
      → retry_async fl host func policy sleep s
        ≡ (raised (circuit_breaker_open (codes "circuit '" ++ b.name ++ codes "' is open")), s)
  unfolding retry_async
  retry_async_open {T} func policy sleep s b h e o w =
      let refused = allow_call_refused s b e o w in
      let positive : policy.max_attempts ≡ suc (policy.max_attempts - 1) = omega arith in
      ap (λ m. loop fl host func policy sleep m 1 none s) positive
      ∙ loop_refused fl host func policy sleep (policy.max_attempts - 1) 1 none s
          (ap (λ p. p.0) refused)
      ∙ ap {B = Result T × Sys fl W} (λ p. (raised (open_error fl host p.1), p.1)) refused
      ∙ ap {B = Result T × Sys fl W} (λ x. (raised x, s)) (open_error_named s b e)
