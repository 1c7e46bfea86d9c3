-- ===== src/Resilience/Breaker/Transitions.antt =====
-- The breaker's state machine: when it refuses, when it trips, how it recovers.
use plugshub_common.Common.{
  ℕ, zero, suc, ◌+◌, ◌≤◌, ◌<◌, ◌≡◌, refl, ap, ◌∙◌, ◌≢◌, ◌↔◌, true, false, List, [], ◌∷◌, map, arith,
  length, replicate,
}
use plugshub_common.Float.{Float}
use plugshub_common.Resilience.Breaker.{
  State, closed, opened, half_open, CircuitBreaker, elapsed, allow, record_success, record_failure,
}
use plugshub_common.Resilience.Breaker.Invariant.{Op, query, success, failure, apply, run}

module _ (fl : Float) where
  open fl use {F}

  -- `allow` refuses exactly when the breaker is open and its recovery window has not elapsed, and
  -- a refusal leaves the breaker as it was.
  pub allow_refuses_iff :
      (now : F) (b : CircuitBreaker fl)
      → (((allow fl now b).0 ≡ false) ↔ ((b.state ≡ opened) × (elapsed fl now b ≡ false)))
        × ((allow fl now b).0 ≡ false → (allow fl now b).1 ≡ b)
  unfolding allow
  allow_refuses_iff now b = ground arith

  pub allow_refused :
      (now : F) (b : CircuitBreaker fl)
      → b.state ≡ opened
      → elapsed fl now b ≡ false
      → allow fl now b ≡ (false, b)
  unfolding allow
  allow_refused now b o w = ground arith

  -- The condition under which an operation moves a closed breaker: a failure that reaches the
  -- threshold.
  abbrev pub Trips : CircuitBreaker fl → Op fl → Type 0
  Trips b (failure now) = b.failure_threshold ≤ b.failures + 1
  Trips b _ = ⊥

  -- ... an open breaker: a query after the recovery window.
  abbrev pub Probes : CircuitBreaker fl → Op fl → Type 0
  Probes b (query now) = elapsed fl now b ≡ true
  Probes b _ = ⊥

  -- ... a half-open breaker to the closed state: a success that reaches the threshold.
  abbrev pub Recovers : CircuitBreaker fl → Op fl → Type 0
  Recovers b success = b.success_threshold ≤ b.successes + 1
  Recovers b _ = ⊥

  abbrev pub IsFailure : Op fl → Type 0
  IsFailure (failure now) = Unit
  IsFailure _ = ⊥

  -- The edges of the state machine that `b` and an operation on it may take to `t`.
  pub record Edges (b : CircuitBreaker fl) (op : Op fl) (t : State) : Type 0 where
    pub from_closed : b.state ≡ closed → (t ≢ half_open) × ((t ≡ opened) ↔ Trips b op)
    pub from_opened : b.state ≡ opened → (t ≢ closed) × ((t ≡ half_open) ↔ Probes b op)
    pub from_half_open :
        b.state ≡ half_open → ((t ≡ closed) ↔ Recovers b op) × ((t ≡ opened) ↔ IsFailure op)

  -- Every operation moves the breaker along an edge of the documented state machine, exactly when it
  -- meets that edge's condition: closed to open on a failure that reaches the threshold, open to
  -- half-open on a query after the recovery window, half-open to closed on a success that reaches
  -- the success threshold, and half-open to open on a failure. So an open breaker never closes in
  -- one step.
  pub apply-Edges : (op : Op fl) (b : CircuitBreaker fl) → Edges b op (apply fl op b).state
  unfolding allow record_success record_failure
  apply-Edges (query now) b = ground arith
  apply-Edges success b = ground arith
  apply-Edges (failure now) b = ground arith

  run-failures :
      (nows : List F) (b : CircuitBreaker fl)
      → b.state ≡ closed
      → b.failures + length nows < b.failure_threshold
      → run fl (map failure nows) b ≡ record b { failures = b.failures + length nows }
  unfolding run record_failure
  run-failures [] b c h = ground arith
  run-failures (now ∷ nows) b c h =
      ground (arith, run-failures nows (record b { failures = b.failures + 1 }) c)

  -- `failure_threshold` failures in a row, and no fewer, trip a closed breaker that has counted
  -- none: before the last one it is closed, and after it it is open since the last failure.
  pub run-failures_trip :
      (nows : List F) (now : F) (b : CircuitBreaker fl)
      → b.state ≡ closed
      → b.failures ≡ 0
      → length nows + 1 ≡ b.failure_threshold
      → let before = run fl (map failure nows) b in
        let after = apply fl (failure now) before in
        (before.state ≡ closed)
        × (after.state ≡ opened)
        × (after.opened_at ≡ now)
        × ((allow fl now before).0 ≡ true)
  unfolding record_failure allow
  run-failures_trip nows now b c z h =
      let e = run-failures nows b c (omega arith) in rw e (ground arith)

  run-successes :
      (n : ℕ) (b : CircuitBreaker fl)
      → b.state ≡ half_open
      → b.successes + n + 1 ≡ b.success_threshold
      → run fl (success ∷ replicate n success) b
        ≡ record b { state = closed; failures = 0; successes = 0 }
  unfolding run record_success
  run-successes zero b c h = ground arith
  run-successes (suc n) b c h =
      ground (arith, run-successes n (record b { successes = b.successes + 1 }) c)

  query_opened :
      (now : F) (b : CircuitBreaker fl)
      → b.state ≡ opened
      → elapsed fl now b ≡ true
      → (allow fl now b).1 ≡ record b { state = half_open; successes = 0 }
  unfolding allow
  query_opened now b c e = ground arith

  -- An open breaker whose recovery window has elapsed closes, with its failures forgotten, after
  -- one query and `success_threshold` successes in a row.
  pub run-recovery :
      (n : ℕ) (now : F) (b : CircuitBreaker fl)
      → b.state ≡ opened
      → elapsed fl now b ≡ true
      → n + 1 ≡ b.success_threshold
      → run fl (query now ∷ success ∷ replicate n success) b
        ≡ record b { state = closed; failures = 0; successes = 0 }
  unfolding run
  run-recovery n now b c e h =
      ap (run fl (success ∷ replicate n success)) (query_opened now b c e)
      ∙ run-successes n (record b { state = half_open; successes = 0 }) refl (omega arith)

  query_half_open : (now : F) (b : CircuitBreaker fl) → b.state ≡ half_open → (allow fl now b).1 ≡ b
  unfolding allow
  query_half_open now b h = ground arith
