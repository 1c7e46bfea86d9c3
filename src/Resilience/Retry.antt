-- ===== src/Resilience/Retry.antt =====
-- `RetryPolicy`, `compute_backoff` and `retry_async` of plugshub_common/resilience.py.
-- An awaited callable is an `Exec` over the shared system state: what it returns or raises, and the
-- state that it leaves. It may change the breaker too, as another task does while this one waits.
pub mod Outcome
pub mod Calls
pub mod Keeps
mod Tests
use plugshub_common.Common.{
  ℕ, zero, suc, ◌+◌, ◌-◌, ◌*◌, ◌^◌, ◌≤◌, ◌<◌, String, ◌≡◌, refl, sym, ap, ◌∙◌, subst, ◌≢◌, ◌↔◌, ◌⊎◌,
  inl, inr, Bool, true, false, not, ◌&&◌, ◌||◌, Option, none, some, List, [], ◌∷◌, ◌++◌, map,
  append_assoc, append-nil, arith, ltb, leb, ◌==◌, if◌then◌else◌, ==_iff, Bool-cases, Option-cases,
  is_some, or_else, length, take, drop, all, any, length-append, length-take_le, take_all, All,
  All-append,
}
use plugshub_common.Text.{Text, codes}
use plugshub_common.Errors.{
  Exc, circuit_breaker_open, assertion_error, overflow_error, is_exception,
}
use plugshub_common.Exec.{Result, ok, raised, Exec, ◌>>=◌, ◌>>◌}
use plugshub_common.Float.{Float}
use plugshub_common.Resilience.Breaker.{CircuitBreaker, allow, record_success, record_failure}

-- The shared state: the breaker, if the caller passed one, and everything else.
pub record Sys (fl : Float) (W : Type 0) : Type 0 where
  pub breaker : Option (CircuitBreaker fl)
  pub world : W

-- What the interpreter supplies: the breaker's clock, and `random.uniform(0, x)`.
pub record Host (fl : Float) (W : Type 0) : Type 0 where
  pub clock : W → fl.F
  pub uniform : fl.F → W → fl.F × W

module _ (fl : Float) where
  open fl use {F, decimal, mul, pow, lt}

  -- `retry_on` is `isinstance(exc, policy.retry_on)`. An attempt count of zero or less is zero.
  pub record RetryPolicy : Type 0 where
    pub max_attempts : ℕ
    pub base_delay : F
    pub max_delay : F
    pub multiplier : F
    pub jitter : Bool
    pub retry_on : Exc → Bool

  -- `RetryPolicy()`
  unfoldable pub default_policy : RetryPolicy
  default_policy = record {
    max_attempts = 3;
    base_delay = decimal 1 1;
    max_delay = decimal 50 1;
    multiplier = decimal 20 1;
    jitter = true;
    retry_on = is_exception;
  }

  -- `min(policy.base_delay * power, policy.max_delay)`, where there is a power: Python's `min` gives
  -- its first argument unless the second is smaller.
  abbrev capped : RetryPolicy → Option F → Option F
  capped policy none = none
  capped policy (some power) =
      let raw = mul policy.base_delay power in
      some (if lt policy.max_delay raw then policy.max_delay else raw)

  -- The delay before jitter; nothing where the power overflows, which is before the delay is capped.
  -- The exponent `max(0, attempt - 1)` is a subtraction on ℕ.
  unfoldable pub capped_delay : ℕ → RetryPolicy → Option F
  capped_delay attempt policy = capped policy (pow policy.multiplier (attempt - 1))

module _ (fl : Float) {W : Type 0} (host : Host fl W) where
  open fl use {F}

  abbrev pub draw : Bool → Option F → Exec (Sys fl W) F
  draw jitter none s = (raised overflow_error, s)
  draw jitter (some delay) s =
      if jitter
      then (let (d, w) = host.uniform delay s.world in (ok d, record s { world = w }))
      else (ok delay, s)

  unfoldable pub compute_backoff : ℕ → RetryPolicy fl → Exec (Sys fl W) F
  unfolding capped_delay
  compute_backoff attempt policy = draw policy.jitter (capped_delay fl attempt policy)

  -- `breaker is None or breaker.allow()`
  unfoldable pub allow_call : Sys fl W → Bool × Sys fl W
  allow_call s = elim s.breaker [
    | none ↦ (true, s)
    | some b ↦
        let (allowed, b') = allow fl (host.clock s.world) b in
        (allowed, record s { breaker = some b' })
  ]

  unfoldable pub note_success : Sys fl W → Sys fl W
  note_success s = elim s.breaker [
    | none ↦ s
    | some b ↦ record s { breaker = some (record_success fl b) }
  ]

  unfoldable pub note_failure : Sys fl W → Sys fl W
  note_failure s = elim s.breaker [
    | none ↦ s
    | some b ↦ record s { breaker = some (record_failure fl (host.clock s.world) b) }
  ]

  abbrev breaker_name : Sys fl W → Text
  breaker_name s = elim s.breaker [ none ↦ [] | some b ↦ b.name ]

  unfoldable pub open_error : Sys fl W → Exc
  open_error s = circuit_breaker_open (codes "circuit '" ++ breaker_name s ++ codes "' is open")

  module _ {T : Type 0} (func : Exec (Sys fl W) T) (policy : RetryPolicy fl)
      (sleep : F → Exec (Sys fl W) Unit) where
    -- `await sleep(compute_backoff(attempt + 1, policy))`
    unfoldable pub pause : ℕ → Exec (Sys fl W) Unit
    pause attempt = compute_backoff (attempt + 1) policy >>= sleep

    -- What follows the call of `func`; `next` is the rest of the loop, given the exception.
    unfoldable pub settle : ℕ → (Exc → Exec (Sys fl W) T) → Result T → Exec (Sys fl W) T
    settle attempt next (ok v) s = (ok v, note_success s)
    settle attempt next (raised e) s =
        if policy.retry_on e
        then (if leb policy.max_attempts attempt
            then (raised e, note_failure s)
            else (pause attempt >> next e) (note_failure s))
        else (raised e, s)

    -- One round of the loop.
    unfoldable pub attempt_once : ℕ → (Exc → Exec (Sys fl W) T) → Exec (Sys fl W) T
    unfolding settle
    attempt_once attempt next s =
        let (allowed, s1) = allow_call s in
        let (r, s2) = func s1 in
        if allowed then settle attempt next r s2 else (raised (open_error s1), s1)

    -- The loop with `left` rounds to go, and what stands below it.
    unfoldable pub retry_from : ℕ → ℕ → Option Exc → Exec (Sys fl W) T
    unfolding attempt_once
    retry_from zero attempt none s = (raised assertion_error, s)
    retry_from zero attempt (some e) s = (raised e, s)
    retry_from (suc left) attempt last s =
        attempt_once attempt (λ e. retry_from left (attempt + 1) (some e)) s

    unfoldable pub retry_async : Exec (Sys fl W) T
    unfolding retry_from
    retry_async = retry_from policy.max_attempts 1 none
