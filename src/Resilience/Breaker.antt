-- ===== src/Resilience/Breaker.antt =====
-- `CircuitBreaker` of plugshub_common/resilience.py. A method that reads the clock takes the
-- reading, `now`. The thresholds are counts: one of zero or less acts as the model's zero.
pub mod Invariant
pub mod Transitions
mod Tests
use plugshub_common.Common.{
  ℕ, zero, suc, ◌+◌, ◌-◌, ◌*◌, ◌^◌, ◌≤◌, ◌<◌, String, ◌≡◌, refl, sym, ap, ◌∙◌, subst, ◌≢◌, ◌↔◌, ◌⊎◌,
  inl, inr, Bool, true, false, not, ◌&&◌, ◌||◌, Option, none, some, List, [], ◌∷◌, ◌++◌, map,
  append_assoc, append-nil, arith, ltb, leb, ◌==◌, if◌then◌else◌, ==_iff, Bool-cases, Option-cases,
  is_some, or_else, length, take, drop, all, any, length-append, length-take_le, take_all, All,
  All-append,
}
use plugshub_common.Text.{Text, codes}
use plugshub_common.Float.{Float}

pub data State : Type 0 where
  closed opened half_open : State

abbrev pub is_opened : State → Bool
is_opened opened = true
is_opened _ = false

abbrev pub is_half_open : State → Bool
is_half_open half_open = true
is_half_open _ = false

module _ (fl : Float) where
  open fl use {F, decimal, sub, le}

  pub record CircuitBreaker : Type 0 where
    pub failure_threshold : ℕ
    pub recovery_timeout : F
    pub success_threshold : ℕ
    pub name : Text
    pub state : State
    pub failures : ℕ
    pub successes : ℕ
    pub opened_at : F

  -- `CircuitBreaker(...)`, with the fields that are not arguments.
  unfoldable pub make_breaker : ℕ → F → ℕ → Text → CircuitBreaker
  make_breaker failure_threshold recovery_timeout success_threshold name = record {
    failure_threshold = failure_threshold;
    recovery_timeout = recovery_timeout;
    success_threshold = success_threshold;
    name = name;
    state = closed;
    failures = 0;
    successes = 0;
    opened_at = decimal 0 0;
  }

  -- `CircuitBreaker(name=...)`
  unfoldable pub default_breaker : Text → CircuitBreaker
  unfolding make_breaker
  default_breaker name = make_breaker 5 (decimal 300 1) 1 name

  -- The recovery window has elapsed.
  abbrev pub elapsed : F → CircuitBreaker → Bool
  elapsed now b = le b.recovery_timeout (sub now b.opened_at)

  -- The property `state`: it also moves an open breaker on.
  unfoldable pub read_state : F → CircuitBreaker → State × CircuitBreaker
  read_state now b =
      if is_opened b.state && elapsed now b
      then (half_open, record b { state = half_open; successes = 0 })
      else (b.state, b)

  unfoldable pub allow : F → CircuitBreaker → Bool × CircuitBreaker
  unfolding read_state
  allow now b = let (s, b') = read_state now b in (not (is_opened s), b')

  -- `_trip`
  unfoldable pub trip : F → CircuitBreaker → CircuitBreaker
  trip now b = record b { state = opened; opened_at = now; successes = 0 }

  -- `_reset`
  unfoldable pub reset : CircuitBreaker → CircuitBreaker
  reset b = record b { state = closed; failures = 0; successes = 0 }

  unfoldable pub record_success : CircuitBreaker → CircuitBreaker
  unfolding reset
  record_success b =
      if is_half_open b.state
      then (let b' = record b { successes = b.successes + 1 } in
          if leb b.success_threshold (b.successes + 1) then reset b' else b')
      else record b { failures = 0 }

  unfoldable pub record_failure : F → CircuitBreaker → CircuitBreaker
  unfolding trip
  record_failure now b =
      if is_half_open b.state
      then trip now b
      else (let b' = record b { failures = b.failures + 1 } in
          if leb b.failure_threshold (b.failures + 1) then trip now b' else b')
