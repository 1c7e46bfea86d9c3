-- ===== src/Resilience/Breaker/Invariant.antt =====
-- The counters of the breaker stay below their thresholds.
use plugshub_common.Common.{ℕ, ◌<◌, ◌≡◌, ◌≢◌, List, [], ◌∷◌, arith}
use plugshub_common.Text.{Text}
use plugshub_common.Float.{Float}
use plugshub_common.Resilience.Breaker.{
  make_breaker, closed, half_open, CircuitBreaker, allow, record_success, record_failure,
}

module _ (fl : Float) where
  open fl use {F}

  -- Both thresholds are positive; a closed breaker is short of the failure threshold, a half-open
  -- one short of the success threshold, and successes are counted in the half-open state alone.
  pub record IsValid (b : CircuitBreaker fl) : Type 0 where
    pub failure_pos : 0 < b.failure_threshold
    pub success_pos : 0 < b.success_threshold
    pub closed_below : b.state ≡ closed → b.failures < b.failure_threshold
    pub half_below : b.state ≡ half_open → b.successes < b.success_threshold
    pub idle : b.state ≢ half_open → b.successes ≡ 0

  -- The operations that a caller may apply.
  pub data Op : Type 0 where
    query : F → Op
    success : Op
    failure : F → Op

  abbrev pub apply : Op → CircuitBreaker fl → CircuitBreaker fl
  apply (query now) b = (allow fl now b).1
  apply success b = record_success fl b
  apply (failure now) b = record_failure fl now b

  unfoldable pub run : List Op → CircuitBreaker fl → CircuitBreaker fl
  run [] b = b
  run (op ∷ ops) b = run ops (apply op b)

  allow-IsValid : (now : F) (b : CircuitBreaker fl) → IsValid b → IsValid (allow fl now b).1
  unfolding allow
  allow-IsValid now b v = ground arith

  record_success-IsValid : (b : CircuitBreaker fl) → IsValid b → IsValid (record_success fl b)
  unfolding record_success
  record_success-IsValid b v = ground arith

  record_failure-IsValid :
      (now : F) (b : CircuitBreaker fl) → IsValid b → IsValid (record_failure fl now b)
  unfolding record_failure
  record_failure-IsValid now b v = ground arith

  apply-IsValid : (op : Op) (b : CircuitBreaker fl) → IsValid b → IsValid (apply op b)
  apply-IsValid (query now) b v = allow-IsValid now b v
  apply-IsValid success b v = record_success-IsValid b v
  apply-IsValid (failure now) b v = record_failure-IsValid now b v

  -- Whatever queries, successes and failures follow one another, a breaker that starts valid stays
  -- valid: while closed it is short of the failure threshold, while half-open short of the success
  -- threshold, and in the other states its count of successes is zero.
  pub run-IsValid : (ops : List Op) (b : CircuitBreaker fl) → IsValid b → IsValid (run ops b)
  unfolding run
  run-IsValid [] b v = v
  run-IsValid (op ∷ ops) b v = run-IsValid ops (apply op b) (apply-IsValid op b v)

  -- A new breaker is valid when both thresholds are positive.
  pub make_breaker-IsValid :
      (f : ℕ) (t : F) (s : ℕ) (name : Text) → 0 < f → 0 < s → IsValid (make_breaker fl f t s name)
  unfolding make_breaker
  make_breaker-IsValid f t s name hf hs = ground arith
