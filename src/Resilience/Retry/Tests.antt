-- ===== src/Resilience/Retry/Tests.antt =====
-- The retry loop at concrete inputs: the world counts the calls, and the third call succeeds.
use plugshub_common.Common.{ℕ, ◌+◌, ◌≡◌, refl, false, none, some, arith, ltb, if◌then◌else◌}
use plugshub_common.Text.{codes}
use plugshub_common.Errors.{other, is_exception}
use plugshub_common.Exec.{ok, raised, Exec}
use plugshub_common.Float.{whole}
use plugshub_common.Resilience.Breaker.{CircuitBreaker, opened}
use plugshub_common.Resilience.Retry.{
  Sys, Host, RetryPolicy, retry_async, compute_backoff, capped_delay, allow_call, note_success,
  note_failure, pause,
}
use plugshub_common.Resilience.Retry.Outcome.{Run, retry_async-Run}

abbrev host : Host whole ℕ
host = record { clock = λ w. w; uniform = λ x w. (x, w) }

abbrev policy : RetryPolicy whole
policy = record {
  max_attempts = 3;
  base_delay = 1;
  max_delay = 5;
  multiplier = 2;
  jitter = false;
  retry_on = is_exception;
}

abbrev func : Exec (Sys whole ℕ) ℕ
func s = (if ltb s.world 2 then raised (other 7) else ok s.world, record s { world = s.world + 1 })

abbrev sleep : ℕ → Exec (Sys whole ℕ) (Unit {0})
sleep d s = (ok tt, s)

abbrev alone : Sys whole ℕ
alone = record { breaker = none; world = 0 }

abbrev tripped : CircuitBreaker whole
tripped = record {
  failure_threshold = 3;
  recovery_timeout = 10;
  success_threshold = 2;
  name = codes "billing";
  state = opened;
  failures = 3;
  successes = 0;
  opened_at = 50;
}

abbrev guarded : Sys whole ℕ
guarded = record { breaker = some tripped; world = 55 }

-- Two failures are retried, and the third call returns.
third_time : retry_async whole host func policy sleep alone ≡ (ok 2, record alone { world = 3 })
unfolding retry_async allow_call note_success note_failure pause compute_backoff
third_time = refl

-- With two attempts the second exception comes out.
two_attempts :
    retry_async whole host func (record policy { max_attempts = 2 }) sleep alone
    ≡ (raised (other 7), record alone { world = 2 })
unfolding retry_async allow_call note_success note_failure pause compute_backoff
two_attempts = refl

delays :
    (capped_delay whole 1 policy ≡ some 1)
    × (capped_delay whole 2 policy ≡ some 2)
    × (capped_delay whole 3 policy ≡ some 4)
    × (capped_delay whole 4 policy ≡ some 5)
unfolding capped_delay
delays = (refl, refl, refl, refl)

retry_async-Run_example :
    Run whole host func policy sleep 1 alone (retry_async whole host func policy sleep alone)
retry_async-Run_example = retry_async-Run whole host func policy sleep alone (omega arith)
