-- ===== src/Resilience/Breaker/Tests.antt =====
-- The breaker at concrete inputs, with whole numbers for the seconds.
use plugshub_common.Common.{◌≡◌, refl, true, List, [], ◌∷◌, map, arith}
use plugshub_common.Text.{codes}
use plugshub_common.Float.{whole}
use plugshub_common.Resilience.Breaker.{
  closed, opened, CircuitBreaker, make_breaker, allow, record_success, record_failure,
}
use plugshub_common.Resilience.Breaker.Invariant.{
  Op, query, success, failure, apply, run, IsValid, run-IsValid, make_breaker-IsValid,
}
use plugshub_common.Resilience.Breaker.Transitions.{
  apply-Edges, Edges, run-failures_trip, run-recovery,
}

abbrev fresh : CircuitBreaker whole
fresh = record {
  failure_threshold = 3;
  recovery_timeout = 10;
  success_threshold = 2;
  name = codes "billing";
  state = closed;
  failures = 0;
  successes = 0;
  opened_at = 0;
}

fresh_lem : make_breaker whole 3 10 2 (codes "billing") ≡ fresh
unfolding make_breaker
fresh_lem = refl

abbrev tripped : CircuitBreaker whole
tripped = record fresh { state = opened; failures = 3; opened_at = 50 }

abbrev script : List (Op whole)
script = failure 1 ∷ failure 2 ∷ failure 50 ∷ query 55 ∷ query 60 ∷ success ∷ failure 61 ∷ []

scripted_ops : run whole script fresh ≡ record tripped { opened_at = 61 }
unfolding run allow record_success record_failure
scripted_ops = refl

-- A success in the closed state forgets the failures before it.
success_forgets :
    run whole (failure 1 ∷ failure 2 ∷ success ∷ failure 3 ∷ failure 4 ∷ []) fresh
    ≡ record fresh { failures = 2 }
unfolding run record_success record_failure
success_forgets = refl

run-IsValid_example : IsValid whole (run whole script (make_breaker whole 3 10 2 (codes "billing")))
run-IsValid_example =
    run-IsValid whole script (make_breaker whole 3 10 2 (codes "billing"))
      (make_breaker-IsValid whole 3 10 2 (codes "billing") (omega arith) (omega arith))

apply-Edges_example : Edges whole tripped (query 60) (apply whole (query 60) tripped).state
apply-Edges_example = apply-Edges whole (query 60) tripped

run-failures_trip_example :
    let before = run whole (map failure (1 ∷ 2 ∷ [])) fresh in
    let after = apply whole (failure 50) before in
    (before.state ≡ closed)
    × (after.state ≡ opened)
    × (after.opened_at ≡ 50)
    × ((allow whole 50 before).0 ≡ true)
run-failures_trip_example = run-failures_trip whole (1 ∷ 2 ∷ []) 50 fresh refl refl refl

run-recovery_example :
    run whole (query 60 ∷ success ∷ success ∷ []) tripped
    ≡ record tripped { state = closed; failures = 0; successes = 0 }
run-recovery_example = run-recovery whole 1 60 tripped refl refl refl
