-- ===== src/Observability/Reports.antt =====
-- Which exceptions reach the tracker (plugshub_common/observability.py).
use plugshub_common.Common.{◌≡◌, ◌⊎◌, true, false, arith}
use plugshub_common.Errors.{Exc}
use plugshub_common.Exec.{ok, Exec}
use plugshub_common.Observability.{Tracked, should_report, capture_exception}

-- The answer says whether the exception was sent: if `True`, tracking is on, the exception is no
-- client error, and the world is as sending left it; if `False`, the state is as it was. With no SDK
-- that raises, every server fault is sent while tracking is on.
pub capture_exception_sent :
    {W : Type 0} (send : Exc → Exec W (Unit {0})) (exc : Exc) (s : Tracked W)
    → (sends : (w : W) → (send exc w).0 ≡ ok tt)
    → ((s.tracking.enabled ≡ true)
        × (s.tracking.has_sdk ≡ true)
        × (should_report exc ≡ true)
        × ((capture_exception send exc s).0 ≡ ok true)
        × ((capture_exception send exc s).1 ≡ record s { world = (send exc s.world).1 }))
      ⊎ ((((s.tracking.enabled ≡ false) ⊎ (s.tracking.has_sdk ≡ false))
            ⊎ (should_report exc ≡ false))
          × (capture_exception send exc s ≡ (ok false, s)))
unfolding capture_exception
capture_exception_sent send exc s sends = ground (arith, sends s.world)
