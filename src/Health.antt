-- ===== src/Health.antt =====
-- plugshub_common/health.py: the two probes. `uptime` is the rounded number of seconds since the
-- start, a float, so any value.
use plugshub_common.Common.{ℕ, ◌≡◌, refl, ◌↔◌, Bool, true, false, some, arith, if◌then◌else◌}
use plugshub_common.Text.{Text, codes, text_eq}
use plugshub_common.Value.{Value, bool, str, dict, Fields, end, field, get_field}

unfoldable pub liveness : Value → Text → Text → Fields
liveness uptime service version = field (codes "status") (str (codes "alive")) (
    field (codes "service") (str service)
      (field (codes "version") (str version) (field (codes "uptime_seconds") uptime end)))

unfoldable pub readiness : Bool → Fields → Fields × ℕ
readiness ready checks = (
  field (codes "ready") (bool ready) (field (codes "checks") (dict checks) end),
  if ready then 200 else 503,
)

-- The status that a load balancer reads says what the body says.
pub readiness_agrees :
    (ready : Bool) (checks : Fields)
    → ((readiness ready checks).1 ≡ 200)
      ↔ (get_field (codes "ready") (readiness ready checks).0 ≡ some (bool true))
unfolding readiness get_field text_eq
readiness_agrees true checks = (λ h. refl, λ h. refl)
readiness_agrees false checks = (λ h. ground (arith, h), λ h. ground (arith, h))
