-- ===== src/FeatureFlags/Tests.antt =====
-- Runs of plugshub_common/featureflags.py, and the theorems about it at concrete inputs.
use plugshub_common.Common.{
  ◌≡◌, refl, true, false, Option, none, some, List, [], ◌∷◌, if◌then◌else◌,
}
use plugshub_common.Text.{Text, codes, text_eq, upper, Unicode}
use plugshub_common.Value.{Value, str}
use plugshub_common.Errors.{other}
use plugshub_common.Exec.{Result, ok, raised, Exec}
use plugshub_common.FeatureFlags.Memory.{
  InMemoryFeatureFlags, in_memory, Change, set_to, enabled, disabled, step, run, last_said,
  reference, is_enabled-run,
}
use plugshub_common.FeatureFlags.Memory
use plugshub_common.FeatureFlags.Env.{env_name, is_truthy}
use plugshub_common.FeatureFlags.Redis
use plugshub_common.FeatureFlags.Redis.{Raw, absent, bytes, value, global_key, scoped_key, look_up}

abbrev unicode : Unicode
unicode = record {
  upper_other = λ c. c ∷ [];
  lower_other = λ c. c ∷ [];
  is_alpha_other = λ c. false;
}

abbrev to_text : Value → Result Text
to_text (str t) = ok t
to_text _ = raised (other 0)

abbrev billing : Text
billing = codes "billing"

abbrev acme : Option Text
acme = some (codes "acme")

-- A kill switch, off for one tenant until it is enabled there again.
abbrev changes : List Change
changes =
    enabled billing none
    ∷ disabled billing acme
    ∷ set_to billing false none
    ∷ enabled billing acme
    ∷ []

is_enabled-run_example :
    Memory.is_enabled billing acme false (run changes (in_memory none))
    ≡ reference none changes billing acme false
is_enabled-run_example = is_enabled-run none changes billing acme false

reference-changes :
    (reference none changes billing acme false ≡ true)
    × (reference none changes billing none true ≡ false)
unfolding last_said text_eq
reference-changes = (refl, refl)

env_name_dots :
    env_name unicode (codes "PLUGSHUB_FLAG_") (codes "feature.new-billing")
    ≡ codes "PLUGSHUB_FLAG_FEATURE_NEW_BILLING"
unfolding env_name upper
env_name_dots = refl

is_truthy_words :
    (is_truthy unicode (codes " Yes") ≡ true) × (is_truthy unicode (codes "enabled") ≡ false)
unfolding is_truthy
is_truthy_words = (refl, refl)

-- A store with one key, for one flag of all tenants.
abbrev flag_prefix : Text
flag_prefix = codes "flag:"

abbrev store : Text → Raw
store key = if text_eq key (global_key flag_prefix billing) then bytes (codes "on") else absent

abbrev mirrored : InMemoryFeatureFlags
mirrored = in_memory (some ((billing, true) ∷ []))

abbrev failing : Text → Exec (Unit {0}) Raw
failing key w = (raised (other 1), w)
