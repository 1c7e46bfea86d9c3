-- ===== src/Config.antt =====
-- plugshub_common/config.py: required settings. `getenv` is `os.getenv`, and a settings class is the
-- outcome of calling it; `describe` is `str` of the exception that it raised.
use plugshub_common.Common.{Bool, ◌≡◌, ◌↔◌, false, Option, none, some, ◌++◌, arith, if◌then◌else◌}
use plugshub_common.Text.{Text, codes, is_empty}
use plugshub_common.Errors.{Exc, config_error, is_exception}
use plugshub_common.Exec.{Result, ok, raised}

-- `_import_settings_base`, which runs when the module is imported; pydantic-settings is there or not.
unfoldable pub import_settings_base : Bool → Result (Unit {0})
import_settings_base installed =
    if installed
    then ok tt
    else raised (
        config_error (
          codes "pydantic-settings is required for plugshub_common.config; "
          ++ codes "install plugshub-common[config]"))

-- Only an `Exception` is turned into the one that aborts the start.
unfoldable pub load_settings {ℓ} : {A : Type ℓ} → (Exc → Text) → Text → Result A → Result A
load_settings describe name (ok settings) = ok settings
load_settings describe name (raised e) =
    if is_exception e
    then raised
        (config_error (codes "invalid configuration for " ++ name ++ codes ": " ++ describe e))
    else raised e

abbrev pub not_set : Text → Exc
not_set name = config_error (codes "required environment variable " ++ name ++ codes " is not set")

unfoldable pub require_env : (Text → Option Text) → Text → Result Text
require_env getenv name = elim (getenv name) [
  | none ↦ raised (not_set name)
  | some v ↦ if is_empty v then raised (not_set name) else ok v
]

-- A required variable gives its own value, which is not empty, or aborts: there is no default.
pub require_env_iff :
    (getenv : Text → Option Text) (name v : Text)
    → (require_env getenv name ≡ ok v) ↔ ((getenv name ≡ some v) × (is_empty v ≡ false))
unfolding require_env
require_env_iff getenv name v = go (getenv name)
  where
    go :
        (o : Option Text)
        → (elim o [
          | none ↦ raised (not_set name)
          | some w ↦ if is_empty w then raised (not_set name) else ok w
        ]
            ≡ ok v)
          ↔ ((o ≡ some v) × (is_empty v ≡ false))
    go none = (λ h. ground (arith, h), λ h. ground (arith, h))
    go (some w) = (λ h. ground (arith, h), λ h. ground (arith, h))
