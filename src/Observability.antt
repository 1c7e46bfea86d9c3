-- ===== src/Observability.antt =====
-- plugshub_common/observability.py: which exceptions are reported, and what is sent of an event.
-- The tracker's SDK is a parameter: it may be there or not, and sending changes a world `W`.
pub mod Reports
pub mod Scrubbing
mod Tests
use plugshub_common.Common.{
  ℕ, zero, suc, ◌+◌, ◌-◌, ◌*◌, ◌^◌, ◌≤◌, ◌<◌, String, ◌≡◌, refl, sym, ap, ◌∙◌, subst, ◌≢◌, ◌↔◌, ◌⊎◌,
  inl, inr, Bool, true, false, not, ◌&&◌, ◌||◌, Option, none, some, List, [], ◌∷◌, ◌++◌, map,
  append_assoc, append-nil, arith, ltb, leb, ◌==◌, if◌then◌else◌, ==_iff, Bool-cases, Option-cases,
  is_some, or_else, length, replicate, take, drop, all, any, length-append, length-take_le,
  take_all, All, All-append,
}
use plugshub_common.Text.{Text, codes, Unicode}
use plugshub_common.Value.{Value, dict, str, Fields, end, get_field, set_field}
use plugshub_common.Errors.{Exc, plugs_hub_error, runtime_error}
use plugshub_common.Exec.{Result, ok, raised, Exec}
use plugshub_common.Logging.{LogContext, mask_mapping, sensitive_keys}

abbrev pub extra_sensitive : List Text
extra_sensitive =
    codes "cookie"
    ∷ codes "set-cookie"
    ∷ codes "x-api-key"
    ∷ codes "x-auth-token"
    ∷ codes "session"
    ∷ []

-- `_State`; the SDK in `sdk` is the parameter below.
pub record Tracking : Type 0 where
  pub enabled : Bool
  pub has_sdk : Bool
  pub extra_sensitive_keys : List Text

-- The service's settings, and the module's state.
pub record Tracked (W : Type 0) : Type 0 where
  pub tracking : Tracking
  pub world : W

abbrev pub sdk_missing : Exc
sdk_missing =
    runtime_error
      (codes "SENTRY_DSN is set but sentry-sdk is not installed; install plugshub-common[sentry]")

-- What a call of the SDK does to the world, after which the state is set.
abbrev pub then_set :
    {W A : Type 0} → Exec W (Unit {0}) → Tracking → Tracking → A → Exec (Tracked W) A
then_set call before after a s =
    let (r, w) = call s.world in
    elim r [
      | ok x ↦ (ok a, record { tracking = after; world = w })
      | raised e ↦ (raised e, record { tracking = before; world = w })
    ]

-- `init_error_tracking` without an SDK of the caller's. `dsn` is the argument or the environment's
-- variable, `installed` whether the SDK can be imported, `init` its set-up with the tag of the
-- service.
unfoldable pub init_error_tracking :
    {W : Type 0} → Bool → Exec W (Unit {0}) → Text → List Text → Exec (Tracked W) Bool
init_error_tracking installed init [] extra s =
    (ok false, record s { tracking = record s.tracking { enabled = false; has_sdk = false } })
init_error_tracking installed init (c ∷ dsn) extra s =
    let keys = sensitive_keys ++ extra_sensitive ++ extra in
    let before : Tracking = record s.tracking { extra_sensitive_keys = keys } in
    let after : Tracking = record { enabled = true; has_sdk = true; extra_sensitive_keys = keys } in
    if installed then then_set init before after true s else (raised sdk_missing, s)

unfoldable pub reset_error_tracking : {W : Type 0} → Tracked W → Tracked W
reset_error_tracking s = record s {
  tracking = record { enabled = false; has_sdk = false; extra_sensitive_keys = [] };
}

unfoldable pub should_report : Exc → Bool
should_report (plugs_hub_error e) = leb 500 e.http_status
should_report _ = true

unfoldable pub capture_exception :
    {W : Type 0} → (Exc → Exec W (Unit {0})) → Exc → Exec (Tracked W) Bool
unfolding should_report
capture_exception send exc s =
    if not s.tracking.enabled || not s.tracking.has_sdk
    then (ok false, s)
    else if not (should_report exc)
    then (ok false, s)
    else then_set (send exc) s.tracking s.tracking true s

-- `tags.setdefault(k, v)`, where a context variable is set.
abbrev pub set_default : Text → Option Text → Fields → Fields
set_default k none tags = tags
set_default k (some t) tags = if is_some (get_field k tags) then tags else set_field k (str t) tags

-- `tags = scrubbed.get("tags")`, or a fresh dict if that is none.
abbrev pub tags_of : Option Value → Fields
tags_of (some (dict tags)) = tags
tags_of _ = end

-- `_scrub_event`; the dict of the tags is changed in place.
unfoldable pub scrub_event : Unicode → LogContext → Fields → List Text → Fields
unfolding mask_mapping set_field
scrub_event u ctx event extra_keys =
    let scrubbed = mask_mapping u event (some extra_keys) in
    let tags = tags_of (get_field (codes "tags") scrubbed) in
    let tagged =
      set_default (codes "tenant_id") ctx.tenant_id
        (set_default (codes "request_id") ctx.request_id tags) in
    set_field (codes "tags") (dict tagged) scrubbed
