-- ===== src/Errors.antt =====
-- plugshub_common/errors.py: the exception hierarchy and the two response envelopes.
-- `Exc` also holds the other exceptions that the package raises or meets: the builtin ones that it
-- raises itself, and those of foreign code, told apart by a number.
pub mod Laws
mod Tests
use plugshub_common.Common.{
  ℕ, zero, suc, ◌+◌, ◌-◌, ◌*◌, ◌^◌, ◌≤◌, ◌<◌, String, ◌≡◌, refl, sym, ap, ◌∙◌, subst, ◌≢◌, ◌↔◌, ◌⊎◌,
  inl, inr, Bool, true, false, not, ◌&&◌, ◌||◌, Option, none, some, List, [], ◌∷◌, ◌++◌, map,
  append_assoc, append-nil, arith, ltb, leb, ◌==◌, if◌then◌else◌, ==_iff, Bool-cases, Option-cases,
  is_some, or_else, length, take, drop, all, any, length-append, length-take_le, take_all, All,
  All-append,
}
use plugshub_common.Common.Int.{ℤ}
use plugshub_common.Text.{Text, codes}
use plugshub_common.Value.{Value, str, dict, Fields, end, field, is_end, set_field}

-- A subclass that a service declares: its name, docstring and class attributes.
pub record Subclass : Type 0 where
  pub name : Text
  pub doc : Option Text
  pub code : Text
  pub http_status : ℕ

-- `self.__class__`
pub data Kind : Type 0 where
  plugs_hub invalid_body validation_failed unauthorized forbidden not_found : Kind
  conflict precondition_failed rate_limited dependency_unavailable internal : Kind
  service : Subclass → Kind

-- The class attribute `code`.
unfoldable pub class_code : Kind → Text
class_code plugs_hub = codes "common.error"
class_code invalid_body = codes "common.invalid_body"
class_code validation_failed = codes "common.validation_error"
class_code unauthorized = codes "common.unauthorized"
class_code forbidden = codes "common.forbidden"
class_code not_found = codes "common.not_found"
class_code conflict = codes "common.conflict"
class_code precondition_failed = codes "common.precondition_failed"
class_code rate_limited = codes "common.rate_limited"
class_code dependency_unavailable = codes "common.dependency_unavailable"
class_code internal = codes "common.internal"
class_code (service c) = c.code

-- The class attribute `http_status`.
unfoldable pub class_status : Kind → ℕ
class_status plugs_hub = 500
class_status invalid_body = 400
class_status validation_failed = 422
class_status unauthorized = 401
class_status forbidden = 403
class_status not_found = 404
class_status conflict = 409
class_status precondition_failed = 412
class_status rate_limited = 429
class_status dependency_unavailable = 503
class_status internal = 500
class_status (service c) = c.http_status

-- `__doc__`; the docstring of the base class has a first line and a paragraph.
unfoldable pub class_doc : Kind → Option Text
class_doc plugs_hub = some (
    codes "Base of the shared exception hierarchy (Article V §1)."
    ++ 10
      ∷ 10
      ∷ codes
          "    Carries the machine ``code`` (namespaced ``domain.reason``), a developer/log-facing ``message``,"
    ++ 10
      ∷ codes
          "    the authoritative ``http_status``, and optional structured ``details``. Never expose raw"
    ++ 10
      ∷ codes
          "    exception strings or stack traces to clients (Article V §2) — render via :func:`error_envelope`."
    ++ 10 ∷ codes "    ")
class_doc invalid_body =
    some (codes "A missing or malformed request body — never a server fault (Article XVI §1).")
class_doc validation_failed =
    some (codes "Boundary validation rejected typed input (Article VI §5).")
class_doc unauthorized =
    some (codes "Missing or invalid authentication credential (Article XVI §7).")
class_doc forbidden =
    some (codes "Authenticated but not permitted — deny-by-default (Article XIX §2).")
class_doc not_found =
    some (codes "Requested resource does not exist (or is not visible to the principal).")
class_doc conflict =
    some (codes "State conflict — e.g. a stale optimistic-lock write (Article VI §9).")
class_doc precondition_failed =
    some (codes "An ``If-Match``/version precondition failed (Article VI §9).")
class_doc rate_limited =
    some (codes "Throttled — pairs with a ``Retry-After`` header and 429 (Article XVI §3d).")
class_doc dependency_unavailable =
    some (
      codes "A downstream dependency is unavailable — degrade this feature only (Article XXVI §3).")
class_doc internal =
    some
      (codes "An unexpected server fault (Article XVI §5) — the only class that logs at ERROR/5xx.")
class_doc (service c) = c.doc

-- `__name__`
unfoldable pub class_name : Kind → Text
class_name plugs_hub = codes "PlugsHubError"
class_name invalid_body = codes "InvalidBodyError"
class_name validation_failed = codes "ValidationFailedError"
class_name unauthorized = codes "UnauthorizedError"
class_name forbidden = codes "ForbiddenError"
class_name not_found = codes "NotFoundError"
class_name conflict = codes "ConflictError"
class_name precondition_failed = codes "PreconditionFailedError"
class_name rate_limited = codes "RateLimitedError"
class_name dependency_unavailable = codes "DependencyUnavailableError"
class_name internal = codes "InternalError"
class_name (service c) = c.name

-- An instance; `retry_after` is set on a `RateLimitedError` alone.
pub record PlugsHubError : Type 0 where
  pub kind : Kind
  pub message : Text
  pub code : Text
  pub http_status : ℕ
  pub details : Option Fields
  pub retry_after : Option ℤ

-- `a or b`, for an optional text
abbrev pub or_text : Option Text → Text → Text
or_text none b = b
or_text (some []) b = b
or_text (some (c ∷ t)) b = c ∷ t

-- The constructor, `PlugsHubError.__init__`.
unfoldable pub make_error :
    Kind → Option Text → Option Text → Option ℕ → Option Fields → PlugsHubError
unfolding class_code class_status class_doc class_name
make_error kind message code http_status details = record {
  kind = kind;
  message = or_text message (or_text (class_doc kind) (class_name kind));
  code = or_else code (class_code kind);
  http_status = or_else http_status (class_status kind);
  details = details;
  retry_after = none;
}

-- `RateLimitedError.__init__`
unfoldable pub make_rate_limited :
    Option Text → Option ℤ → Option Text → Option ℕ → Option Fields → PlugsHubError
unfolding make_error
make_rate_limited message retry_after code http_status details =
    record (make_error rate_limited message code http_status details) { retry_after = retry_after }

-- `if details: error["details"] = details`
unfoldable pub add_details : Option Fields → Fields → Fields
unfolding set_field
add_details none error = error
add_details (some d) error = if is_end d then error else set_field (codes "details") (dict d) error

unfoldable pub error_envelope : Text → Text → Text → Option Fields → Fields
unfolding add_details
error_envelope code message request_id details =
    field (codes "error")
      (dict (
        add_details details (
          field (codes "code") (str code) (
            field (codes "message") (str message)
              (field (codes "request_id") (str request_id) end)))))
      end

-- `PlugsHubError.to_envelope`
unfoldable pub to_envelope : PlugsHubError → Text → Fields
unfolding error_envelope
to_envelope e request_id = error_envelope e.code e.message request_id e.details

unfoldable pub success_envelope : Value → Option Fields → Fields
unfolding set_field
success_envelope value none = field (codes "data") value end
success_envelope value (some meta) =
    set_field (codes "meta") (dict meta) (field (codes "data") value end)

-- `CircuitBreakerOpen`, `TransientHTTPError` and `ConfigError` are `RuntimeError`s of the package.
-- `other` is an exception of foreign code, `base_other` one that is no `Exception`, such as
-- `asyncio.CancelledError`.
pub data Exc : Type 0 where
  plugs_hub_error : PlugsHubError → Exc
  circuit_breaker_open transient_http_error config_error : Text → Exc
  value_error type_error runtime_error key_error : Text → Exc
  assertion_error index_error overflow_error : Exc
  other base_other : ℕ → Exc

-- `isinstance(exc, Exception)`
abbrev pub is_exception : Exc → Bool
is_exception (base_other n) = false
is_exception _ = true

unfoldable pub error_from_exception : Exc → Text → Fields
unfolding to_envelope
error_from_exception (plugs_hub_error e) request_id = to_envelope e request_id
error_from_exception _ request_id =
    error_envelope (codes "common.internal") (codes "Internal server error") request_id none
