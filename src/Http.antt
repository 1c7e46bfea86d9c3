-- ===== src/Http.antt =====
-- plugshub_common/http_middleware.py and the middleware of plugshub_common/service_auth.py: what
-- stands between Starlette and the service. The application behind, the clock, and what the error
-- tracker's SDK does are parameters; a request's headers are a function, since Starlette looks them
-- up in any letter case.
pub mod Edge
pub mod Wiring
pub mod Handoff
mod Tests
use plugshub_common.Common.{
  ℕ, zero, suc, ◌+◌, ◌-◌, ◌*◌, ◌^◌, ◌≤◌, ◌<◌, String, ◌≡◌, refl, sym, ap, ◌∙◌, subst, ◌≢◌, ◌↔◌, ◌⊎◌,
  inl, inr, Bool, true, false, not, ◌&&◌, ◌||◌, Option, none, some, List, [], ◌∷◌, ◌++◌, map,
  append_assoc, append-nil, arith, ltb, leb, ◌==◌, if◌then◌else◌, ==_iff, Bool-cases, Option-cases,
  is_some, or_else, length, replicate, take, drop, all, any, length-append, length-take_le,
  take_all, All, All-append,
}
use plugshub_common.Common.Int.{ℤ}
use plugshub_common.Text.{Text, codes, is_empty, mem, rstrip}
use plugshub_common.Value.{Fields}
use plugshub_common.Dict.{Dict, get, insert}
use plugshub_common.Errors.{
  Exc, is_exception, plugs_hub_error, PlugsHubError, or_text, error_envelope, to_envelope,
  error_from_exception,
}
use plugshub_common.Exec.{Result, ok, raised, Exec, try_then}
use plugshub_common.Float.{Float}
use plugshub_common.Logging.{LogContext, set_request_context, clear_request_context}
use plugshub_common.Observability.{Tracked, capture_exception}
use plugshub_common.ServiceAuth.{
  internal_token_header, request_id_header, tenant_id_header, verify_service_token, is_public_path,
}

-- `state_id` is `request.state.request_id`, empty where it is not set.
pub record Request : Type 0 where
  pub method : Text
  pub path : Text
  pub header : Text → Option Text
  pub state_id : Text

-- A JSON body of this package, or a body of the application's, told apart by a number.
pub data Body : Type 0 where
  json : Fields → Body
  content : ℕ → Body

pub record Response : Type 0 where
  pub status : ℕ
  pub headers : Dict Text
  pub body : Body

-- The reply of the application, with the request id on it.
abbrev pub echo : Text → Result Response → Result Response
echo request_id (ok r) = ok (record r { headers = insert request_id_header request_id r.headers })
echo request_id (raised e) = raised e

abbrev pub status_of : Result Response → ℕ
status_of (ok r) = r.status
status_of (raised e) = 500

abbrev pub unauthorized_reply : Text → Response
unauthorized_reply request_id = record {
  status = 401;
  headers = [];
  body = json (
      error_envelope (codes "common.service_unauthorized")
        (codes "missing or invalid internal service token") request_id none);
}

module _ (fl : Float) where
  -- A value of `by_route`.
  pub record Bucket : Type 0 where
    pub requests : fl.F
    pub errors : fl.F
    pub duration : fl.F

  pub record RedMetrics : Type 0 where
    pub requests : ℕ
    pub errors : ℕ
    pub total_duration : fl.F
    pub by_route : Dict Bucket

  abbrev pub zero_float : fl.F
  zero_float = fl.decimal 0 0

  abbrev pub one_float : fl.F
  one_float = fl.decimal 1 0

  unfoldable pub make_metrics : RedMetrics
  make_metrics = record { requests = 0; errors = 0; total_duration = zero_float; by_route = [] }

  -- `setdefault(key, {...})`
  abbrev pub bucket_or_new : Option Bucket → Bucket
  bucket_or_new none = record { requests = zero_float; errors = zero_float; duration = zero_float }
  bucket_or_new (some b) = b

  abbrev pub route : Text → Text → Text
  route method path = method ++ codes " " ++ path

  unfoldable pub record_request : Text → Text → ℕ → fl.F → RedMetrics → RedMetrics
  unfolding get insert
  record_request method path status duration m =
      let fault = leb 500 status in
      let old = bucket_or_new (get (route method path) m.by_route) in
      let bucket : Bucket = record {
        requests = fl.add old.requests one_float;
        duration = fl.add old.duration duration;
        errors = if fault then fl.add old.errors one_float else old.errors;
      } in
      record {
        requests = m.requests + 1;
        total_duration = fl.add m.total_duration duration;
        errors = if fault then m.errors + 1 else m.errors;
        by_route = insert (route method path) bucket m.by_route;
      }

  -- The log context of the task, the metrics and everything else.
  pub record Serving (W : Type 0) : Type 0 where
    pub context : LogContext
    pub metrics : Option RedMetrics
    pub world : W

  abbrev pub count : Request → ℕ → fl.F → Option RedMetrics → Option RedMetrics
  count request status duration none = none
  count request status duration (some m) =
      some (record_request request.method request.path status duration m)

  -- `RequestContextMiddleware.dispatch`; `new_request_id` and `clock` read the world. The `finally`
  -- block runs whether the application replies or raises. `recorder` is the recorder that the class
  -- was built with, if any; what it holds is in the state.
  unfoldable pub dispatch_context :
      {W : Type 0}
      → Option RedMetrics
      → (W → Text)
      → (W → fl.F)
      → (Request → Exec (Serving W) Response)
      → Request
      → Exec (Serving W) Response
  unfolding record_request set_request_context clear_request_context insert
  dispatch_context {W = W} recorder new_request_id clock call_next request s =
      let request_id = or_text (request.header request_id_header) (new_request_id s.world) in
      let bound : Serving W = record s {
        context = set_request_context (some request_id) (request.header tenant_id_header) s.context;
      } in
      let (reply, s1) = call_next (record request { state_id = request_id }) bound in
      let duration = fl.sub (clock s1.world) (clock s.world) in
      (
        echo request_id reply,
        record s1 {
          metrics =
              if is_some recorder
              then count request (status_of reply) duration s1.metrics
              else s1.metrics;
          context = clear_request_context s1.context;
        },
      )

  -- `ServiceAuthMiddleware.dispatch`; the application's outcome is used only when the call is let
  -- through.
  unfoldable pub dispatch_auth :
      {W : Type 0}
      → Text
      → List Text
      → (Request → Exec (Serving W) Response)
      → Request
      → Exec (Serving W) Response
  unfolding set_request_context is_public_path verify_service_token
  dispatch_auth {W = W} expected public call_next request s =
      let request_id = request.header request_id_header in
      let bound : Serving W = record s {
        context = set_request_context request_id (request.header tenant_id_header) s.context;
      } in
      if is_public_path request.path public
      then call_next request bound
      else if verify_service_token (request.header internal_token_header) expected
      then call_next request bound
      else (ok (unauthorized_reply (or_text request_id [])), bound)

-- `_request_id`
abbrev pub id_of : Request → Text
id_of request =
    if is_empty request.state_id
    then or_text (request.header request_id_header) []
    else request.state_id

-- `str(exc.retry_after)`, where `show` is `str`; only a `RateLimitedError` has one.
abbrev pub retry_headers : (ℤ → Text) → Option ℤ → Dict Text → Dict Text
retry_headers show none headers = headers
retry_headers show (some n) headers = insert (codes "Retry-After") (show n) headers

-- `JSONResponse(body, ...)`, which renders the body when it is made: `render` is what `json.dumps`
-- does of it, which raises for a value that JSON has no form of.
abbrev pub json_response :
    {S : Type 0} → (Fields → Result (Unit {0})) → Fields → Response → Exec S Response
json_response render body reply s = (try_then (render body) (λ x. ok reply), s)
