-- ===== src/Http/Wiring.antt =====
-- How `setup_http` and `install_exception_handlers` of plugshub_common/http_middleware.py wire a
-- FastAPI app. The framework (FastAPI on Starlette) is a parameter: what it does with the middleware
-- and the handlers it is given is the hypothesis `IsStarlette`.
pub mod Served
mod Tests
use plugshub_common.Common.{
  ℕ, zero, suc, ◌+◌, ◌-◌, ◌*◌, ◌^◌, ◌≤◌, ◌<◌, String, ◌≡◌, refl, sym, ap, ◌∙◌, subst, ◌≢◌, ◌↔◌, ◌⊎◌,
  inl, inr, Bool, true, false, not, ◌&&◌, ◌||◌, Option, none, some, List, [], ◌∷◌, ◌++◌, map,
  append_assoc, append-nil, arith, ltb, leb, ◌==◌, if◌then◌else◌, ==_iff, Bool-cases, Option-cases,
  is_some, or_else, length, replicate, take, drop, all, any, length-append, length-take_le,
  take_all, All, All-append,
}
use plugshub_common.Text.{Text, codes, text_eq, is_empty, mem}
use plugshub_common.Value.{Value, str, Fields, end, field, get_field}
use plugshub_common.Errors.{Exc, is_exception, other}
use plugshub_common.Exec.{Result, ok, raised, Exec, Result-cases}
use plugshub_common.Dict.{insert}
use plugshub_common.Common.Int.{ℤ}
use plugshub_common.Errors.{
  PlugsHubError, plugs_hub_error, or_text, to_envelope, error_from_exception,
}
use plugshub_common.Exec.{◌>>◌}
use plugshub_common.Float.{Float}
use plugshub_common.Observability.{Tracked, capture_exception}
use plugshub_common.ServiceAuth.{request_id_header}
use plugshub_common.Http.{
  Request, Response, json, RedMetrics, make_metrics, Serving, dispatch_context, id_of,
  retry_headers, json_response,
}

-- The reply of `_handle_plugshub_error`
abbrev pub plugshub_reply : (ℤ → Text) → Text → PlugsHubError → Response
plugshub_reply show request_id e = record {
  status = e.http_status;
  headers = retry_headers show e.retry_after (insert request_id_header request_id []);
  body = json (to_envelope e request_id);
}

-- `_handle_plugshub_error`; `render` is what the rendering of a body to JSON does.
unfoldable pub handle_plugshub_error :
    {W : Type 0}
    → (Fields → Result (Unit {0}))
    → (ℤ → Text)
    → (Exc → Exec W (Unit {0}))
    → Request
    → PlugsHubError
    → Exec (Tracked W) Response
unfolding capture_exception to_envelope
handle_plugshub_error render show send request e =
    let request_id = id_of request in
    capture_exception send (plugs_hub_error e)
    >> json_response render (to_envelope e request_id) (plugshub_reply show request_id e)

-- The reply of `_handle_unexpected`
abbrev pub unexpected_reply : Text → Exc → Response
unexpected_reply request_id e = record {
  status = 500;
  headers = insert request_id_header request_id [];
  body = json (error_from_exception e request_id);
}

-- `_handle_unexpected`
unfoldable pub handle_unexpected :
    {W : Type 0}
    → (Fields → Result (Unit {0}))
    → (Exc → Exec W (Unit {0}))
    → Request
    → Exc
    → Exec (Tracked W) Response
unfolding capture_exception error_from_exception
handle_unexpected render send request e =
    let request_id = id_of request in
    capture_exception send e
    >> json_response render (error_from_exception e request_id) (unexpected_reply request_id e)

-- A handler sees what the request carries besides the metrics and the log context.
abbrev pub on_world : {fl : Float} {W A : Type 0} → Exec W A → Exec (Serving fl W) A
on_world handler s = let (r, world) = handler s.world in (r, record s { world = world })

module _ (fl : Float) (W : Type 0) where
  abbrev pub Endpoint : Type 0
  Endpoint = Request → Exec (Serving fl W) Response

  -- A middleware also leaves the request as it changed it: Starlette keeps `request.state` in the
  -- scope, which everyone who serves the request shares.
  abbrev pub Middleware : Type 0
  Middleware = Endpoint → Request → Serving fl W → Request × (Result Response × Serving fl W)

  -- What the package calls of an app, and `serve`, which tells the reply to a request.
  pub record Framework (App : Type 0) : Type 0 where
    pub add_middleware : Middleware → App → App
    pub add_plugshub_handler : (Request → PlugsHubError → Exec (Serving fl W) Response) → App → App
    pub add_exception_handler : (Request → Exc → Exec (Serving fl W) Response) → App → App
    pub plain : Endpoint → App
    pub serve : App → Endpoint

  -- What a handler makes of an outcome: that of an exception class, between the middleware and the
  -- endpoint, and that of every exception, outside the middleware.
  abbrev pub by_plugshub :
      (Request → PlugsHubError → Exec (Serving fl W) Response)
      → Request
      → Result Response × Serving fl W
      → Result Response × Serving fl W
  by_plugshub handler request (ok r, s) = (ok r, s)
  by_plugshub handler request (raised (plugs_hub_error e), s) = handler request e s
  by_plugshub handler request (raised e, s) = (raised e, s)

  abbrev pub by_exception :
      (Request → Exc → Exec (Serving fl W) Response)
      → Request × (Result Response × Serving fl W)
      → Result Response × Serving fl W
  by_exception handler (request, (ok r, s)) = (ok r, s)
  by_exception handler (request, (raised e, s)) =
      if is_exception e then handler request e s else (raised e, s)

  -- Starlette's order: the handler of `Exception` is outermost (it replies, whatever the server logs
  -- after that), then the middleware, then the handlers of other classes, then the endpoint.
  pub record IsStarlette {App : Type 0} (framework : Framework App) : Type 0 where
    pub wired :
        (middleware : Middleware) (own : Request → PlugsHubError → Exec (Serving fl W) Response)
        (any : Request → Exc → Exec (Serving fl W) Response) (endpoint : Endpoint)
        (request : Request) (s : Serving fl W)
        → framework.serve
            (framework.add_exception_handler any (
              framework.add_plugshub_handler own
                (framework.add_middleware middleware (framework.plain endpoint))))
            request
            s
          ≡ by_exception any (middleware (λ q t. by_plugshub own q (endpoint q t)) request s)

module _ {fl : Float} {V : Type 0} where
  -- The class that the function returns, by its `dispatch`.
  unfoldable pub build_request_context_middleware :
      Option (RedMetrics fl) → (Tracked V → Text) → (Tracked V → fl.F) → Middleware fl (Tracked V)
  unfolding dispatch_context
  build_request_context_middleware metrics new_request_id clock call_next request s =
      let request_id = or_text (request.header request_id_header) (new_request_id s.world) in
      (
        record request { state_id = request_id },
        dispatch_context fl metrics new_request_id clock call_next request s,
      )

module _ {fl : Float} {V App : Type 0} (framework : Framework fl (Tracked V) App) where
  unfoldable pub install_exception_handlers :
      (Fields → Result (Unit {0})) → (ℤ → Text) → (Exc → Exec V (Unit {0})) → App → App
  unfolding handle_plugshub_error handle_unexpected
  install_exception_handlers render show send app =
      framework.add_exception_handler
        (λ request e. on_world (handle_unexpected render send request e))
        (framework.add_plugshub_handler
          (λ request e. on_world (handle_plugshub_error render show send request e)) app)

  -- The app, and the recorder that it uses: the caller's, or a new one.
  unfoldable pub setup_http :
      (Tracked V → Text)
      → (Tracked V → fl.F)
      → (Fields → Result (Unit {0}))
      → (ℤ → Text)
      → (Exc → Exec V (Unit {0}))
      → App
      → Option (RedMetrics fl)
      → App × RedMetrics fl
  unfolding build_request_context_middleware install_exception_handlers make_metrics
  setup_http new_request_id clock render show send app metrics =
      let recorder = or_else metrics (make_metrics fl) in
      let middleware = build_request_context_middleware (some recorder) new_request_id clock in
      (
        install_exception_handlers render show send (framework.add_middleware middleware app),
        recorder,
      )
