-- ===== src/Http/Wiring/Tests.antt =====
-- `setup_http` on a framework that keeps what it is given, with an endpoint that raises an error whose
-- details do not render to JSON.
use plugshub_common.Common.{ℕ, ◌+◌, ◌≡◌, refl, true, none, some, []}
use plugshub_common.Text.{Text, codes}
use plugshub_common.Errors.{Exc}
use plugshub_common.Exec.{ok, raised, Exec}
use plugshub_common.Errors.{plugs_hub_error}
use plugshub_common.Common.Int.{ℤ}
use plugshub_common.Errors.{PlugsHubError}
use plugshub_common.Float.{whole}
use plugshub_common.Observability.{Tracked}
use plugshub_common.Http.{Request, Response, make_metrics, Serving}
use plugshub_common.Http.Wiring.{
  Endpoint, Middleware, Framework, by_plugshub, by_exception, setup_http,
}
use plugshub_common.Http.{status_of}
use plugshub_common.Errors.{
  make_error, not_found, error_envelope, to_envelope, add_details, type_error,
}
use plugshub_common.Common.{Option, is_some, if◌then◌else◌}
use plugshub_common.Value.{Value, dict, object, Fields, end, field, get_field}
use plugshub_common.Text.{text_eq}
use plugshub_common.Exec.{Result}
use plugshub_common.Observability.{capture_exception}
use plugshub_common.Http.{dispatch_context}
use plugshub_common.Http.Wiring.{
  handle_plugshub_error, handle_unexpected, build_request_context_middleware,
  install_exception_handlers,
}
use plugshub_common.Http.Wiring.Served.{Served}

abbrev S : Type 0
S = Serving whole (Tracked ℕ)

record App : Type 0 where
  endpoint : Endpoint whole (Tracked ℕ)
  middleware : Middleware whole (Tracked ℕ)
  own : Request → PlugsHubError → Exec S Response
  any : Request → Exc → Exec S Response

abbrev framework : Framework whole (Tracked ℕ) App
framework = record {
  add_middleware = λ m app. record app { middleware = m };
  add_plugshub_handler = λ h app. record app { own = h };
  add_exception_handler = λ h app. record app { any = h };
  plain = λ endpoint. record {
    endpoint = endpoint;
    middleware = λ next q s. (q, next q s);
    own = λ q e s. (raised (plugs_hub_error e), s);
    any = λ q e s. (raised e, s);
  };
  serve = λ app q s.
      by_exception whole (Tracked ℕ) app.any
        (app.middleware (λ q t. by_plugshub whole (Tracked ℕ) app.own q (app.endpoint q t)) q s);
}

abbrev orders : Request
orders = record {
  method = codes "GET";
  path = codes "/orders";
  header = λ name. none;
  state_id = [];
}

-- The world is the time and the number of reports.
abbrev start : S
start = record {
  context = record { request_id = none; tenant_id = none };
  metrics = some (make_metrics whole);
  world = record {
    tracking = record { enabled = true; has_sdk = true; extra_sensitive_keys = [] };
    world = 0;
  };
}

-- The details hold an object that is no JSON value.
abbrev fault : PlugsHubError
fault = make_error not_found none none none (some (field (codes "at") (object 7) end))

abbrev broken : Endpoint whole (Tracked ℕ)
broken request s = (raised (plugs_hub_error fault), s)

-- Whatever has details is refused.
abbrev render_error : Option Value → Result (Unit {0})
render_error (some (dict d)) =
    if is_some (get_field (codes "details") d) then raised (type_error []) else ok tt
render_error v = ok tt

abbrev render : Fields → Result (Unit {0})
render body = render_error (get_field (codes "error") body)

abbrev fresh : Tracked ℕ → Text
fresh n = codes "fresh"

abbrev clock : Tracked ℕ → ℕ
clock w = w.world

abbrev send : Exc → Exec ℕ (Unit {0})
send e w = (ok tt, w + 1)

abbrev show : ℤ → Text
show n = codes "30"

abbrev wired : App
wired = (setup_http framework fresh clock render show send (framework.plain broken) none).0

-- The caller gets the opaque reply.
unrendered : status_of (framework.serve wired orders start).0 ≡ 500
unfolding setup_http install_exception_handlers build_request_context_middleware dispatch_context
    handle_plugshub_error handle_unexpected to_envelope error_envelope get_field text_eq make_error
    add_details capture_exception
unrendered = refl
