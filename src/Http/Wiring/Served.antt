-- ===== src/Http/Wiring/Served.antt =====
-- What a request gets from an app that `setup_http` has wired (plugshub_common/http_middleware.py).
use plugshub_common.Common.{◌≡◌, ◌⊎◌, true, false, Option, none, some, []}
use plugshub_common.Common.Int.{ℤ}
use plugshub_common.Text.{Text, codes}
use plugshub_common.Value.{Fields}
use plugshub_common.Errors.{
  Exc, is_exception, plugs_hub_error, PlugsHubError, error_envelope, to_envelope,
}
use plugshub_common.Errors.Laws.{is_plugs_hub}
use plugshub_common.Exec.{Result, ok, raised, Exec}
use plugshub_common.Dict.{get, insert}
use plugshub_common.Float.{Float}
use plugshub_common.Logging.{clear_request_context}
use plugshub_common.Observability.{Tracked}
use plugshub_common.ServiceAuth.{request_id_header}
use plugshub_common.Http.{Request, Response, json, RedMetrics, Serving, echo, status_of, count}
use plugshub_common.Http.Edge.{Counted}
use plugshub_common.Http.Wiring.{
  handle_plugshub_error, handle_unexpected, on_world, by_plugshub, by_exception,
}

-- The envelope of an exception that is no `PlugsHubError`.
abbrev pub opaque : Text → Fields
opaque i = error_envelope (codes "common.internal") (codes "Internal server error") i none

-- `json.dumps`: it renders the opaque envelope, and raises nothing but exceptions that are no
-- `PlugsHubError`, such as a `TypeError`.
pub record RendersJson (render : Fields → Result (Unit {0})) (i : Text) : Type 0 where
  pub plain : render (opaque i) ≡ ok tt
  pub faults :
      (body : Fields) (e : Exc)
      → render body ≡ raised e
      → (is_exception e ≡ true) × (is_plugs_hub e ≡ false)

-- The reply to an exception: the status and the envelope of a `PlugsHubError`, if its envelope renders
-- to JSON, and otherwise an opaque 500.
abbrev pub Replied : (Fields → Result (Unit {0})) → Text → Exc → Response → Type 0
Replied render i e reply =
    (get request_id_header reply.headers ≡ some i)
    × (((x : PlugsHubError) × (e ≡ plugs_hub_error x)
          × (render (to_envelope x i) ≡ ok tt)
          × (reply.status ≡ x.http_status)
          × (reply.body ≡ json (to_envelope x i)))
        ⊎ (((is_plugs_hub e ≡ false)
              ⊎ ((x : PlugsHubError) × (f : Exc) × (e ≡ plugs_hub_error x)
                  × (render (to_envelope x i) ≡ raised f)))
            × (reply.status ≡ 500)
            × (reply.body ≡ json (opaque i))))

-- The outcome of a request, by that of the endpoint. A reply keeps its status and body; an exception
-- becomes the reply that the error handlers give it; what is no `Exception` passes through. The
-- metrics count the status of the reply.
abbrev pub Served :
    {fl : Float}
    → (Fields → Result (Unit {0}))
    → Text
    → Result Response
    → Option (RedMetrics fl)
    → Result Response
    → Option (RedMetrics fl)
    → Type 0
Served render i (ok r) m out after =
    (reply : Response) × (out ≡ ok reply)
    × (get request_id_header reply.headers ≡ some i)
    × (reply.status ≡ r.status)
    × (reply.body ≡ r.body)
    × Counted reply.status m after
Served render i (raised e) m out after =
    ((is_exception e ≡ true)
      × ((reply : Response) × (out ≡ ok reply)
          × Replied render i e reply
          × Counted reply.status m after))
    ⊎ ((is_exception e ≡ false) × (out ≡ raised e) × Counted 500 m after)

opaque_reply : Text → Response
opaque_reply i = record {
  status = 500;
  headers = insert request_id_header i [];
  body = json (opaque i);
}

module _ (fl : Float) {V : Type 0} (render : Fields → Result (Unit {0})) (show : ℤ → Text)
    (send : Exc → Exec V (Unit {0})) (sends : (e : Exc) (w : V) → (send e w).0 ≡ ok tt)
    (request : Request) (duration : Serving fl (Tracked V) → fl.F) where
  -- What the middleware does after the call of the application.
  abbrev ended :
      Text → Result Response × Serving fl (Tracked V) → Result Response × Serving fl (Tracked V)
  ended i (reply, s) = (
    echo i reply,
    record s {
      metrics = count fl request (status_of reply) (duration s) s.metrics;
      context = clear_request_context s.context;
    },
  )

  abbrev finished :
      Text
      → Request
      → Result Response × Serving fl (Tracked V)
      → Result Response × Serving fl (Tracked V)
  finished i q out =
      by_exception fl (Tracked V) (λ q' e. on_world (handle_unexpected render send q' e))
        (
          q,
          ended i (
              by_plugshub fl (Tracked V)
                (λ q' e. on_world (handle_plugshub_error render show send q' e)) q out),
        )
