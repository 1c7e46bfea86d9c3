-- ===== src/Clients/Tests.antt =====
-- The client at concrete requests.
use plugshub_common.Common.{
  ℕ, ◌≡◌, refl, true, false, none, some, List, [], ◌∷◌, ◌≤◌, length, ◌+◌, arith, inl, subst, ap,
  or_else, if◌then◌else◌, ◌==◌,
}
use plugshub_common.Text.{codes, starts_with, lstrip}
use plugshub_common.Exec.{Result, ok}
use plugshub_common.Errors.{is_exception}
use plugshub_common.Float.{whole}
use plugshub_common.Resilience.Retry.{Sys, Host}
use plugshub_common.Logging.{LogContext}
use plugshub_common.Clients.Sends.{Asked, OnlyThis, Asks, request_repeats_only_itself}
use plugshub_common.Clients.{
  HttpResponse, build_internal_headers, Session, ServiceClient, request_url, request,
}

joined :
    request_url (codes "http://billing") (codes "/v1/orders") ≡ codes "http://billing/v1/orders"
unfolding request_url starts_with lstrip
joined = refl

-- A relative path that starts with the letters "http" does not go to the base.
astray : request_url (codes "http://billing") (codes "https-certs") ≡ codes "https-certs"
unfolding request_url starts_with
astray = refl

abbrev ctx : LogContext
ctx = record { request_id = none; tenant_id = some (codes "acme") }

-- A server that logs what it is sent, and is out of order at the first request.
abbrev logging_server : Session (Sys whole (List Asked))
logging_server = record {
  Reply = ℕ;
  enter = λ m url hs j p s. (ok (length s.world), record s { world = (m, (url, hs)) ∷ s.world });
  leave = λ n s. (ok tt, s);
  text = λ n s. (ok (codes "{}"), s);
  status = λ n. if n == 0 then 503 else 200;
  headers = λ n. [];
}

logging_server-Asks : Asks (λ s. s.world) logging_server
logging_server-Asks = record {
  enter = λ m url hs j p s. inl refl;
  leave = λ n. record { at = λ s. refl };
  text = λ n. record { at = λ s. refl };
}

abbrev twice : ServiceClient whole (Sys whole (List Asked))
twice = record {
  base_url = codes "http://billing";
  token = codes "s3cret";
  retry = record {
    max_attempts = 3;
    base_delay = 1;
    max_delay = 5;
    multiplier = 2;
    jitter = false;
    retry_on = is_exception;
  };
  session = some logging_server;
  trip_on_5xx = true;
}

twice-Asks : (x : Session (Sys whole (List Asked))) → twice.session ≡ some x → Asks (λ s. s.world) x
twice-Asks x e = subst (Asks (λ s. s.world)) (some_same e) logging_server-Asks
  where
    some_same : {A : Type 1} {a b : A} → some a ≡ some b → a ≡ b
    some_same {a = a} h = ap (λ o. or_else o a) h

abbrev log_host : Host whole (List Asked)
log_host = record { clock = λ w. 0; uniform = λ x w. (x, w) }

abbrev nothing_sent : Sys whole (List Asked)
nothing_sent = record { breaker = none; world = [] }

abbrev after_request : Result HttpResponse × Sys whole (List Asked)
after_request =
    request whole log_host (λ n. []) (λ d s. (ok tt, s)) twice (codes "id-1") ctx (codes "GET")
      (codes "/v1") none none none none none nothing_sent

request_repeats_only_itself_example :
    OnlyThis
      (
        codes "GET",
        (
          request_url (codes "http://billing") (codes "/v1"),
          build_internal_headers (codes "id-1") ctx (codes "s3cret") none none none,
        ),
      )
      []
      after_request.1.world
    × (length after_request.1.world ≤ 0 + 3)
request_repeats_only_itself_example =
    request_repeats_only_itself whole log_host (λ n. []) (λ d s. (ok tt, s)) (λ w. w) (λ d s. refl)
      (λ x w. refl) twice twice-Asks (codes "id-1") ctx (codes "GET") (codes "/v1") none none none
      none none nothing_sent (omega arith)
