-- ===== src/Lib.antt =====
-- plugshub-common (plugshub_common/), the library that every service of a fleet imports: errors
-- and their envelopes, retries behind a circuit breaker, tenant ids, database access, structured
-- logs, an audit trail, feature flags, events, money and time, and the HTTP edge. This library
-- models it component by component and proves what each promises to its callers.
--
-- The parts, and the files that model them:
--   Errors         errors.py: `Kind` is the class of an error, `make_error` the constructor,
--                  `error_from_exception` the one mapping from exceptions to envelopes. `Exc` also
--                  holds the other exceptions that the package raises or meets.
--   Resilience     resilience.py: Resilience/Breaker is the class CircuitBreaker, one function for
--                  each method, with the clock's reading as an argument; Resilience/Retry is
--                  retry_async.
--   Tenant         tenant.py: the layers of validate_tenant, its two regular expressions as
--                  matchers.
--   Db             db.py: Db/Driver is what is used of aiomysql, Db/Pool the class DBPool
--                  (`DbPool`), from its life cycle to the three query methods, Db/Resolver the
--                  class TenantResolver; Db/Isolation joins the two.
--   Logging        logging.py: the context variables, mask and mask_mapping; Logging/Format has
--                  the fields of a log line and configure_logging.
--   Messaging      messaging.py: the event envelope, the outbox and its relay, the consumer;
--                  Messaging/System is all of them with a broker, as a step relation, and
--                  Messaging/Drain the loop that calls the relay; Messaging/Overlap splits a
--                  delivery at the await of the handler.
--   ServiceAuth    service_auth.py: the credential; its middleware stands in Http.
--   Observability  observability.py: the set-up of error tracking, the filter, the scrubbing of
--                  events.
--   Http           http_middleware.py and the middleware of service_auth.py: the request context,
--                  the RED metrics and the error handlers; Http/Wiring is setup_http, and
--                  Http/Handoff a call from one service to another.
--   Clients        clients.py: the headers, the URL and the request of ServiceClient;
--                  Clients/Lifecycle opens and closes its session.
--   Authz          authz.py: permissions and ownership; Authz/Claims builds the principal of a
--                  token's claims and has the dependency that checks a permission.
--   Canonical      canonical.py: Canonical/Calendar, Canonical/DateTime and Canonical/Iso are what
--                  is used of Python's datetime, Canonical/Time the instants and their RFC 3339
--                  texts, Canonical/Money the class Money.
--   FeatureFlags   featureflags.py: one file for each of the three providers.
--   Audit          audit.py: the record, the interface `AuditSink` with its laws, which the two
--                  sinks of Audit/Sinks keep, and the writer over any such sink.
--   Validation     validation.py: request bodies and models. Preauth, Health and Config are
--                  preauth.py, health.py and config.py.
--   Common, Text, Value, Dict, Exec and Float are shared: lists and integers, Python's str as a
--   list of code points, the untyped values of JSON, dicts in insertion order, code that raises
--   and changes state, and floats.
--
-- How they interact: a query (Db/Pool) and any other remote call run under retry_async, whose
-- breaker other tasks may move while a call is awaited; so the awaited calls are functions on
-- the whole state of the breaker and the world. The resolver validates an id with Tenant before
-- it names a schema, and a query that is given the schema runs there. The client puts the ids of
-- its log context into the headers from which the called service binds its own. The relay, the
-- broker and the consumer run in any order and fail on their own: a step of Messaging/System is
-- one of them. The HTTP edge binds the log context, which the events, the log lines and the
-- error reports read, and hands an exception to Errors for the reply and to Observability for
-- the report. An audit record takes its ids from the log context and its timestamp from
-- Canonical; a body that Validation refuses is an error of Errors; the ids of tenants in a
-- pre-auth key are those that Tenant accepts.
--
-- State and errors: an operation takes the state and gives its result or exception with the
-- state that it leaves (`Exec`), so that what was written before an exception stays written. An
-- exception that is no `Exception` in Python, such as a cancellation, is `base_other`.
--
-- Parameters stand for code that is not in the repository: `Driver` (aiomysql and the sockets),
-- `Host` (the clock and the random source), `Float` (comparison and arithmetic of floats, with
-- `FloatLaws` where order matters), `Unicode` (case and letters above code point 127), the
-- application behind the middlewares, `Framework` (FastAPI on Starlette), the broker, `Session`
-- (a session of aiohttp), the handler of events, the SDK of the error tracker, the environment,
-- the store of the feature flags, json.loads and json.dumps, pydantic, and the audit logger.
-- What is assumed of one is a hypothesis of the theorem that needs it, and its witness gives an
-- instance.
--
-- Bounds and recursion: integers of Python are natural numbers where the code counts, and signed
-- integers without bounds elsewhere; no machine-width integer occurs. The one loop without a
-- list to follow is that of retry_async: it recurs on the rounds that are left, and as Python's
-- range gives one round for each attempt, max_attempts of them are all there are. Everything
-- else recurs on its data.
--
-- Not modelled: the JSON text of log lines and where they go, metrics back ends, and the base
-- class of settings, which only configures pydantic-settings. Of datetime, fromisoformat reads
-- what Python 3.9 reads, the oldest version that the package supports. NaN is left out by
-- `FloatLaws` where these are assumed. `lower` maps code point by code point, so a capital sigma
-- at the end of a word becomes what `Unicode` gives for it anywhere. Of floats only the overflow
-- of a power is an error. The redirects that aiohttp follows within one call of
-- `session.request` are its own.
pub mod Common
pub mod Text
pub mod Dict
pub mod Value
pub mod Errors
pub mod Exec
pub mod Float
pub mod Resilience
pub mod Tenant
pub mod Db
pub mod Logging
pub mod Messaging
pub mod ServiceAuth
pub mod Observability
pub mod Http
pub mod Clients
pub mod Authz
pub mod Canonical
pub mod FeatureFlags
pub mod Audit
pub mod Validation
pub mod Preauth
pub mod Health
pub mod Config
