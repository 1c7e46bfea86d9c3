-- ===== src/Clients.antt =====
-- plugshub_common/clients.py: the client for internal calls. The pooled session of aiohttp is a
-- parameter, `Session`; each of its calls may raise and change the state.
pub mod Urls
pub mod Replies
pub mod Sends
pub mod Lifecycle
mod Tests
use plugshub_common.Common.{
  ℕ, zero, suc, ◌+◌, ◌-◌, ◌*◌, ◌^◌, ◌≤◌, ◌<◌, String, ◌≡◌, refl, sym, ap, ◌∙◌, subst, ◌≢◌, ◌↔◌, ◌⊎◌,
  inl, inr, Bool, true, false, not, ◌&&◌, ◌||◌, Option, none, some, List, [], ◌∷◌, ◌++◌, map,
  append_assoc, append-nil, arith, ltb, leb, ◌==◌, if◌then◌else◌, ==_iff, Bool-cases, Option-cases,
  is_some, or_else, length, replicate, take, drop, all, any, length-append, length-take_le,
  take_all, All, All-append,
}
use plugshub_common.Text.{Text, codes, starts_with, lstrip, rstrip}
use plugshub_common.Value.{Value, Fields}
use plugshub_common.Dict.{Dict, get, insert, update}
use plugshub_common.Errors.{Exc, runtime_error, transient_http_error, or_text}
use plugshub_common.Exec.{Result, ok, raised, Exec, pure, raise, ◌>>=◌}
use plugshub_common.Float.{Float}
use plugshub_common.Resilience.Retry.{Sys, Host, RetryPolicy, retry_async}
use plugshub_common.Logging.{LogContext, keep_old, current_request_id, current_tenant_id}
use plugshub_common.ServiceAuth.{internal_token_header, request_id_header, tenant_id_header}
use plugshub_common.Db.Pool.{with_context}

pub record HttpResponse : Type 0 where
  pub status : ℕ
  pub headers : Dict Text
  pub body : Text

-- `headers[TENANT_ID_HEADER] = tenant`, where there is one
abbrev pub set_tenant : Option Text → Dict Text → Dict Text
set_tenant none headers = headers
set_tenant (some tenant) headers = insert tenant_id_header tenant headers

abbrev pub add_extra : Option (Dict Text) → Dict Text → Dict Text
add_extra none headers = headers
add_extra (some extra) headers = update headers extra

-- `new_id` is `new_request_id()`.
unfoldable pub build_internal_headers :
    Text → LogContext → Text → Option Text → Option Text → Option (Dict Text) → Dict Text
unfolding insert update
build_internal_headers new_id ctx token tenant_id request_id extra =
    let req_id = or_text request_id (or_text (current_request_id ctx) new_id) in
    let headers = (request_id_header, req_id) ∷ (internal_token_header, token) ∷ [] in
    add_extra extra (set_tenant (keep_old tenant_id (current_tenant_id ctx)) headers)

-- `self.base_url`
abbrev pub base_url_of : Text → Text
base_url_of base_url = rstrip b'/' base_url

unfoldable pub request_url : Text → Text → Text
unfolding starts_with lstrip
request_url base_url path =
    if starts_with path (codes "http") then path else base_url ++ codes "/" ++ lstrip b'/' path

-- What is used of an aiohttp session: `session.request` entered and left, `resp.text()`, and the
-- status and headers of a response.
pub record Session (S : Type 0) : Type 1 where
  pub Reply : Type 0
  pub enter : Text → Text → Dict Text → Option Value → Option Fields → Exec S Reply
  pub leave : Reply → Exec S (Unit {0})
  pub text : Reply → Exec S Text
  pub status : Reply → ℕ
  pub headers : Reply → Dict Text

abbrev pub not_started : Exc
not_started = runtime_error (codes "ServiceClient session is not started")

module _ {S : Type 0} (show : ℕ → Text) (trip_on_5xx : Bool) where
  -- What is made of a reply that was read; `show` is `str` of the status.
  abbrev pub finish : ℕ → Dict Text → Text → Text → Exec S HttpResponse
  finish status headers url body =
      if trip_on_5xx && leb 500 status
      then raise (transient_http_error (url ++ codes " returned " ++ show status))
      else pure (record { status = status; headers = headers; body = body })

  -- The body of `async with`.
  abbrev pub read_reply : (x : Session S) → Text → x.Reply → Exec S HttpResponse
  read_reply x url reply = do
    body ← x.text reply
    finish (x.status reply) (x.headers reply) url body

  abbrev pub send_through :
      (x : Session S) → Text → Text → Dict Text → Option Value → Option Fields → Exec S HttpResponse
  send_through x method url headers json params =
      with_context (x.enter method url headers json params) x.leave (read_reply x url)

  -- `_do_request`
  unfoldable pub do_request :
      Option (Session S)
      → Text
      → Text
      → Dict Text
      → Option Value
      → Option Fields
      → Exec S HttpResponse
  unfolding with_context
  do_request session method url headers json params = elim session [
    | none ↦ raise not_started
    | some x ↦ send_through x method url headers json params
  ]

-- `ServiceClient`; its breaker is that of the state.
pub record ServiceClient (fl : Float) (S : Type 0) : Type 1 where
  pub base_url : Text
  pub token : Text
  pub retry : RetryPolicy fl
  pub session : Option (Session S)
  pub trip_on_5xx : Bool

module _ (fl : Float) {W : Type 0} (host : Host fl W) (show : ℕ → Text)
    (sleep : fl.F → Exec (Sys fl W) (Unit {0})) where
  -- `request`; the headers are built once, before the first attempt.
  unfoldable pub request :
      ServiceClient fl (Sys fl W)
      → Text
      → LogContext
      → Text
      → Text
      → Option Value
      → Option Fields
      → Option (Dict Text)
      → Option Text
      → Option Text
      → Exec (Sys fl W) HttpResponse
  unfolding request_url build_internal_headers
  request client new_id ctx method path json params headers tenant_id request_id =
      let final_headers =
        build_internal_headers new_id ctx client.token tenant_id request_id headers in
      retry_async fl host
        (do_request show client.trip_on_5xx client.session method (request_url client.base_url path)
          final_headers json params)
        client.retry sleep

  -- `get`, `post`, `put`, `patch` and `delete`, by the method that each passes to `request` with the
  -- arguments that it was given.
  unfoldable pub send_method :
      Text
      → ServiceClient fl (Sys fl W)
      → Text
      → LogContext
      → Text
      → Option Value
      → Option Fields
      → Option (Dict Text)
      → Option Text
      → Option Text
      → Exec (Sys fl W) HttpResponse
  unfolding request
  send_method method client new_id ctx path = request client new_id ctx method path
