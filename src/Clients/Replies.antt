-- ===== src/Clients/Replies.antt =====
-- What a request gives back (plugshub_common/clients.py).
use plugshub_common.Common.{ℕ, ◌<◌, ◌≡◌, refl, subst, true, Option, none, some, arith}
use plugshub_common.Text.{Text}
use plugshub_common.Value.{Value, Fields}
use plugshub_common.Dict.{Dict}
use plugshub_common.Exec.{Result, ok, raised, Exec, continue}
use plugshub_common.Float.{Float}
use plugshub_common.Resilience.Retry.{Sys, Host}
use plugshub_common.Resilience.Retry.Keeps.{retry_async_answers}
use plugshub_common.Logging.{LogContext}
use plugshub_common.Db.Pool.{with_context, after_exit}
use plugshub_common.Clients.{
  HttpResponse, Session, finish, read_reply, do_request, ServiceClient, build_internal_headers,
  request_url, request,
}

after_exit_ok :
    {A : Type 0} (r : Result A) (u : Result (Unit {0})) (a : A) → after_exit r u ≡ ok a → r ≡ ok a
after_exit_ok (ok x) (ok y) a h = h
after_exit_ok (ok x) (raised e) a h = absurd (ground (arith, h))
after_exit_ok (raised e) (ok y) a h = absurd (ground (arith, h))
after_exit_ok (raised e) (raised f) a h = absurd (ground (arith, h))

continue_ok :
    {S A B : Type 0} (r : Result A) (f : A → Exec S B) (s : S) (b : B)
    → (continue r f s).0 ≡ ok b
    → (a : A) × (r ≡ ok a) × ((f a s).0 ≡ ok b)
continue_ok (ok a) f s b h = (a, refl, h)
continue_ok (raised e) f s b h = absurd (ground (arith, h))

module _ {S : Type 0} (show : ℕ → Text) where
  finish_status :
      (status : ℕ) (headers : Dict Text) (url body : Text) (s : S) (v : HttpResponse)
      → (finish show true status headers url body s).0 ≡ ok v
      → v.status < 500
  finish_status status headers url body s v h = ground (arith, h)

  read_reply_status :
      (x : Session S) (url : Text) (reply : x.Reply) (s : S) (v : HttpResponse)
      → (read_reply show true x url reply s).0 ≡ ok v
      → v.status < 500
  read_reply_status x url reply s v h =
      let (b, r, rest) =
        continue_ok (x.text reply s).0 (finish show true (x.status reply) (x.headers reply) url)
          (x.text reply s).1 v h in
      finish_status (x.status reply) (x.headers reply) url b _ v rest

  do_request_status :
      (session : Option (Session S)) (method url : Text) (headers : Dict Text) (json : Option Value)
      (params : Option Fields) (s : S) (v : HttpResponse)
      → (do_request show true session method url headers json params s).0 ≡ ok v
      → v.status < 500
  unfolding do_request with_context
  do_request_status none method url headers json params s v h = absurd (ground (arith, h))
  do_request_status (some x) method url headers json params s v h =
      let (reply, r, rest) =
        continue_ok (x.enter method url headers json params s).0 _
          (x.enter method url headers json params s).1 v h in
      read_reply_status x url reply _ v (after_exit_ok _ _ v rest)

-- A client that trips on 5xx never answers with a status of 500 or more, whatever the server sends
-- and however many attempts are made: such a reply is an exception, which the retries and the
-- breaker see.
pub request_status :
    (fl : Float) {W : Type 0} (host : Host fl W) (show : ℕ → Text)
    (sleep : fl.F → Exec (Sys fl W) (Unit {0})) (client : ServiceClient fl (Sys fl W))
    (new_id : Text) (ctx : LogContext) (method path : Text) (json : Option Value)
    (params : Option Fields) (headers : Option (Dict Text)) (tenant_id request_id : Option Text)
    (s : Sys fl W) (v : HttpResponse)
    → client.trip_on_5xx ≡ true
    → (request fl host show sleep client new_id ctx method path json params headers tenant_id
        request_id s).0
      ≡ ok v
    → v.status < 500
unfolding request
request_status fl {W} host show sleep client new_id ctx method path json params headers tenant_id
      request_id s v trips h =
    let url = request_url client.base_url path in
    let sent = build_internal_headers new_id ctx client.token tenant_id request_id headers in
    retry_async_answers fl host
      (do_request show client.trip_on_5xx client.session method url sent json params) client.retry
      sleep (λ r. r.status < 500)
      (λ t r o. do_request_status show client.session method url sent json params t r (
        subst (λ b. (do_request show b client.session method url sent json params t).0 ≡ ok r) trips
          o))
      s v h
