-- ===== src/Clients/Sends.antt =====
-- What a request asks of the session, over all its attempts (plugshub_common/clients.py).
use plugshub_common.Common.{
  ℕ, ◌+◌, ◌≤◌, ◌<◌, ◌≡◌, refl, sym, ap, ◌∙◌, subst, ◌⊎◌, inl, inr, Bool, Option, none, some, List,
  [], ◌∷◌, ◌++◌, arith, length, All,
}
use plugshub_common.Text.{Text}
use plugshub_common.Value.{Value, Fields}
use plugshub_common.Errors.{Exc}
use plugshub_common.Exec.{raised, Exec, Result-cases}
use plugshub_common.Dict.{Dict}
use plugshub_common.Float.{Float}
use plugshub_common.Resilience.Retry.{Sys, Host}
use plugshub_common.Resilience.Retry.Keeps.{retry_async_keeps}
use plugshub_common.Resilience.Retry.Calls.{retry_async_calls}
use plugshub_common.Logging.{LogContext}
use plugshub_common.Db.Pool.{with_context}
use plugshub_common.Db.Pool.Attempts.{with_context_raised, with_context_ok}
use plugshub_common.Db.Pool.Leases.{Quiet, Quiet-pure, Quiet-bind, Quiet-if}
use plugshub_common.Clients.{
  Session, read_reply, do_request, ServiceClient, build_internal_headers, request_url, request,
}

-- A call of `session.request`: the method, the URL and the headers.
abbrev pub Asked : Type 0
Asked = Text × (Text × Dict Text)

-- From `before` on, only `x` was asked for.
pub record OnlyThis (x : Asked) (before after : List Asked) : Type 0 where
  pub added : List Asked
  pub all_added : after ≡ added ++ before
  pub same : All (λ y. y ≡ x) added

OnlyThis-one :
    {x : Asked} {before after later : List Asked}
    → OnlyThis x before after
    → (later ≡ x ∷ after) ⊎ (later ≡ after)
    → OnlyThis x before later
OnlyThis-one {x} only (inl e) = record {
  added = x ∷ only.added;
  all_added = e ∙ ap (λ l. x ∷ l) only.all_added;
  same = (refl, only.same);
}
OnlyThis-one only (inr e) = record {
  added = only.added;
  all_added = e ∙ only.all_added;
  same = only.same;
}

module _ {S : Type 0} (asked : S → List Asked) where
  -- The calls of `session.request` that were made, the last first: entering one is that call, or
  -- fails before it, and reading and leaving a reply are none. What the session makes of a call, such
  -- as the redirects that it follows, is its own and is not in this list.
  pub record Asks (x : Session S) : Type 0 where
    pub enter :
        (method url : Text) (headers : Dict Text) (json : Option Value) (params : Option Fields)
        (s : S)
        → (asked (x.enter method url headers json params s).1 ≡ (method, (url, headers)) ∷ asked s)
          ⊎ (asked (x.enter method url headers json params s).1 ≡ asked s)
    pub leave : (reply : x.Reply) → Quiet asked (x.leave reply)
    pub text : (reply : x.Reply) → Quiet asked (x.text reply)

  Quiet-raise : {A : Type 0} (e : Exc) → Quiet {A = A} asked (λ s. (raised e, s))
  Quiet-raise e = record { at = λ s. refl }

  read_reply-Quiet :
      (show : ℕ → Text) (trip : Bool) (x : Session S) (asks : Asks x) (url : Text) (reply : x.Reply)
      → Quiet asked (read_reply show trip x url reply)
  read_reply-Quiet show trip x asks url reply =
      Quiet-bind asked _ _ (asks.text reply)
        (λ body. Quiet-if asked _ _ _ (Quiet-raise _) (Quiet-pure asked _))

  asked-with_context :
      {X A : Type 0} (enter : Exec S X) (leave : X → Exec S (Unit {0})) (body : X → Exec S A)
      (s : S)
      → ((x : X) → Quiet asked (leave x))
      → ((x : X) → Quiet asked (body x))
      → asked (with_context enter leave body s).1 ≡ asked (enter s).1
  asked-with_context enter leave body s leaves reads = elim (Result-cases (enter s).0) [
    | inr (e, failed) ↦ ap (λ p. asked p.1) (with_context_raised enter leave body s e failed)
    | inl (x, entered) ↦
        let s1 = (enter s).1 in
        ap (λ p. asked p.1) (with_context_ok enter leave body s x entered)
        ∙ (leaves x).at (body x s1).1
        ∙ (reads x).at s1
  ]

  do_request-one :
      (show : ℕ → Text) (trip : Bool) (session : Option (Session S))
      → ((x : Session S) → session ≡ some x → Asks x)
      → (method url : Text) (headers : Dict Text) (json : Option Value) (params : Option Fields)
        (s : S)
      → let after = (do_request show trip session method url headers json params s).1 in
        (asked after ≡ (method, (url, headers)) ∷ asked s) ⊎ (asked after ≡ asked s)
  unfolding do_request
  do_request-one show trip none asks method url headers json params s = inr refl
  do_request-one show trip (some x) asks method url headers json params s =
      let logs = asks x refl in
      let same =
        asked-with_context (x.enter method url headers json params) x.leave
          (read_reply show trip x url) s logs.leave (read_reply-Quiet show trip x logs url) in
      elim (logs.enter method url headers json params s) [
        | inl one ↦ inl (same ∙ one)
        | inr not_asked ↦ inr (same ∙ not_asked)
      ]

length_one :
    (x : Asked) (before after : List Asked)
    → (after ≡ x ∷ before) ⊎ (after ≡ before)
    → length after ≤ length before + 1
length_one x before after (inl e) = omega (arith, ap length e)
length_one x before after (inr e) = omega (arith, ap length e)

-- Over all its attempts a request asks the session for nothing but itself: every call of
-- `session.request` has the same method, URL and headers, those that were built before the first
-- attempt, and there are at most `max_attempts` calls, if that is at least one. The calls are
-- recorded as `Asks` says, and sleeping and drawing the jitter make none. Redirects, which the session
-- follows within a call, are not counted.
pub request_repeats_only_itself :
    (fl : Float) {W : Type 0} (host : Host fl W) (show : ℕ → Text)
    (sleep : fl.F → Exec (Sys fl W) (Unit {0})) (asked : W → List Asked)
    (slept : (d : fl.F) (s : Sys fl W) → asked (sleep d s).1.world ≡ asked s.world)
    (drawn : (x : fl.F) (w : W) → asked (host.uniform x w).1 ≡ asked w)
    (client : ServiceClient fl (Sys fl W))
    (asks : (x : Session (Sys fl W)) → client.session ≡ some x → Asks (λ s. asked s.world) x)
    (new_id : Text) (ctx : LogContext) (method path : Text) (json : Option Value)
    (params : Option Fields) (headers : Option (Dict Text)) (tenant_id request_id : Option Text)
    (s : Sys fl W)
    → 0 < client.retry.max_attempts
    → let url = request_url client.base_url path in
      let built = build_internal_headers new_id ctx client.token tenant_id request_id headers in
      let after =
        (request fl host show sleep client new_id ctx method path json params headers tenant_id
          request_id s).1 in
      OnlyThis (method, (url, built)) (asked s.world) (asked after.world)
      × (length (asked after.world) ≤ length (asked s.world) + client.retry.max_attempts)
unfolding request
request_repeats_only_itself fl host show sleep asked slept drawn client asks new_id ctx method path
      json params headers tenant_id request_id s some_left =
    let url = request_url client.base_url path in
    let built = build_internal_headers new_id ctx client.token tenant_id request_id headers in
    let one =
      do_request-one (λ t. asked t.world) show client.trip_on_5xx client.session asks method url
        built json params in
    (
      retry_async_keeps fl host _ client.retry sleep
          (λ w. OnlyThis (method, (url, built)) (asked s.world) (asked w))
          (λ t only. OnlyThis-one only (one t))
          (λ d t only.
            subst (OnlyThis (method, (url, built)) (asked s.world)) (sym (slept d t)) only)
          (λ x w only.
            subst (OnlyThis (method, (url, built)) (asked s.world)) (sym (drawn x w)) only)
          s (record { added = []; all_added = refl; same = tt }),
      retry_async_calls fl host _ client.retry sleep (λ w. length (asked w))
          (λ t. length_one (method, (url, built)) (asked t.world) _ (one t))
          (λ d t. ap length (slept d t)) (λ x w. ap length (drawn x w)) s some_left,
    )
