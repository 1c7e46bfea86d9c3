-- ===== src/Http/Edge.antt =====
-- What the middlewares promise to every request
-- (plugshub_common/http_middleware.py, plugshub_common/service_auth.py).
use plugshub_common.Text.{Unicode}
use plugshub_common.Value.{Value, Fields, dict, get_field}
use plugshub_common.Logging.{mask_mapping}
use plugshub_common.Observability.{scrub_event, tags_of}
use plugshub_common.Observability.Scrubbing.{tag_or, scrub_event_tags}
use plugshub_common.Common.{
  ◌∙◌, ℕ, ◌+◌, ◌≡◌, refl, sym, ap, subst, ◌⊎◌, inl, inr, Bool, true, false, ◌||◌, Option, none,
  some, List, [], arith, leb, if◌then◌else◌,
}
use plugshub_common.Text.{Text, codes, text_eq}
use plugshub_common.Dict.{get, get-insert}
use plugshub_common.Errors.{Exc, or_text}
use plugshub_common.Common.{◌≢◌, map}
use plugshub_common.Text.{mem, rstrip}
use plugshub_common.ServiceAuth.Encoding.{AreCodePoints}
use plugshub_common.ServiceAuth.Verdict.{
  text_or_empty, verify_service_token_iff, is_public_path_slashes,
}
use plugshub_common.Exec.{Result, ok, raised, Exec, continue, ◌>>◌}
use plugshub_common.Float.{Float}
use plugshub_common.Logging.{set_request_context, clear_request_context}
use plugshub_common.Observability.Reports.{capture_exception_sent}
use plugshub_common.Observability.{Tracked, capture_exception}
use plugshub_common.ServiceAuth.{
  internal_token_header, request_id_header, tenant_id_header, verify_service_token, is_public_path,
}
use plugshub_common.Http.{
  Request, Response, RedMetrics, record_request, Serving, echo, count, dispatch_context,
  unauthorized_reply, dispatch_auth,
}

-- The request id of a request: the caller's, or a fresh one.
abbrev pub request_id : Request → Text → Text
request_id request fresh = or_text (request.header request_id_header) fresh

-- What the middleware makes of the application's outcome: a reply keeps its status and its body,
-- and carries the request id; an exception passes through.
abbrev pub Relayed : Text → Result Response → Result Response → Type 0
Relayed i inner outer =
    ((r : Response) × (reply : Response) × (inner ≡ ok r)
      × (outer ≡ ok reply)
      × (get request_id_header reply.headers ≡ some i)
      × (reply.status ≡ r.status)
      × (reply.body ≡ r.body))
    ⊎ ((e : Exc) × (inner ≡ raised e) × (outer ≡ raised e))

echo-Relayed : (i : Text) (inner : Result Response) → Relayed i inner (echo i inner)
unfolding text_eq
echo-Relayed i (ok r) =
    inl (r, _, refl, refl, get-insert request_id_header request_id_header i r.headers, refl, refl)
echo-Relayed i (raised e) = inr (e, refl, refl)

-- One request more is counted, and one error more if its status is 500 or more.
abbrev pub Counted : {fl : Float} → ℕ → Option (RedMetrics fl) → Option (RedMetrics fl) → Type 0
Counted status none after = after ≡ none
Counted {fl = fl} status (some m) after =
    (n : RedMetrics fl) × (after ≡ some n)
    × (n.requests ≡ m.requests + 1)
    × (n.errors ≡ m.errors + (if leb 500 status then 1 else 0))

tag_or-none : (v : Option Value) → tag_or v none ≡ v
tag_or-none none = refl
tag_or-none (some v) = refl

module _ (fl : Float) where
  pub count-Counted :
      (request : Request) (status : ℕ) (duration : fl.F) (m : Option (RedMetrics fl))
      → Counted status m (count fl request status duration m)
  unfolding record_request
  count-Counted request status duration none = refl
  count-Counted request status duration (some m) = (_, refl, refl, ground arith)

  -- Whether the application replies or raises, an event that is scrubbed under the log context that
  -- the middleware leaves behind is tagged with no request id and no tenant id but those of its own.
  pub dispatch_context_untagged :
      {W : Type 0} (recorder : Option (RedMetrics fl)) (new_request_id : W → Text)
      (clock : W → fl.F) (call_next : Request → Exec (Serving fl W) Response) (request : Request)
      (s : Serving fl W) (u : Unicode) (event : Fields) (extra : List Text)
      → let after = (dispatch_context fl recorder new_request_id clock call_next request s).1 in
        let own = tags_of (get_field (codes "tags") (mask_mapping u event (some extra))) in
        (tags : Fields) × (get_field (codes "tags") (scrub_event u after.context event extra)
          ≡ some (dict tags))
        × (get_field (codes "request_id") tags ≡ get_field (codes "request_id") own)
        × (get_field (codes "tenant_id") tags ≡ get_field (codes "tenant_id") own)
  unfolding dispatch_context clear_request_context
  dispatch_context_untagged recorder new_request_id clock call_next request s u event extra =
      let (tags, found, one, two) =
        scrub_event_tags u (record { request_id = none; tenant_id = none }) event extra in
      (tags, found, one ∙ tag_or-none _, two ∙ tag_or-none _)

  dispatch_auth_split :
      {W : Type 0} (expected : Text) (public : List Text)
      (call_next : Request → Exec (Serving fl W) Response) (request : Request) (s : Serving fl W)
      → let i = request.header request_id_header in
        let bound : Serving fl W = record s {
          context = set_request_context i (request.header tenant_id_header) s.context;
        } in
        let admitted =
          is_public_path request.path public
          || verify_service_token (request.header internal_token_header) expected in
        ((admitted ≡ true)
          × (dispatch_auth fl expected public call_next request s ≡ call_next request bound))
        ⊎ ((admitted ≡ false)
            × (dispatch_auth fl expected public call_next request s
                ≡ (ok (unauthorized_reply (or_text i [])), bound)))
  unfolding dispatch_auth
  dispatch_auth_split expected public call_next request s = ground arith

  -- An internal call reaches the application exactly when its path is one of the public ones, up to
  -- slashes at the end, or its token is the secret and the secret is not empty. Otherwise it gets
  -- status 401, whatever the application is, and nothing is changed but the log context. The token
  -- and the secret are made of code points.
  pub dispatch_auth_closed :
      {W : Type 0} (expected : Text) (public : List Text)
      (call_next : Request → Exec (Serving fl W) Response) (request : Request) (s : Serving fl W)
      → AreCodePoints (text_or_empty (request.header internal_token_header))
      → AreCodePoints expected
      → let i = request.header request_id_header in
        let bound : Serving fl W = record s {
          context = set_request_context i (request.header tenant_id_header) s.context;
        } in
        let admitted =
          (mem (rstrip b'/' request.path) (map (rstrip b'/') public) ≡ true)
          ⊎ ((request.header internal_token_header ≡ some expected) × (expected ≢ [])) in
        (admitted
          × (dispatch_auth fl expected public call_next request s ≡ call_next request bound))
        ⊎ ((¬ admitted)
            × ((reply : Response) × (reply.status ≡ 401)
                × (dispatch_auth fl expected public call_next request s ≡ (ok reply, bound))))
  dispatch_auth_closed expected public call_next request s valid he =
      let token =
        verify_service_token_iff (request.header internal_token_header) expected valid he in
      let path = is_public_path_slashes request.path public in
      elim (dispatch_auth_split expected public call_next request s) [
        | inl (ok_call, served) ↦ inl (ground (arith, token, path, ok_call), served)
        | inr (refused, answered) ↦
            inr (λ admitted. ground (arith, token, path, refused, admitted), (_, refl, answered))
      ]

pub capture_exception_returns :
    {W : Type 0} (send : Exc → Exec W (Unit {0})) (e : Exc) (s : Tracked W)
    → (sends : (w : W) → (send e w).0 ≡ ok tt)
    → (b : Bool) × ((capture_exception send e s).0 ≡ ok b)
capture_exception_returns send e s sends = elim (capture_exception_sent send e s sends) [
  | inl (_, _, _, r, _) ↦ (true, r)
  | inr (_, r) ↦ (false, ap (λ p. p.0) r)
]

pub continue_ok :
    {S A B : Type 0} (m : Exec S A) (f : Exec S B) (g : Result B) (s : S) (a : A)
    → (m s).0 ≡ ok a
    → ((t : S) → (f t).0 ≡ g)
    → ((m >> f) s).0 ≡ g
continue_ok {S = S} {A = A} {B = B} m f g s a h always =
    subst (λ z. (continue {S = S} {A = A} {B = B} z (λ x. f) (m s).1).0 ≡ g) (sym h)
      (always (m s).1)
