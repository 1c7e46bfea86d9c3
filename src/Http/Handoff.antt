-- ===== src/Http/Handoff.antt =====
-- A call from one service to another: the headers of `build_internal_headers`
-- (plugshub_common/clients.py) at the middleware of plugshub_common/service_auth.py.
use plugshub_common.Common.{
  ◌≡◌, refl, ◌∙◌, true, false, Option, none, some, List, [], ◌∷◌, arith, or_else,
}
use plugshub_common.Text.{Text, text_eq, is_empty}
use plugshub_common.Exec.{Exec}
use plugshub_common.Dict.{Dict, get, insert, update, contains, get-insert}
use plugshub_common.Errors.{or_text}
use plugshub_common.Float.{Float}
use plugshub_common.Text.Laws.{text_eq_refl}
use plugshub_common.Logging.{LogContext, set_request_context, keep_old}
use plugshub_common.ServiceAuth.{
  internal_token_header, request_id_header, tenant_id_header, verify_service_token, encode,
}
use plugshub_common.Clients.{build_internal_headers, set_tenant, add_extra}
use plugshub_common.Http.{Request, Response, Serving, dispatch_auth}

get-update : (k : Text) (d e : Dict Text) → contains k e ≡ false → get k (update d e) ≡ get k d
unfolding update get
get-update k d [] h = refl
get-update k d ((j, v) ∷ e) h = ground (arith, get-update k (insert j v d) e, get-insert j k v d, h)

get-add_extra :
    (k : Text) (d : Dict Text) (extra : Option (Dict Text))
    → contains k (or_else extra []) ≡ false
    → get k (add_extra extra d) ≡ get k d
get-add_extra k d none h = refl
get-add_extra k d (some e) h = get-update k d e h

-- The caller's own headers name none of the three that the package sets.
abbrev pub AreOthers : Option (Dict Text) → Type 0
AreOthers extra =
    (contains request_id_header (or_else extra []) ≡ false)
    × (contains internal_token_header (or_else extra []) ≡ false)
    × (contains tenant_id_header (or_else extra []) ≡ false)

mandatory : Text → Text → Option Text → Dict Text
mandatory id token tenant =
    set_tenant tenant ((request_id_header, id) ∷ (internal_token_header, token) ∷ [])

get-mandatory :
    (id token : Text) (tenant : Option Text)
    → (get request_id_header (mandatory id token tenant) ≡ some id)
      × (get internal_token_header (mandatory id token tenant) ≡ some token)
      × (get tenant_id_header (mandatory id token tenant) ≡ tenant)
unfolding mandatory get insert text_eq
get-mandatory id token none = (refl, refl, refl)
get-mandatory id token (some t) = (refl, refl, refl)

-- The request shows the three headers with the text that was sent; Starlette finds a header in any
-- letter case. This holds of values of visible ASCII characters. The client sends other text as
-- UTF-8, which Starlette reads as Latin-1, so it arrives as different text.
pub record Carries (headers : Dict Text) (request : Request) : Type 0 where
  pub id : request.header request_id_header ≡ get request_id_header headers
  pub token : request.header internal_token_header ≡ get internal_token_header headers
  pub tenant : request.header tenant_id_header ≡ get tenant_id_header headers

verify_service_token_same :
    (token : Text) → is_empty token ≡ false → verify_service_token (some token) token ≡ true
unfolding verify_service_token
verify_service_token_same token h = ground (arith, h, text_eq_refl (encode token))

-- A call that a service makes with the shared token is let through by the service that it calls,
-- whatever the path, with the caller's ids in the log context, if the three headers arrive with the
-- text that was sent, as those of visible ASCII characters do: the request id is the one that was
-- passed, or else that of the caller's context, or else a fresh one; the tenant is the one that was
-- passed, or else that of the caller's context, and where neither has one, the callee's context keeps
-- its own. The token is not empty, and the caller adds no header under one of the three names.
pub internal_call_accepted :
    (fl : Float) {W : Type 0} (new_id token : Text) (ctx : LogContext)
    (tenant_id request_id : Option Text) (extra : Option (Dict Text)) (public : List Text)
    (call_next : Request → Exec (Serving fl W) Response) (request : Request) (s : Serving fl W)
    → is_empty token ≡ false
    → AreOthers extra
    → Carries (build_internal_headers new_id ctx token tenant_id request_id extra) request
    → dispatch_auth fl token public call_next request s
      ≡ call_next request (record s {
        context = record {
          request_id = some (or_text request_id (or_text ctx.request_id new_id));
          tenant_id = keep_old (keep_old tenant_id ctx.tenant_id) s.context.tenant_id;
        };
      })
unfolding dispatch_auth build_internal_headers set_request_context mandatory
internal_call_accepted fl new_id token ctx tenant_id request_id extra public call_next request s
      named (no_id, no_token, no_tenant) carries =
    let id = or_text request_id (or_text ctx.request_id new_id) in
    let tenant = keep_old tenant_id ctx.tenant_id in
    let sent = mandatory id token tenant in
    let (an_id, a_token, a_tenant) = get-mandatory id token tenant in
    let got_id = carries.id ∙ get-add_extra request_id_header sent extra no_id ∙ an_id in
    let got_token =
      carries.token ∙ get-add_extra internal_token_header sent extra no_token ∙ a_token in
    let got_tenant =
      carries.tenant ∙ get-add_extra tenant_id_header sent extra no_tenant ∙ a_tenant in
    rw (got_id, got_token, got_tenant, verify_service_token_same token named) ground arith
