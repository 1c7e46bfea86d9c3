-- ===== src/Http/Tests.antt =====
-- The HTTP edge at concrete requests.
use plugshub_common.Text.{Unicode}
use plugshub_common.Value.{Fields, dict, str, end, field, get_field}
use plugshub_common.Logging.{mask_mapping}
use plugshub_common.Observability.{scrub_event, tags_of}
use plugshub_common.Http.Edge.{dispatch_context_untagged}
use plugshub_common.Common.{ℕ, ◌+◌, ◌≡◌, refl, ◌⊎◌, true, false, none, some, [], ◌∷◌, if◌then◌else◌}
use plugshub_common.Common.Int.{ℤ}
use plugshub_common.Text.{Text, codes, text_eq, mem, rstrip}
use plugshub_common.Errors.{Exc, other}
use plugshub_common.Exec.{ok, raised, Exec}
use plugshub_common.Float.{whole}
use plugshub_common.Logging.{LogContext, set_request_context}
use plugshub_common.Observability.{Tracked}
use plugshub_common.ServiceAuth.{
  default_public_paths, internal_token_header, verify_service_token, is_public_path, encode,
  encode_char,
}
use plugshub_common.Http.{
  Request, Response, content, make_metrics, Serving, dispatch_context, dispatch_auth,
  unauthorized_reply,
}
use plugshub_common.Http.Edge.{dispatch_auth_closed}
use plugshub_common.Common.{map, ◌≢◌, arith}
use plugshub_common.ServiceAuth.Encoding.{AreCodePoints}
use plugshub_common.Dict.{Dict, get}
use plugshub_common.Clients.{build_internal_headers}
use plugshub_common.Http.Handoff.{internal_call_accepted}

abbrev orders : Request
orders = record {
  method = codes "GET";
  path = codes "/orders";
  header = λ name. if text_eq name internal_token_header then some (codes "guess") else none;
  state_id = [];
}

abbrev idle : LogContext
idle = record { request_id = none; tenant_id = none }

-- The world is the time.
abbrev start : Serving whole ℕ
start = record { context = idle; metrics = some (make_metrics whole); world = 10 }

abbrev app : Request → Exec (Serving whole ℕ) Response
app request s =
    (ok (record { status = 200; headers = []; body = content 1 }), record s { world = s.world + 5 })

abbrev broken : Request → Exec (Serving whole ℕ) Response
broken request s = (raised (other 3), s)

abbrev fresh : ℕ → Text
fresh n = codes "fresh"

abbrev clock : ℕ → ℕ
clock n = n

refused :
    dispatch_auth whole (codes "s3cret") default_public_paths app orders start
    ≡ (ok (unauthorized_reply []), start)
unfolding dispatch_auth verify_service_token is_public_path encode encode_char rstrip mem text_eq
    set_request_context
refused = refl

guess-AreCodePoints : AreCodePoints (codes "guess")
guess-AreCodePoints = (omega arith, (omega arith, (omega arith, (omega arith, (omega arith, tt)))))

s3cret-AreCodePoints : AreCodePoints (codes "s3cret")
s3cret-AreCodePoints =
    (omega arith, (omega arith, (omega arith, (omega arith, (omega arith, (omega arith, tt))))))

dispatch_auth_closed_example :
    let admitted =
      (mem (rstrip b'/' (codes "/orders")) (map (rstrip b'/') default_public_paths) ≡ true)
      ⊎ ((some (codes "guess") ≡ some (codes "s3cret")) × (codes "s3cret" ≢ [])) in
    (admitted
      × (dispatch_auth whole (codes "s3cret") default_public_paths app orders start
          ≡ app orders start))
    ⊎ ((¬ admitted)
        × ((reply : Response) × (reply.status ≡ 401)
            × (dispatch_auth whole (codes "s3cret") default_public_paths app orders start
                ≡ (ok reply, start))))
unfolding text_eq set_request_context
dispatch_auth_closed_example =
    dispatch_auth_closed whole (codes "s3cret") default_public_paths app orders start
      guess-AreCodePoints s3cret-AreCodePoints

abbrev tracked : Tracked ℕ
tracked = record {
  tracking = record { enabled = true; has_sdk = true; extra_sensitive_keys = [] };
  world = 0;
}

abbrev send : Exc → Exec ℕ (Unit {0})
send e w = (ok tt, w + 1)

abbrev show : ℤ → Text
show n = codes "30"

abbrev plain : Unicode
plain = record { upper_other = λ c. c ∷ []; lower_other = λ c. c ∷ []; is_alpha_other = λ c. false }

abbrev crash : Fields
crash = field (codes "level") (str (codes "error")) end

dispatch_context_untagged_example :
    let after =
      (dispatch_context whole (some (make_metrics whole)) fresh clock broken orders start).1 in
    let own = tags_of (get_field (codes "tags") (mask_mapping plain crash (some []))) in
    (tags : Fields) × (get_field (codes "tags") (scrub_event plain after.context crash [])
      ≡ some (dict tags))
    × (get_field (codes "request_id") tags ≡ get_field (codes "request_id") own)
    × (get_field (codes "tenant_id") tags ≡ get_field (codes "tenant_id") own)
unfolding dispatch_context
dispatch_context_untagged_example =
    dispatch_context_untagged whole (some (make_metrics whole)) fresh clock broken orders start
      plain crash []

abbrev caller : LogContext
caller = record { request_id = some (codes "r-1"); tenant_id = some (codes "acme") }

abbrev sent : Dict Text
sent =
    build_internal_headers (codes "new") caller (codes "s3cret") none none
      (some ((codes "Accept", codes "json") ∷ []))

abbrev call : Request
call = record orders { header = λ name. get name sent }

internal_call_accepted_example :
    dispatch_auth whole (codes "s3cret") default_public_paths app call start
    ≡ app call (record start { context = caller })
unfolding get text_eq
internal_call_accepted_example =
    internal_call_accepted whole (codes "new") (codes "s3cret") caller none none
      (some ((codes "Accept", codes "json") ∷ [])) default_public_paths app call start refl
      (refl, refl, refl) (record { id = refl; token = refl; tenant = refl })
