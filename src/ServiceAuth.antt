-- ===== src/ServiceAuth.antt =====
-- plugshub_common/service_auth.py: the credential that internal calls present. The middleware
-- stands in Http, beside the other one.
pub mod Encoding
pub mod Verdict
mod Tests
use Prim.Native.Nat.{◌/◌, ◌%◌}
use plugshub_common.Common.{
  ℕ, zero, suc, ◌+◌, ◌-◌, ◌*◌, ◌^◌, ◌≤◌, ◌<◌, String, ◌≡◌, refl, sym, ap, ◌∙◌, subst, ◌≢◌, ◌↔◌, ◌⊎◌,
  inl, inr, Bool, true, false, not, ◌&&◌, ◌||◌, Option, none, some, List, [], ◌∷◌, ◌++◌, map,
  append_assoc, append-nil, arith, ltb, leb, ◌==◌, if◌then◌else◌, ==_iff, Bool-cases, Option-cases,
  is_some, or_else, length, replicate, take, drop, all, any, length-append, length-take_le,
  take_all, All, All-append,
}
use plugshub_common.Text.{Text, codes, text_eq, is_empty, mem, rstrip}
use plugshub_common.Errors.{Exc, unauthorized, plugs_hub_error, make_error}
use plugshub_common.Exec.{Result, ok, raised}

abbrev pub internal_token_header : Text
internal_token_header = codes "X-Internal-Service-Token"

abbrev pub request_id_header : Text
request_id_header = codes "X-Request-ID"

abbrev pub tenant_id_header : Text
tenant_id_header = codes "X-Tenant-ID"

abbrev pub default_public_paths : List Text
default_public_paths = codes "/health" ∷ codes "/ready" ∷ codes "/metrics" ∷ []

-- The bytes of one code point in UTF-8; with "surrogatepass" a surrogate is like any other.
unfoldable pub encode_char : ℕ → List ℕ
encode_char c =
    if ltb c 128
    then c ∷ []
    else if ltb c 2048
    then (192 + c / 64) ∷ (128 + c % 64) ∷ []
    else if ltb c 65536
    then (224 + c / 4096) ∷ (128 + c / 64 % 64) ∷ (128 + c % 64) ∷ []
    else (240 + c / 262144) ∷ (128 + c / 4096 % 64) ∷ (128 + c / 64 % 64) ∷ (128 + c % 64) ∷ []

-- `s.encode("utf-8", "surrogatepass")`
unfoldable pub encode : Text → List ℕ
unfolding encode_char
encode [] = []
encode (c ∷ s) = encode_char c ++ encode s

-- `hmac.compare_digest` of two byte strings, whose answer is their equality.
abbrev pub compare_digest : List ℕ → List ℕ → Bool
compare_digest = text_eq

unfoldable pub verify_service_token : Option Text → Text → Bool
unfolding encode
verify_service_token none expected = false
verify_service_token (some provided) expected =
    if is_empty provided || is_empty expected
    then false
    else compare_digest (encode provided) (encode expected)

unfoldable pub is_public_path : Text → List Text → Bool
unfolding rstrip mem
is_public_path path public_paths =
    mem (rstrip b'/' path) (map (rstrip b'/') public_paths) || mem path public_paths

-- What `require_service_token` raises.
abbrev pub token_refused : Exc
token_refused = plugs_hub_error (
    make_error unauthorized (some (codes "missing or invalid internal service token"))
      (some (codes "common.service_unauthorized")) none none)

unfoldable pub require_service_token : Option Text → Text → Text → List Text → Result (Unit {0})
unfolding verify_service_token is_public_path
require_service_token provided expected path public_paths =
    if is_public_path path public_paths
    then ok tt
    else if verify_service_token provided expected
    then ok tt
    else raised token_refused
