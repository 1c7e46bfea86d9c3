-- ===== src/ServiceAuth/Tests.antt =====
-- The credential at concrete tokens and paths.
use plugshub_common.Common.{◌≡◌, refl, ◌≢◌, ◌↔◌, ◌⊎◌, true, none, some, [], ◌∷◌, map, arith}
use plugshub_common.Text.{codes, text_eq, mem, rstrip}
use plugshub_common.Exec.{ok, raised}
use plugshub_common.ServiceAuth.{
  default_public_paths, encode, encode_char, verify_service_token, is_public_path, token_refused,
  require_service_token,
}
use plugshub_common.ServiceAuth.Verdict.{require_service_token_iff}

high_byte :
    encode (233 ∷ 8364 ∷ 128512 ∷ []) ≡ 195 ∷ 169 ∷ 226 ∷ 130 ∷ 172 ∷ 240 ∷ 159 ∷ 152 ∷ 128 ∷ []
unfolding encode encode_char
high_byte = refl

public_health :
    require_service_token none (codes "s3cret") (codes "/health/") default_public_paths ≡ ok tt
unfolding require_service_token is_public_path rstrip mem text_eq
public_health = refl

unset_secret :
    require_service_token (some []) [] (codes "/orders") default_public_paths ≡ raised token_refused
unfolding require_service_token is_public_path verify_service_token rstrip mem text_eq
unset_secret = refl

require_service_token_iff_example :
    ((require_service_token
          (some (codes "s3cret"))
          (codes "s3cret")
          (codes "/orders")
          default_public_paths
        ≡ ok tt)
      ↔ ((mem (rstrip b'/' (codes "/orders")) (map (rstrip b'/') default_public_paths) ≡ true)
          ⊎ ((some (codes "s3cret") ≡ some (codes "s3cret")) × (codes "s3cret" ≢ []))))
    × ((require_service_token
            (some (codes "s3cret"))
            (codes "s3cret")
            (codes "/orders")
            default_public_paths
          ≡ ok tt)
        ⊎ (require_service_token
              (some (codes "s3cret"))
              (codes "s3cret")
              (codes "/orders")
              default_public_paths
            ≡ raised token_refused))
require_service_token_iff_example =
    require_service_token_iff (some (codes "s3cret")) (codes "s3cret") (codes "/orders")
      default_public_paths (ground arith) (ground arith)
