-- ===== src/ServiceAuth/Verdict.antt =====
-- When a call is let through (plugshub_common/service_auth.py).
use plugshub_common.Common.{◌≡◌, ◌≢◌, ◌↔◌, ◌⊎◌, true, Option, none, some, List, [], ◌∷◌, map, arith}
use plugshub_common.Text.{Text, mem, rstrip}
use plugshub_common.Text.Laws.{text_eq_iff}
use plugshub_common.Exec.{ok, raised}
use plugshub_common.ServiceAuth.{
  encode, verify_service_token, is_public_path, token_refused, require_service_token,
}
use plugshub_common.ServiceAuth.Encoding.{AreCodePoints, encode_injective}

abbrev pub text_or_empty : Option Text → Text
text_or_empty none = []
text_or_empty (some t) = t

-- A token is accepted exactly when it is the expected one, code point for code point, and is not
-- empty: so an unset secret accepts nothing.
pub verify_service_token_iff :
    (provided : Option Text) (expected : Text)
    → AreCodePoints (text_or_empty provided)
    → AreCodePoints expected
    → (verify_service_token provided expected ≡ true)
      ↔ ((provided ≡ some expected) × (expected ≢ []))
unfolding verify_service_token
verify_service_token_iff none expected valid he = ground arith
verify_service_token_iff (some []) expected valid he = ground arith
verify_service_token_iff (some (c ∷ p)) [] valid he = ground arith
verify_service_token_iff (some (c ∷ p)) (d ∷ q) valid he = ground (
  arith,
  text_eq_iff (encode (c ∷ p)) (encode (d ∷ q)),
  encode_injective (c ∷ p) (d ∷ q) valid he,
)

mem-map-rstrip :
    (path : Text) (paths : List Text)
    → mem path paths ≡ true
    → mem (rstrip b'/' path) (map (rstrip b'/') paths) ≡ true
unfolding mem
mem-map-rstrip path [] h = h
mem-map-rstrip path (p ∷ paths) h = ground (
  arith,
  mem-map-rstrip path paths,
  text_eq_iff path p,
  text_eq_iff (rstrip b'/' path) (rstrip b'/' p),
)

-- A path is public exactly when it is one of the public paths up to slashes at the end.
pub is_public_path_slashes :
    (path : Text) (paths : List Text)
    → is_public_path path paths ≡ mem (rstrip b'/' path) (map (rstrip b'/') paths)
unfolding is_public_path
is_public_path_slashes path paths = ground (arith, mem-map-rstrip path paths)

-- A call is let through exactly when its path is one of the public ones, up to slashes at the end,
-- or its token is the secret and the secret is not empty; else it is refused with one and the same
-- error, which does not depend on the token, the secret or the path.
pub require_service_token_iff :
    (provided : Option Text) (expected path : Text) (public_paths : List Text)
    → AreCodePoints (text_or_empty provided)
    → AreCodePoints expected
    → ((require_service_token provided expected path public_paths ≡ ok tt) ↔ (
        (mem (rstrip b'/' path) (map (rstrip b'/') public_paths) ≡ true)
        ⊎ ((provided ≡ some expected) × (expected ≢ []))))
      × ((require_service_token provided expected path public_paths ≡ ok tt)
          ⊎ (require_service_token provided expected path public_paths ≡ raised token_refused))
unfolding require_service_token
require_service_token_iff provided expected path public_paths valid he = ground (
  arith,
  verify_service_token_iff provided expected valid he,
  is_public_path_slashes path public_paths,
)
