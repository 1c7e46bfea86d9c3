-- ===== src/Clients/Urls.antt =====
-- Where a request goes and what it carries (plugshub_common/clients.py).
use plugshub_common.Common.{
  ℕ, suc, ◌≡◌, refl, ◌⊎◌, inl, inr, true, false, Option, none, some, [], ◌∷◌, ◌++◌, arith, ◌==◌,
  Bool-cases, Option-cases, replicate,
}
use plugshub_common.Text.{Text, codes, starts_with, lstrip, text_eq, is_empty}
use plugshub_common.Dict.{get, insert}
use plugshub_common.Errors.{or_text}
use plugshub_common.Logging.{LogContext, keep_old}
use plugshub_common.ServiceAuth.{internal_token_header, request_id_header, tenant_id_header}
use plugshub_common.Clients.{build_internal_headers, request_url}

lstrip_split :
    (c : ℕ) (s : Text)
    → (n : ℕ) × (s ≡ replicate n c ++ lstrip c s) × (starts_with (lstrip c s) (c ∷ []) ≡ false)
unfolding lstrip starts_with
lstrip_split c [] = (0, refl, refl)
lstrip_split c (d ∷ s) =
    let (n, split, stop) = lstrip_split c s in
    elim (Bool-cases (d == c)) [
      | inl h ↦ (suc n, ground (arith, h, split), ground (arith, h, stop))
      | inr h ↦ (0, ground (arith, h), ground (arith, h))
    ]

-- A path that starts with "http" is the URL as it stands, whatever follows and whatever the base
-- is. Every other path goes below the base: the URL is the base, one slash, and the path without
-- the slashes that it starts with.
pub request_url_cases :
    (base path : Text)
    → ((starts_with path (codes "http") ≡ true) × (request_url base path ≡ path))
      ⊎ ((starts_with path (codes "http") ≡ false)
          × ((n : ℕ) × (rest : Text) × (path ≡ replicate n b'/' ++ rest)
              × (request_url base path ≡ base ++ codes "/" ++ rest)
              × (starts_with rest (b'/' ∷ []) ≡ false)))
unfolding request_url
request_url_cases base path =
    let (n, split, stop) = lstrip_split b'/' path in
    elim (Bool-cases (starts_with path (codes "http"))) [
      | inl h ↦ inl (h, ground (arith, h))
      | inr h ↦ inr (h, (n, lstrip b'/' path, split, ground (arith, h), stop))
    ]

-- Without extra headers a request carries a request id, which is not empty if a fresh one is not,
-- the token, and the tenant id where the caller or the log context has one.
pub build_internal_headers_complete :
    (new_id : Text) (ctx : LogContext) (token : Text) (tenant_id request_id : Option Text)
    → is_empty new_id ≡ false
    → let headers = build_internal_headers new_id ctx token tenant_id request_id none in
      ((i : Text) × (get request_id_header headers ≡ some i) × (is_empty i ≡ false))
      × (get internal_token_header headers ≡ some token)
      × (get tenant_id_header headers ≡ keep_old tenant_id ctx.tenant_id)
unfolding build_internal_headers get insert text_eq
build_internal_headers_complete new_id ctx token tenant_id request_id h =
    let i = or_text request_id (or_text ctx.request_id new_id) in
    let named : is_empty i ≡ false = ground (arith, h) in
    elim (Option-cases (keep_old tenant_id ctx.tenant_id)) [
      | inl n ↦ ((i, ground (arith, n), named), ground (arith, n), ground (arith, n))
      | inr (t, n) ↦ ((i, ground (arith, n), named), ground (arith, n), ground (arith, n))
    ]
