-- ===== src/Tenant/Tests.antt =====
-- The validator at concrete ids.
use plugshub_common.Common.{
  ◌≤◌, ◌≡◌, refl, ◌⊎◌, true, false, none, some, List, [], ◌∷◌, ◌++◌, arith, length,
}
use plugshub_common.Text.{Text, codes, Unicode, upper, mem, without_prefix}
use plugshub_common.Errors.{value_error}
use plugshub_common.Exec.{ok, raised}
use plugshub_common.Tenant.{prefix, validate_tenant, is_dangerous, well_formed, whitelisted}
use plugshub_common.Tenant.Charset.{NamesThenNewline}
use plugshub_common.Tenant.Layers.{validate_tenant_sound}
use plugshub_common.Tenant.Newline.{IsNames, validate_tenant_newline}

-- A Unicode table that maps nothing.
abbrev plain : Unicode
plain = record { upper_other = λ c. c ∷ []; lower_other = λ c. c ∷ []; is_alpha_other = λ c. false }

abbrev acme : Text
acme = codes "tenantacme-1"

abbrev uuid : Text
uuid = codes "0A1b2c3d-0000-4000-8000-0123456789ab"

abbrev live : List Text
live = codes "acme-1" ∷ uuid ∷ []

verdicts :
    (validate_tenant plain acme (some live) true ≡ ok true)
    × (validate_tenant plain uuid (some live) true ≡ ok true)
    × (validate_tenant plain (codes "tenantother") (some live) true
        ≡ raised (value_error (codes "Invalid tenant_id: not in whitelist")))
    × (validate_tenant plain (codes "tenant`;") none false ≡ ok false)
    × (validate_tenant plain (codes "tenant-drop-it") none true
        ≡ raised (value_error (codes "Invalid tenant_id: contains dangerous pattern")))
    × (validate_tenant plain [] none true ≡ raised (value_error (codes "tenant_id is required")))
unfolding validate_tenant whitelisted well_formed is_dangerous upper
verdicts = (refl, refl, refl, refl, refl, refl)

accepted : validate_tenant plain acme (some live) true ≡ ok true
unfolding validate_tenant whitelisted well_formed is_dangerous upper
accepted = refl

accepted_unlisted : validate_tenant plain acme none true ≡ ok true
unfolding validate_tenant whitelisted well_formed is_dangerous upper
accepted_unlisted = refl

validate_tenant_sound_example :
    ((mem (without_prefix prefix acme) live ≡ true) ⊎ (mem acme live ≡ true))
    × (8 ≤ length acme)
    × (length acme ≤ 60)
    × NamesThenNewline acme
validate_tenant_sound_example = validate_tenant_sound plain acme live true accepted

acme-IsNames : IsNames acme
acme-IsNames = (
  refl,
  (refl, (refl, (refl, (refl, (refl, (refl, (refl, (refl, (refl, (refl, (refl, tt))))))))))),
)

validate_tenant_newline_example : validate_tenant plain (acme ++ 10 ∷ []) none true ≡ ok true
validate_tenant_newline_example =
    validate_tenant_newline plain acme true acme-IsNames (omega arith) accepted_unlisted
