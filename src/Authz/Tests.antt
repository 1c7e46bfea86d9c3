-- ===== src/Authz/Tests.antt =====
-- Permissions and ownership at concrete principals.
use plugshub_common.Common.{ℕ, ◌≡◌, refl, ◌↔◌, ◌⊎◌, ◌||◌, some, List, [], ◌∷◌, if◌then◌else◌}
use plugshub_common.Text.{Text, codes, text_eq, mem}
use plugshub_common.Value.{Value, str, Fields, end, field, get_field}
use plugshub_common.Exec.{Result, ok, raised}
use plugshub_common.Authz.{Principal, permission_required, refused, check_object_ownership}
use plugshub_common.Authz.Decisions.{Overrides, check_object_ownership_iff}
use plugshub_common.Authz.Claims.{as_frozenset, principal_from_claims, call_checker}
use plugshub_common.Authz.Scopes.{call_checker-scope}

abbrev admin : Principal
admin = record {
  id = codes "u1";
  principal_type = codes "user";
  tenant_id = str (codes "acme");
  roles = [];
  permissions = codes "*" ∷ [];
  claims = end;
}

across_tenants :
    check_object_ownership
      (some admin)
      (codes "u1")
      (some (codes "other"))
      (some (codes "docs.write"))
    ≡ raised (refused (codes "resource belongs to another tenant"))
unfolding check_object_ownership text_eq
across_tenants = refl

check_object_ownership_iff_example :
    (check_object_ownership
        (some admin)
        (codes "u2")
        (some (codes "acme"))
        (some (codes "docs.write"))
      ≡ ok admin)
    ↔ ((some admin ≡ some admin)
        × (str (codes "acme") ≡ str (codes "acme"))
        × ((codes "u1" ≡ codes "u2") ⊎ Overrides admin (some (codes "docs.write"))))
check_object_ownership_iff_example =
    check_object_ownership_iff (some admin) (codes "u2") (some (codes "acme"))
      (some (codes "docs.write")) admin

-- A token with two words in its scope.
abbrev to_text : Value → Text
to_text (str t) = t
to_text v = []

abbrev iterate : ℕ → Result (List Text)
iterate n = ok []

abbrev claims : Fields
claims =
    field (codes "sub") (str (codes "u7"))
      (field (codes "scope") (str (codes "docs.read docs.write")) end)

abbrev docs_read : Text
docs_read = codes "docs.read"

abbrev docs_write : Text
docs_write = codes "docs.write"

call_checker-scope_example :
    (p : Principal) × (principal_from_claims to_text iterate claims ≡ ok p)
    × ((permission : Text)
        → call_checker (record { permission = permission }) (ok (some p)) ≡ (
            if mem (codes "*") (docs_read ∷ docs_write ∷ [])
              || mem permission (docs_read ∷ docs_write ∷ [])
            then ok p
            else raised (permission_required permission)))
unfolding as_frozenset get_field text_eq
call_checker-scope_example =
    call_checker-scope to_text iterate claims [] docs_read (docs_write ∷ []) refl refl refl refl (
      (refl, (refl, (refl, (refl, (refl, (refl, (refl, (refl, (refl, tt))))))))),
      ((refl, (refl, (refl, (refl, (refl, (refl, (refl, (refl, (refl, (refl, tt)))))))))), tt),
    )
