-- ===== src/Authz/Decisions.antt =====
-- Who may do what (plugshub_common/authz.py).
use plugshub_common.Common.{◌≡◌, refl, ◌↔◌, ◌⊎◌, inl, inr, true, false, Option, none, some, arith}
use plugshub_common.Text.{Text, codes, mem}
use plugshub_common.Text.Laws.{text_eq_iff}
use plugshub_common.Value.{Value, null, bool, int, str, list, dict, object}
use plugshub_common.Exec.{ok, raised}
use plugshub_common.Authz.{
  Principal, has, auth_required, permission_required, require_permission, is_text,
  check_object_ownership,
}

is_text_iff : (v : Value) (t : Text) → (is_text v t ≡ true) ↔ (v ≡ str t)
is_text_iff null t = ground arith
is_text_iff (bool b) t = ground arith
is_text_iff (int n) t = ground arith
is_text_iff (str s) t = ground (arith, text_eq_iff s t)
is_text_iff (list vs) t = ground arith
is_text_iff (dict d) t = ground arith
is_text_iff (object n) t = ground arith

-- The tenant is the resource's, where one is given.
abbrev pub InTenant : Principal → Option Text → Type 0
InTenant p none = Unit
InTenant p (some t) = p.tenant_id ≡ str t

-- The override, where there is one, is granted by name or by "*".
abbrev pub Overrides : Principal → Option Text → Type 0
Overrides p none = ⊥
Overrides p (some a) = (mem (codes "*") p.permissions ≡ true) ⊎ (mem a p.permissions ≡ true)

-- The ownership check passes exactly for a principal whose tenant is the resource's, where one is
-- given, and who is the owner or is granted the override, by name or by "*"; it answers with that
-- principal. So no grant reaches across tenants, not even "*".
pub check_object_ownership_iff :
    (principal : Option Principal) (owner : Text) (tenant allow : Option Text) (p : Principal)
    → (check_object_ownership principal owner tenant allow ≡ ok p)
      ↔ ((principal ≡ some p) × InTenant p tenant × ((p.id ≡ owner) ⊎ Overrides p allow))
unfolding check_object_ownership has
check_object_ownership_iff none owner tenant allow p = ground arith
check_object_ownership_iff (some q) owner none none p = ground (arith, text_eq_iff q.id owner)
check_object_ownership_iff (some q) owner none (some a) p = ground (arith, text_eq_iff q.id owner)
check_object_ownership_iff (some q) owner (some t) none p =
    ground (arith, text_eq_iff q.id owner, is_text_iff q.tenant_id t)
check_object_ownership_iff (some q) owner (some t) (some a) p =
    ground (arith, text_eq_iff q.id owner, is_text_iff q.tenant_id t)

-- Permissions are denied by default: exactly a principal that holds the permission, by name or by
-- "*", passes; no principal is 401, and one without the permission 403.
pub require_permission_cases :
    (principal : Option Principal) (permission : Text)
    → ((principal ≡ none) × (require_permission principal permission ≡ raised auth_required))
      ⊎ ((p : Principal) × (principal ≡ some p)
          × ((((mem (codes "*") p.permissions ≡ true) ⊎ (mem permission p.permissions ≡ true))
                × (require_permission principal permission ≡ ok p))
              ⊎ ((mem (codes "*") p.permissions ≡ false)
                  × (mem permission p.permissions ≡ false)
                  × (require_permission principal permission
                      ≡ raised (permission_required permission)))))
unfolding require_permission has
require_permission_cases none permission = inl (refl, refl)
require_permission_cases (some p) permission = inr (p, refl, ground arith)
