-- ===== src/Authz.antt =====
-- plugshub_common/authz.py: permissions and ownership. `Claims` builds a principal from the claims
-- of a token; a principal's tenant is any value, as it comes from a claim.
pub mod Decisions
pub mod Claims
pub mod Scopes
mod Tests
use plugshub_common.Common.{
  ℕ, zero, suc, ◌+◌, ◌-◌, ◌*◌, ◌^◌, ◌≤◌, ◌<◌, String, ◌≡◌, refl, sym, ap, ◌∙◌, subst, ◌≢◌, ◌↔◌, ◌⊎◌,
  inl, inr, Bool, true, false, not, ◌&&◌, ◌||◌, Option, none, some, List, [], ◌∷◌, ◌++◌, map,
  append_assoc, append-nil, arith, ltb, leb, ◌==◌, if◌then◌else◌, ==_iff, Bool-cases, Option-cases,
  is_some, or_else, length, replicate, take, drop, all, any, length-append, length-take_le,
  take_all, All, All-append,
}
use plugshub_common.Text.{Text, codes, text_eq, mem}
use plugshub_common.Value.{Value, str, Fields, end, field}
use plugshub_common.Errors.{Exc, plugs_hub_error, make_error, unauthorized, forbidden}
use plugshub_common.Exec.{Result, ok, raised}

pub record Principal : Type 0 where
  pub id : Text
  pub principal_type : Text
  pub tenant_id : Value
  pub roles : List Text
  pub permissions : List Text
  pub claims : Fields

-- `Principal.has`
unfoldable pub has : Principal → Text → Bool
unfolding mem
has p permission = mem (codes "*") p.permissions || mem permission p.permissions

unfoldable pub has_permission : Option Principal → Text → Bool
unfolding has
has_permission none permission = false
has_permission (some p) permission = has p permission

abbrev pub auth_required : Exc
auth_required =
    plugs_hub_error
      (make_error unauthorized (some (codes "authentication required")) none none none)

abbrev pub permission_required : Text → Exc
permission_required permission = plugs_hub_error (
    make_error forbidden (some (codes "permission '" ++ permission ++ codes "' required")) none none
      (some (field (codes "required_permission") (str permission) end)))

unfoldable pub require_permission : Option Principal → Text → Result Principal
unfolding has
require_permission none permission = raised auth_required
require_permission (some p) permission =
    if not (has p permission) then raised (permission_required permission) else ok p

abbrev pub refused : Text → Exc
refused message = plugs_hub_error (make_error forbidden (some message) none none none)

-- `v == t`, for a text `t`
abbrev pub is_text : Value → Text → Bool
is_text (str s) t = text_eq s t
is_text _ t = false

-- `resource_tenant_id is not None and principal.tenant_id != resource_tenant_id`
abbrev pub other_tenant : Principal → Option Text → Bool
other_tenant p none = false
other_tenant p (some t) = not (is_text p.tenant_id t)

-- `allow_permission is not None and principal.has(allow_permission)`
abbrev pub overridden : Principal → Option Text → Bool
overridden p none = false
overridden p (some permission) = has p permission

-- `owner` is `str(owner_id)`.
unfoldable pub check_object_ownership :
    Option Principal → Text → Option Text → Option Text → Result Principal
unfolding text_eq has
check_object_ownership none owner tenant allow = raised auth_required
check_object_ownership (some p) owner tenant allow =
    if other_tenant p tenant
    then raised (refused (codes "resource belongs to another tenant"))
    else if text_eq p.id owner
    then ok p
    else if overridden p allow
    then ok p
    else raised (refused (codes "not the owner of this resource"))
