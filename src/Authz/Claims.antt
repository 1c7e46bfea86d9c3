-- ===== src/Authz/Claims.antt =====
-- plugshub_common/authz.py: the principal of a token's claims, and the dependency that checks a
-- permission. `to_text` is `str`; `iterate` is the iteration over an object that is no JSON value.
use plugshub_common.Common.{
  ℕ, Bool, true, false, not, Option, none, some, List, [], ◌∷◌, if◌then◌else◌, or_else,
}
use plugshub_common.Text.{Text, codes, is_space, is_empty}
use plugshub_common.Value.{
  Value, null, bool, int, str, list, dict, object, Items, nil, cons, Fields, end, field, get_field,
  truthy,
}
use plugshub_common.Errors.{Exc, plugs_hub_error, make_error, unauthorized, type_error}
use plugshub_common.Exec.{Result, ok, raised, try_then}
use plugshub_common.Authz.{Principal, require_permission}

abbrev pub keep_word : Text → List Text → List Text
keep_word w ws = if is_empty w then ws else w ∷ ws

-- The word that the text begins with, which may be empty, and the later words.
unfoldable pub words : Text → Text × List Text
words [] = ([], [])
words (c ∷ s) = let (w, ws) = words s in if is_space c then ([], keep_word w ws) else (c ∷ w, ws)

-- `s.split()`
unfoldable pub split : Text → List Text
unfolding words
split s = let (w, ws) = words s in keep_word w ws

abbrev pub texts_of : (Value → Text) → Items → List Text
texts_of to_text nil = []
texts_of to_text (cons v vs) = to_text v ∷ texts_of to_text vs

abbrev pub keys_of : Fields → List Text
keys_of end = []
keys_of (field k v d) = k ∷ keys_of d

-- `d.get(k)`, where a missing key is None
abbrev pub claim : Text → Fields → Value
claim k d = or_else (get_field k d) null

-- `a or b`
abbrev pub or_value : Value → Value → Value
or_value a b = if truthy a then a else b

abbrev pub no_subject : Exc
no_subject =
    plugs_hub_error
      (make_error unauthorized (some (codes "token has no subject claim")) none none none)

abbrev pub not_iterable : Exc
not_iterable = type_error (codes "object is not iterable")

abbrev pub is_null : Value → Bool
is_null null = true
is_null v = false

module _ (to_text : Value → Text) (iterate : ℕ → Result (List Text)) where
  -- `_as_frozenset`, as a list of its texts
  unfoldable pub as_frozenset : Value → Result (List Text)
  as_frozenset null = ok []
  as_frozenset (str t) = ok (t ∷ [])
  as_frozenset (list vs) = ok (texts_of to_text vs)
  as_frozenset (dict d) = ok (keys_of d)
  as_frozenset (object n) = iterate n
  as_frozenset (bool b) = raised not_iterable
  as_frozenset (int n) = raised not_iterable

  -- `_as_frozenset(perms)`: the words of a scope text, or what the scope is.
  unfoldable pub of_scope : Value → Result (List Text)
  unfolding split as_frozenset
  of_scope (str t) = ok (split t)
  of_scope v = as_frozenset v

  unfoldable pub granted : Fields → Result (List Text)
  unfolding of_scope as_frozenset get_field
  granted claims =
      if is_null (claim (codes "permissions") claims)
      then of_scope (or_value (claim (codes "scope") claims) (claim (codes "scopes") claims))
      else as_frozenset (claim (codes "permissions") claims)

  abbrev pub subject_of : Fields → Value
  subject_of claims = or_value (claim (codes "sub") claims) (claim (codes "id") claims)

  -- `claims` is copied; a copy of a value is the value.
  unfoldable pub principal_of : Fields → List Text → List Text → Principal
  unfolding get_field
  principal_of claims roles permissions = record {
    id = to_text (subject_of claims);
    principal_type = to_text (or_else (get_field (codes "type") claims) (str (codes "user")));
    tenant_id = claim (codes "tenant_id") claims;
    roles = roles;
    permissions = permissions;
    claims = claims;
  }

  unfoldable pub principal_from_claims : Fields → Result Principal
  unfolding principal_of granted as_frozenset
  principal_from_claims claims =
      if not (truthy (subject_of claims))
      then raised no_subject
      else try_then (as_frozenset (claim (codes "roles") claims)) λ roles.
        try_then (granted claims) λ permissions. ok (principal_of claims roles permissions)

-- `PermissionChecker`, and a call of it, over what its resolver gives.
pub record PermissionChecker : Type 0 where
  pub permission : Text

unfoldable pub call_checker : PermissionChecker → Result (Option Principal) → Result Principal
unfolding require_permission
call_checker checker principal = try_then principal (λ p. require_permission p checker.permission)
