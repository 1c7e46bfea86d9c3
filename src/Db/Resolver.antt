-- ===== src/Db/Resolver.antt =====
-- `TenantResolver` of plugshub_common/db.py. A Python set of names is a list without repetitions.
pub mod Schemas
pub mod Cache
pub mod Freshness
pub mod Discovery
mod Tests
use plugshub_common.Common.{
  ℕ, zero, suc, ◌+◌, ◌-◌, ◌*◌, ◌^◌, ◌≤◌, ◌<◌, String, ◌≡◌, refl, sym, ap, ◌∙◌, subst, ◌≢◌, ◌↔◌, ◌⊎◌,
  inl, inr, Bool, true, false, not, ◌&&◌, ◌||◌, Option, none, some, List, [], ◌∷◌, ◌++◌, map,
  append_assoc, append-nil, arith, ltb, leb, ◌==◌, if◌then◌else◌, ==_iff, Bool-cases, Option-cases,
  is_some, or_else, length, replicate, take, drop, all, any, length-append, length-take_le,
  take_all, All, All-append,
}
use plugshub_common.Text.{Text, codes, Unicode, mem, without_prefix, starts_with}
use plugshub_common.Value.{Value, str}
use plugshub_common.Errors.{Exc, value_error, index_error}
use plugshub_common.Exec.{Result, ok, raised, Exec, pure, raise, ◌>>=◌, ◌>>◌}
use plugshub_common.Float.{Float}
use plugshub_common.Resilience.Retry.{Host}
use plugshub_common.Tenant.{validate_tenant, prefix}
use plugshub_common.Db.Driver.{Row, Driver}
use plugshub_common.Db.Pool.{DbPool, fetch_all}

-- `names.add(name)`
abbrev pub add_name : Text → List Text → List Text
add_name name names = if mem name names then names else names ++ name ∷ []

-- The loop of `_discover_default`; `to_text` is Python's `str`.
unfoldable pub collect : (Value → Text) → List Row → List Text → Result (List Text)
unfolding mem without_prefix
collect to_text [] names = ok names
collect to_text ([] ∷ rows) names = raised index_error
collect to_text ((column ∷ columns) ∷ rows) names =
    collect to_text rows (add_name (without_prefix prefix (to_text column)) names)

module _ (fl : Float) where
  open fl use {F}

  pub record TenantResolver : Type 0 where
    pub refresh_interval : F
    pub cache : List Text
    pub loaded_at : F
    pub loaded : Bool

  -- `TenantResolver(refresh_interval=...)`
  unfoldable pub make_resolver : F → TenantResolver
  make_resolver refresh_interval = record {
    refresh_interval = refresh_interval;
    cache = [];
    loaded_at = fl.decimal 0 0;
    loaded = false;
  }

  -- The resolver and the world.
  pub record Resolving (W : Type 0) : Type 0 where
    pub resolver : TenantResolver
    pub world : W

  -- `force or not self._loaded or (now - self._loaded_at) >= self.refresh_interval`
  abbrev pub is_stale : Bool → F → TenantResolver → Bool
  is_stale force now r = force || not r.loaded || fl.le r.refresh_interval (fl.sub now r.loaded_at)

  module _ {W : Type 0} where
    -- `_discover_default`
    unfoldable pub discover_default :
        (d : Driver W)
        → Host fl W
        → (F → Exec W (Unit {0}))
        → (Value → Text)
        → Option (DbPool fl d)
        → Exec (Resolving W) (List Text)
    unfolding collect
    discover_default d host sleep to_text none s =
        (raised (value_error (codes "TenantResolver needs a pool or a discover callable")), s)
    discover_default d host sleep to_text (some pool) s =
        let (r, w) =
          fetch_all fl d host sleep pool (codes "SHOW DATABASES LIKE %s")
            (some (str (prefix ++ codes "%") ∷ [])) none s.world in
        (elim r [ ok rows ↦ collect to_text rows [] | raised e ↦ raised e ], record s { world = w })

    module _ (u : Unicode) (clock : W → F) (discover : Exec (Resolving W) (List Text)) where
      -- What follows the discovery that began at `now`.
      unfoldable pub store_names : F → List Text → Exec (Resolving W) (List Text)
      store_names now names s = (
        ok names,
        record s { resolver = record s.resolver { cache = names; loaded_at = now; loaded = true } },
      )

      unfoldable pub get_tenants : Bool → Exec (Resolving W) (List Text)
      unfolding store_names
      get_tenants force s =
          let now = clock s.world in
          if is_stale force now s.resolver
          then (discover >>= store_names now) s
          else (ok s.resolver.cache, s)

      -- `validate_tenant(tenant_id, tenants, raise_on_invalid=True)` and what follows it.
      unfoldable pub schema_of : Text → List Text → Result Text
      unfolding without_prefix
      schema_of tenant_id tenants = elim (validate_tenant u tenant_id (some tenants) true) [
        | ok valid ↦ ok (prefix ++ without_prefix prefix tenant_id)
        | raised e ↦ raised e
      ]

      unfoldable pub resolve : Text → Exec (Resolving W) Text
      resolve tenant_id = do tenants ← get_tenants false; λ s. (schema_of tenant_id tenants, s)
