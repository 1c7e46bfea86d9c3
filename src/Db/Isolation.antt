-- ===== src/Db/Isolation.antt =====
-- A query for a tenant: the schema that `TenantResolver.resolve` names, given to a query method of
-- `DBPool` (plugshub_common/db.py).
use plugshub_common.Common.{◌≡◌, refl, ap, ◌∙◌, subst, true, Option, some, List, ◌++◌}
use plugshub_common.Text.{Text, mem}
use plugshub_common.Value.{Value}
use plugshub_common.Exec.{ok, Exec}
use plugshub_common.Text.{Unicode, without_prefix}
use plugshub_common.Float.{Float}
use plugshub_common.Tenant.{prefix}
use plugshub_common.Resilience.Retry.{Host}
use plugshub_common.Db.Driver.{Driver}
use plugshub_common.Db.Pool.{DbPool, run_retried}
use plugshub_common.Db.Pool.Leases.{Quiet}
use plugshub_common.Db.Pool.Scoped.{Statement, Logs, OnlyScoped, run_retried-OnlyScoped}
use plugshub_common.Db.Resolver.{Resolving, resolve}
use plugshub_common.Db.Resolver.Schemas.{IsBare, resolve_sound}

-- A query for a tenant stays in the schema of that tenant: when the tenant's id resolves and the
-- schema is given to a query method, the statement runs only in the schema "tenant" followed by a
-- name of the live set, the id without its prefix, in every attempt and however the call ends; and
-- nothing else is executed but the `USE` of that schema. No name of the live set starts with "tenant"
-- itself, the driver logs statements as `Logs` says, and reading the result, sleeping and drawing the
-- jitter execute none.
pub tenant_query_isolated :
    (fl : Float) {W : Type 0} (d : Driver W) (seen : W → List Statement) (logs : Logs d seen)
    (host : Host fl W) (sleep : fl.F → Exec W (Unit {0}))
    (slept : (x : fl.F) → Quiet seen (sleep x))
    (drawn : (x : fl.F) (w : W) → seen (host.uniform x w).1 ≡ seen w) {A : Type 0}
    (self : DbPool fl d) (result : d.Cursor → Exec W A)
    (reads : (cur : d.Cursor) → Quiet seen (result cur)) (query : Text)
    (params : Option (List Value)) (w : W) (u : Unicode) (clock : W → fl.F)
    (discover : Exec (Resolving fl W) (List Text)) (tenant_id schema : Text) (s : Resolving fl W)
    → let (resolved, s1) = resolve fl u clock discover tenant_id s in
      IsBare s1.resolver.cache
      → resolved ≡ ok schema
      → (mem (without_prefix prefix tenant_id) s1.resolver.cache ≡ true)
        × OnlyScoped
            (prefix ++ without_prefix prefix tenant_id)
            query
            (seen w)
            (seen (run_retried fl d host sleep result self query params (some schema) w).1)
tenant_query_isolated fl d seen logs host sleep slept drawn self result reads query params w u clock
      discover tenant_id schema s bare h =
    let (x, named, listed, is, charset) =
      resolve_sound fl u clock discover tenant_id s schema bare h in
    let whole : schema ≡ prefix ++ without_prefix prefix tenant_id =
      named ∙ ap (λ y. prefix ++ y) is in
    (
      subst (λ y. mem y (resolve fl u clock discover tenant_id s).1.resolver.cache ≡ true) is
          listed,
      rw whole (
          run_retried-OnlyScoped fl d seen logs host sleep slept drawn self result reads
            (prefix ++ without_prefix prefix tenant_id) query params w refl),
    )
