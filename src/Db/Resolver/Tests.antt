-- ===== src/Db/Resolver/Tests.antt =====
-- The resolver at concrete states.
use plugshub_common.Common.{ℕ, ◌+◌, ◌≡◌, refl, true, false, List, [], ◌∷◌}
use plugshub_common.Text.{Text, codes, upper, Unicode}
use plugshub_common.Value.{Value, str}
use plugshub_common.Exec.{ok, Exec}
use plugshub_common.Float.{whole}
use plugshub_common.Tenant.{validate_tenant, whitelisted, well_formed, is_dangerous}
use plugshub_common.Db.Resolver.{Resolving, get_tenants, schema_of, resolve}
use plugshub_common.Db.Resolver.Schemas.{resolve_unlisted}
use plugshub_common.Common.{◌⊎◌}
use plugshub_common.Db.Resolver.Freshness.{
  Watched, after_asking, asked, passed, Reach, here, next, IsApart, get_tenants_fresh,
}

abbrev plain : Unicode
plain = record { upper_other = λ c. c ∷ []; lower_other = λ c. c ∷ []; is_alpha_other = λ c. false }

abbrev S : Type 0
S = Resolving whole ℕ

-- The world is the time; discovery takes one second and finds one tenant.
abbrev discover : Exec S (List Text)
discover s = (ok (codes "acme-1" ∷ []), record s { world = s.world + 1 })

abbrev clock : ℕ → ℕ
clock w = w

abbrev new : S
new = record {
  resolver = record { refresh_interval = 300; cache = []; loaded_at = 0; loaded = false };
  world = 5;
}

abbrev loaded : S
loaded = record {
  resolver = record {
    refresh_interval = 300;
    cache = codes "acme-1" ∷ [];
    loaded_at = 5;
    loaded = true;
  };
  world = 6;
}

first_resolve :
    resolve whole plain clock discover (codes "tenantacme-1") new
    ≡ (ok (codes "tenantacme-1"), loaded)
unfolding resolve get_tenants schema_of validate_tenant whitelisted well_formed is_dangerous upper
first_resolve = refl

-- A live tenant whose bare name starts with "tenant".
abbrev odd : S
odd = record {
  resolver = record {
    refresh_interval = 300;
    cache = codes "tenantacme" ∷ [];
    loaded_at = 5;
    loaded = true;
  };
  world = 6;
}

-- The schema of the live set is "tenanttenantacme".
odd_resolved :
    resolve whole plain clock discover (codes "tenantacme") odd ≡ (ok (codes "tenantacme"), odd)
unfolding validate_tenant whitelisted well_formed is_dangerous upper
odd_resolved = (resolve_unlisted whole plain clock discover (codes "acme") odd refl refl refl).0

abbrev shown : Value → Text
shown (str t) = t
shown _ = []

discover-IsApart : IsApart whole plain clock discover
discover-IsApart = record { at = λ s. refl }

abbrev unwatched : Watched whole plain clock discover
unwatched = record { state = new; found = [] }

-- Asked at 5, and then again at 100.
abbrev later : Watched whole plain clock discover
later = record { state = record loaded { world = 100 }; found = (5, codes "acme-1" ∷ []) ∷ [] }

to_later : Reach whole plain clock discover unwatched later
unfolding after_asking get_tenants
to_later = next (next here (asked unwatched false)) (passed _ 100)

get_tenants_fresh_example :
    (t : ℕ) × (rest : List (ℕ × List Text)) × ((after_asking whole plain clock discover false
        later).found
      ≡ (t, codes "acme-1" ∷ []) ∷ rest)
    × ((t ≡ 100) ⊎ ((false ≡ false) × (whole.le 300 (whole.sub 100 t) ≡ false)))
unfolding get_tenants
get_tenants_fresh_example =
    get_tenants_fresh whole plain clock discover discover-IsApart unwatched later false
      (codes "acme-1" ∷ []) refl to_later refl
