-- ===== src/Db/Resolver/Cache.antt =====
-- When the resolver asks for the live tenants again.
use plugshub_common.Common.{◌≡◌, Bool, true, false, List, arith}
use plugshub_common.Text.{Text, Unicode}
use plugshub_common.Errors.{Exc}
use plugshub_common.Exec.{ok, raised, Exec}
use plugshub_common.Float.{Float}
use plugshub_common.Db.Resolver.{Resolving, is_stale, get_tenants}

module _ (fl : Float) {W : Type 0} (u : Unicode) (clock : W → fl.F)
    (discover : Exec (Resolving fl W) (List Text)) where
  -- While the cache is loaded and younger than the refresh interval, it is the answer, and nothing
  -- is discovered or changed. Otherwise, or when forced, the tenants are discovered: names that come
  -- back are the answer and the new cache, dated by the clock before the discovery; an exception
  -- passes through, and leaves the resolver as the discovery left it.
  pub get_tenants_cases :
      (force : Bool) (s : Resolving fl W)
      → let now = clock s.world in
        let (found, after) = discover s in
        (is_stale fl force now s.resolver ≡ false
          → get_tenants fl u clock discover force s ≡ (ok s.resolver.cache, s))
        × ((names : List Text)
            → is_stale fl force now s.resolver ≡ true
            → found ≡ ok names
            → ((get_tenants fl u clock discover force s).0 ≡ ok names)
              × ((get_tenants fl u clock discover force s).1.resolver
                  ≡ record after.resolver { cache = names; loaded_at = now; loaded = true }))
        × ((e : Exc)
            → is_stale fl force now s.resolver ≡ true
            → found ≡ raised e
            → get_tenants fl u clock discover force s ≡ (raised e, after))
  unfolding get_tenants
  get_tenants_cases force s = (λ h. ground arith, λ names h e. ground arith, λ x h e. ground arith)

  -- The answer is the cache that the resolver then holds.
  pub get_tenants-cache :
      (force : Bool) (s : Resolving fl W) (names : List Text)
      → (get_tenants fl u clock discover force s).0 ≡ ok names
      → (get_tenants fl u clock discover force s).1.resolver.cache ≡ names
  unfolding get_tenants
  get_tenants-cache force s names h = ground arith
