-- ===== src/Db/Resolver/Freshness.antt =====
-- How old the answers of `TenantResolver.get_tenants` and `resolve` can be (plugshub_common/db.py).
use plugshub_common.Common.{
  Option, none, some, ◌≡◌, refl, sym, ap, ◌∙◌, ◌⊎◌, inl, inr, Bool, true, false, List, ◌∷◌, arith,
  Bool-cases,
}
use plugshub_common.Text.{Text}
use plugshub_common.Exec.{Result, ok, raised, Exec, Result-cases}
use plugshub_common.Text.{Unicode}
use plugshub_common.Float.{Float}
use plugshub_common.Value.{Value}
use plugshub_common.Resilience.Retry.{Host}
use plugshub_common.Db.Driver.{Driver}
use plugshub_common.Db.Pool.{DbPool}
use plugshub_common.Db.Resolver.{
  discover_default, TenantResolver, Resolving, is_stale, get_tenants, resolve,
}
use plugshub_common.Db.Resolver.Cache.{get_tenants_cases}

result_same : {A : Type 0} {a b : A} → ok a ≡ ok b → a ≡ b
result_same e = cc

module _ (fl : Float) {W : Type 0} (u : Unicode) (clock : W → fl.F)
    (discover : Exec (Resolving fl W) (List Text)) where
  -- The resolver with the discoveries that succeeded, each with the time at which it began, the last
  -- first. No code reads them.
  pub record Watched : Type 0 where
    pub state : Resolving fl W
    pub found : List (fl.F × List Text)

  abbrev pub noted :
      Bool → Result (List Text) → fl.F → List (fl.F × List Text) → List (fl.F × List Text)
  noted false r now found = found
  noted true (ok names) now found = (now, names) ∷ found
  noted true (raised e) now found = found

  unfoldable pub after_asking : Bool → Watched → Watched
  after_asking force w =
      let now = clock w.state.world in
      record {
        state = (get_tenants fl u clock discover force w.state).1;
        found = noted (is_stale fl force now w.state.resolver) (discover w.state).0 now w.found;
      }

  unfoldable pub after_resolving : Text → Watched → Watched
  after_resolving tenant_id w =
      let now = clock w.state.world in
      record {
        state = (resolve fl u clock discover tenant_id w.state).1;
        found = noted (is_stale fl false now w.state.resolver) (discover w.state).0 now w.found;
      }

  -- A call of `get_tenants` or `resolve`, or anything else that happens in the world.
  pub data Step : Watched → Watched → Type 0 where
    asked : (w : Watched) (force : Bool) → Step w (after_asking force w)
    resolved : (w : Watched) (tenant_id : Text) → Step w (after_resolving tenant_id w)
    passed :
        (w : Watched) (world : W) → Step w (record w { state = record w.state { world = world } })

  pub data Reach (start : Watched) : Watched → Type 0 where
    here : Reach start start
    next : {v w : Watched} → Reach start v → Step v w → Reach start w

  -- The discovery writes no field of the resolver.
  pub record IsApart : Type 0 where
    pub at : (s : Resolving fl W) → (discover s).1.resolver ≡ s.resolver

  -- A loaded cache is the last discovery that succeeded, dated by its beginning.
  abbrev IsLast : TenantResolver fl → List (fl.F × List Text) → Type 0
  IsLast r found =
      r.loaded ≡ true → (rest : List (fl.F × List Text)) × (found ≡ (r.loaded_at, r.cache) ∷ rest)

  module _ (apart : IsApart) where
    asked-IsLast :
        (force : Bool) (w : Watched)
        → IsLast w.state.resolver w.found
        → IsLast (after_asking force w).state.resolver (after_asking force w).found
    unfolding after_asking
    asked-IsLast force w last =
        let s = w.state in
        let (kept, loads, fails) = get_tenants_cases fl u clock discover force s in
        elim (Bool-cases (is_stale fl force (clock s.world) s.resolver)) [
          | inr fresh ↦ rw (fresh, kept fresh) last
          | inl stale ↦ elim (Result-cases (discover s).0) [
            | inl (names, e) ↦ rw (stale, e, (loads names stale e).1) (λ h. (w.found, refl))
            | inr (x, e) ↦ rw (stale, e, fails x stale e, apart.at s) last
          ]
        ]

    state-resolve :
        (tenant_id : Text) (s : Resolving fl W)
        → (resolve fl u clock discover tenant_id s).1 ≡ (get_tenants fl u clock discover false s).1
    unfolding resolve
    state-resolve tenant_id s = elim (Result-cases (get_tenants fl u clock discover false s).0) [
      | inl (names, e) ↦ rw e refl
      | inr (x, e) ↦ rw e refl
    ]

    Step-IsLast :
        {v w : Watched}
        → Step v w
        → IsLast v.state.resolver v.found
        → IsLast w.state.resolver w.found
    unfolding after_asking after_resolving
    Step-IsLast (asked w force) last = asked-IsLast force w last
    Step-IsLast (resolved w tenant_id) last =
        rw (state-resolve tenant_id w.state) (asked-IsLast false w last)
    Step-IsLast (passed w world) last = last

    Reach-IsLast :
        {start w : Watched}
        → start.state.resolver.loaded ≡ false
        → Reach start w
        → IsLast w.state.resolver w.found
    Reach-IsLast new here = λ h. absurd (ground arith)
    Reach-IsLast new (next run step) = Step-IsLast step (Reach-IsLast new run)

    -- However the calls of a resolver are ordered, and whatever happens between them, an answer of
    -- `get_tenants` is the last discovery that succeeded, and that began at this call, or less than
    -- the refresh interval before it. The resolver starts unloaded, and discovering writes none of
    -- its fields.
    pub get_tenants_fresh :
        (start w : Watched) (force : Bool) (names : List Text)
        → start.state.resolver.loaded ≡ false
        → Reach start w
        → (get_tenants fl u clock discover force w.state).0 ≡ ok names
        → let now = clock w.state.world in
          (t : fl.F) × (rest : List (fl.F × List Text)) × ((after_asking force w).found
            ≡ (t, names) ∷ rest)
          × ((t ≡ now)
              ⊎ ((force ≡ false)
                  × (fl.le w.state.resolver.refresh_interval (fl.sub now t) ≡ false)))
    unfolding after_asking
    get_tenants_fresh start w force names new run answered =
        let s = w.state in
        let now = clock s.world in
        let (kept, loads, fails) = get_tenants_cases fl u clock discover force s in
        elim (Bool-cases (is_stale fl force now s.resolver)) [
          | inr fresh ↦
              let (rest, e) = Reach-IsLast new run (ground arith) in
              let same : s.resolver.cache ≡ names =
                result_same (sym (ap (λ p. p.0) (kept fresh)) ∙ answered) in
              rw fresh (
                s.resolver.loaded_at,
                rest,
                e ∙ ap (λ c. (s.resolver.loaded_at, c) ∷ rest) same,
                inr (ground arith, ground arith),
              )
          | inl stale ↦ elim (Result-cases (discover s).0) [
            | inl (found, e) ↦
                let same : found ≡ names = result_same (sym (loads found stale e).0 ∙ answered) in
                rw (stale, e) (now, w.found, ap (λ c. (now, c) ∷ w.found) same, inl refl)
            | inr (x, e) ↦ let failed = ap (λ p. p.0) (fails x stale e) in absurd (ground arith)
          ]
        ]

-- The resolver's own discovery is such a one.
pub discover_default-IsApart :
    (fl : Float) {W : Type 0} (u : Unicode) (clock : W → fl.F) (d : Driver W) (host : Host fl W)
    (sleep : fl.F → Exec W (Unit {0})) (to_text : Value → Text) (pool : Option (DbPool fl d))
    → IsApart fl u clock (discover_default fl d host sleep to_text pool)
unfolding discover_default
discover_default-IsApart fl u clock d host sleep to_text none = record { at = λ s. refl }
discover_default-IsApart fl u clock d host sleep to_text (some pool) = record { at = λ s. refl }
