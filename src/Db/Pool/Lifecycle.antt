-- ===== src/Db/Pool/Lifecycle.antt =====
-- Starting and stopping the pool.
use plugshub_common.Common.{
  ◌≡◌, refl, inl, inr, true, Option, none, some, List, arith, Bool-cases, Option-cases, is_some,
}
use plugshub_common.Text.{Text, codes}
use plugshub_common.Value.{Value}
use plugshub_common.Errors.{plugs_hub_error, make_error, dependency_unavailable}
use plugshub_common.Exec.{Result, ok, raised, Exec, continue}
use plugshub_common.Float.{Float}
use plugshub_common.Resilience.Retry.{Host}
use plugshub_common.Db.Driver.{Driver}
use plugshub_common.Db.Pool.{run_retried, require_pool, Owned, set_pool, start, stop}

module _ (fl : Float) {W : Type 0} (d : Driver W) where
  start_started : (s : Owned fl d) (p : d.Pool) → s.db.pool ≡ some p → start fl d s ≡ (ok tt, s)
  unfolding start
  start_started s p h = ground arith

  created :
      (r : Result d.Pool) (s : Owned fl d)
      → (continue r (λ p. set_pool fl d (some p)) s).0 ≡ ok tt
      → is_some (continue r (λ p. set_pool fl d (some p)) s).1.db.pool ≡ true
  created (ok p) s h = refl
  created (raised e) s h = cc

  start_pool : (s : Owned fl d) → (start fl d s).0 ≡ ok tt → is_some (start fl d s).1.db.pool ≡ true
  unfolding start
  start_pool s = elim (Option-cases s.db.pool) [
    | inr (p, e) ↦ rw (start_started s p e) (λ h. rw e)
    | inl stopped ↦ elim (Option-cases s.db.config) [
      | inl missing ↦ rw (stopped, start, missing) (λ h. cc)
      | inr (cfg, given) ↦ elim (Bool-cases d.installed) [
        | inl lib ↦ rw (stopped, start, given, lib) (created _ _)
        | inr no_lib ↦ rw (stopped, start, given, no_lib) (λ h. cc)
      ]
    ]
  ]

  stop_pool : (s : Owned fl d) → (stop fl d s).0 ≡ ok tt → (stop fl d s).1.db.pool ≡ none
  unfolding stop
  stop_pool s h = ground arith

  -- After a start that succeeds the pool is there, and a second start changes nothing; after a stop
  -- that succeeds the pool is gone.
  pub start-stop :
      (s : Owned fl d)
      → ((start fl d s).0 ≡ ok tt
          → (is_some (start fl d s).1.db.pool ≡ true)
            × (start fl d (start fl d s).1 ≡ (ok tt, (start fl d s).1)))
        × ((stop fl d s).0 ≡ ok tt → (stop fl d s).1.db.pool ≡ none)
  start-stop s = (
    λ h.
        let there = start_pool s h in
        elim (Option-cases (start fl d s).1.db.pool) [
          | inl gone ↦ absurd (ground arith)
          | inr (p, e) ↦ (there, start_started _ p e)
        ],
    stop_pool s,
  )

  -- A query through a pool that a stop has closed fails with `DependencyUnavailableError`, at once
  -- and without touching the world.
  pub stopped_refuses :
      {A : Type 0} (host : Host fl W) (sleep : fl.F → Exec W (Unit {0})) (s : Owned fl d)
      (result : d.Cursor → Exec W A) (query : Text) (params : Option (List Value))
      (schema : Option Text) (w : W)
      → (stop fl d s).0 ≡ ok tt
      → run_retried fl d host sleep result (stop fl d s).1.db query params schema w ≡ (
        raised (
            plugs_hub_error (
              make_error dependency_unavailable
                (some (codes "database pool is not started"))
                none
                none
                none)),
        w,
      )
  unfolding run_retried require_pool
  stopped_refuses host sleep s result query params schema w h =
      rw ((start-stop s).1 h, run_retried, require_pool)
