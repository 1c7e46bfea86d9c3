-- ===== src/Db/Pool/Leases.antt =====
-- Every connection that a query method acquires goes back to the pool, however the query ends.
use plugshub_common.Common.{
  ℕ, ◌+◌, ◌<◌, ◌≡◌, refl, ap, ◌∙◌, inl, inr, Bool, true, false, Option, none, some, List, [], ◌∷◌,
  arith, if◌then◌else◌, Option-cases, or_else,
}
use plugshub_common.Common.Int.{ℤ}
use plugshub_common.Text.{Text}
use plugshub_common.Value.{Value}
use plugshub_common.Errors.{Exc}
use plugshub_common.Exec.{Result, ok, raised, Exec, pure, ◌>>=◌, continue, Result-cases}
use plugshub_common.Float.{Float}
use plugshub_common.Resilience.Retry.{Host}
use plugshub_common.Resilience.Retry.Keeps.{retry_async_keeps}
use plugshub_common.Db.Driver.{Driver}
use plugshub_common.Db.Pool.Attempts.{with_context_raised, with_context_ok}
use plugshub_common.Db.Pool.{
  with_context, ignoring, bind_socket_timeout, DbPool, check_liveness, use_schema, run_query,
  use_connection, attempt, retried, run_retried, require_pool,
}

-- A call that leaves what `held` reads of the world as it was, such as the count of connections held.
pub record Quiet {W V A : Type 0} (held : W → V) (m : Exec W A) : Type 0 where
  pub at : (w : W) → held (m w).1 ≡ held w

module _ {W V : Type 0} (held : W → V) where
  pub Quiet-pure : {A : Type 0} (a : A) → Quiet held (pure {S = W} a)
  Quiet-pure a = record { at = λ w. refl }

  Quiet-continue :
      {A B : Type 0} (r : Result A) (f : A → Exec W B)
      → ((a : A) → Quiet held (f a))
      → Quiet held (continue r f)
  Quiet-continue (ok a) f kf = kf a
  Quiet-continue (raised e) f kf = record { at = λ w. refl }

  pub Quiet-bind :
      {A B : Type 0} (m : Exec W A) (f : A → Exec W B)
      → Quiet held m
      → ((a : A) → Quiet held (f a))
      → Quiet held (m >>= f)
  Quiet-bind m f km kf = record { at = λ w. (Quiet-continue (m w).0 f kf).at (m w).1 ∙ km.at w }

  Quiet-with_context :
      {X A : Type 0} (enter : Exec W X) (leave : X → Exec W (Unit {0})) (body : X → Exec W A)
      → Quiet held enter
      → ((x : X) → Quiet held (leave x))
      → ((x : X) → Quiet held (body x))
      → Quiet held (with_context enter leave body)
  unfolding with_context
  Quiet-with_context enter leave body ke kl kb =
      Quiet-bind enter _ ke (λ x. record { at = λ w. (kl x).at (body x w).1 ∙ (kb x).at w })

  Quiet-ignoring :
      (caught : Exc → Bool) (m : Exec W (Unit {0})) → Quiet held m → Quiet held (ignoring caught m)
  unfolding ignoring
  Quiet-ignoring caught m km = record { at = λ w. km.at w }

  pub Quiet-if :
      {A : Type 0} (b : Bool) (m n : Exec W A)
      → Quiet held m
      → Quiet held n
      → Quiet held (if b then m else n)
  Quiet-if true m n km kn = km
  Quiet-if false m n km kn = kn

ruleset quiet_rules = (Quiet-pure, Quiet-bind, Quiet-with_context, Quiet-ignoring, Quiet-if)

-- How the driver's calls change the number of connections held: acquiring one adds one unless it
-- raises, handing one back takes one away, and no other call changes it.
pub record Counts {W : Type 0} (d : Driver W) (held : W → ℕ) : Type 0 where
  pub acquired :
      (p : d.Pool) (w : W) (c : d.Conn)
      → (d.acquire p w).0 ≡ ok c
      → held (d.acquire p w).1 ≡ held w + 1
  pub not_acquired :
      (p : d.Pool) (w : W) (e : Exc)
      → (d.acquire p w).0 ≡ raised e
      → held (d.acquire p w).1 ≡ held w
  pub released :
      (p : d.Pool) (c : d.Conn) (w : W) → 0 < held w → held (d.release p c w).1 + 1 ≡ held w
  pub setsockopt : (c : d.Conn) (n : ℕ) → Quiet held (d.setsockopt c n)
  pub ping : (c : d.Conn) → Quiet held (d.ping c)
  pub open_cursor : (c : d.Conn) → Quiet held (d.open_cursor c)
  pub close_cursor : (c : d.Cursor) → Quiet held (d.close_cursor c)
  pub cursor_execute :
      (c : d.Cursor) (q : Text) (ps : List Value) → Quiet held (d.cursor_execute c q ps)

module _ {W V : Type 0} (d : Driver W) (held : W → V) where
  pub bind_socket_timeout-Quiet :
      ((c : d.Conn) (n : ℕ) → Quiet held (d.setsockopt c n))
      → (c : d.Conn) (t : ℤ) → Quiet held (bind_socket_timeout d c t)
  unfolding bind_socket_timeout
  bind_socket_timeout-Quiet set c t = search (quiet_rules, set) depth 8

  pub check_liveness-Quiet :
      (fl : Float)
      → ((c : d.Conn) → Quiet held (d.ping c))
      → (self : DbPool fl d) (c : d.Conn) → Quiet held (check_liveness fl d self c)
  unfolding check_liveness
  check_liveness-Quiet fl pinged self c = search (quiet_rules, pinged) depth 8

module _ (fl : Float) {W : Type 0} (d : Driver W) (held : W → ℕ) (counts : Counts d held) where
  use_schema-Quiet : (c : d.Cursor) (schema : Option Text) → Quiet held (use_schema fl d c schema)
  unfolding use_schema
  use_schema-Quiet c none = Quiet-pure held tt
  use_schema-Quiet c (some []) = Quiet-pure held tt
  use_schema-Quiet c (some (x ∷ name)) = counts.cursor_execute c _ _

  module _ {A : Type 0} (self : DbPool fl d) (pool : d.Pool) (query : Text) (params : List Value)
      (schema : Option Text) (result : d.Cursor → Exec W A)
      (reads : (c : d.Cursor) → Quiet held (result c)) where
    run_query-Quiet :
        (c : d.Cursor) → Quiet held (run_query fl d self pool query params schema result c)
    unfolding run_query
    run_query-Quiet c =
        Quiet-bind held _ _
          (Quiet-bind held _ _ (use_schema-Quiet c schema)
            (λ u. counts.cursor_execute c query params))
          (λ u. reads c)

    use_connection-Quiet :
        (c : d.Conn) → Quiet held (use_connection fl d self pool query params schema result c)
    unfolding use_connection
    use_connection-Quiet c =
        Quiet-bind held _ _
          (Quiet-bind held _ _ (bind_socket_timeout-Quiet d held counts.setsockopt c _)
            (λ u. check_liveness-Quiet d held fl counts.ping self c))
          (λ u.
            Quiet-with_context held _ _ _ (counts.open_cursor c) counts.close_cursor
              run_query-Quiet)

    -- An attempt hands back the connection that it acquired.
    attempt-Quiet : Quiet held (attempt fl d self pool query params schema result)
    unfolding attempt
    attempt-Quiet = record {
      at = λ w. elim (Result-cases (d.acquire pool w).0) [
        | inr (e, failed) ↦
            ap (λ p. held p.1) (with_context_raised _ _ _ w e failed)
            ∙ counts.not_acquired pool w e failed
        | inl (c, got) ↦
            let w1 = (d.acquire pool w).1 in
            let used = use_connection fl d self pool query params schema result c w1 in
            let counted : held w1 ≡ held w + 1 = counts.acquired pool w c got in
            let kept : held used.1 ≡ held w1 = (use_connection-Quiet c).at w1 in
            let back : held (d.release pool c used.1).1 + 1 ≡ held used.1 =
              counts.released pool c used.1 (omega arith) in
            ap (λ p. held p.1) (with_context_ok _ _ _ w c got) ∙ omega arith
      ];
    }

    module _ (host : Host fl W) (sleep : fl.F → Exec W (Unit {0}))
        (slept : (x : fl.F) → Quiet held (sleep x))
        (drawn : (x : fl.F) (w : W) → held (host.uniform x w).1 ≡ held w) where
      retried-Quiet :
          (w : W)
          → held
              (retried fl d host sleep self (attempt fl d self pool query params schema result) w).1
            ≡ held w
      unfolding retried
      retried-Quiet w =
          retry_async_keeps fl host _ self.retry_policy _ (λ w'. held w' ≡ held w)
            (λ s h. attempt-Quiet.at s.world ∙ h) (λ x s h. (slept x).at s.world ∙ h)
            (λ x w' h. drawn x w' ∙ h) (record { breaker = none; world = w }) refl

  -- However `execute`, `fetch_all` or `fetch_one` ends, with its result, after retries, or with an
  -- exception, as many connections are held after it as before, if the driver counts them so and
  -- neither sleeping nor drawing the jitter changes their number.
  pub run_retried_leases :
      {A : Type 0} (host : Host fl W) (sleep : fl.F → Exec W (Unit {0}))
      (slept : (x : fl.F) → Quiet held (sleep x))
      (drawn : (x : fl.F) (w : W) → held (host.uniform x w).1 ≡ held w) (self : DbPool fl d)
      (result : d.Cursor → Exec W A) (reads : (c : d.Cursor) → Quiet held (result c)) (query : Text)
      (params : Option (List Value)) (schema : Option Text) (w : W)
      → held (run_retried fl d host sleep result self query params schema w).1 ≡ held w
  unfolding run_retried require_pool
  run_retried_leases host sleep slept drawn self result reads query params schema w =
      elim (Option-cases self.pool) [
        | inl stopped ↦ rw (stopped, run_retried, require_pool)
        | inr (pool, started) ↦
            rw (started, run_retried, require_pool)
              (retried-Quiet self pool query (or_else params []) schema result reads host sleep
                slept drawn w)
      ]
