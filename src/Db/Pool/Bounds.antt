-- ===== src/Db/Pool/Bounds.antt =====
-- How often a query method executes its statement.
use plugshub_common.Common.{
  ℕ, ◌+◌, ◌≤◌, ◌<◌, ◌≡◌, refl, ◌≢◌, inl, inr, Option, none, some, List, [], ◌∷◌, arith,
  Option-cases, or_else,
}
use plugshub_common.Text.{Text}
use plugshub_common.Value.{Value}
use plugshub_common.Exec.{Result, ok, raised, Exec}
use plugshub_common.Float.{Float}
use plugshub_common.Resilience.Retry.{Host}
use plugshub_common.Resilience.Retry.Calls.{retry_async_calls}
use plugshub_common.Db.Driver.{Driver}
use plugshub_common.Exec.{continue, ◌>>=◌}
use plugshub_common.Db.Pool.Leases.{Quiet, bind_socket_timeout-Quiet, check_liveness-Quiet}
use plugshub_common.Db.Pool.Scoped.{use_text}
use plugshub_common.Db.Pool.{
  with_context, DbPool, use_schema, run_query, use_connection, attempt, retried, run_retried,
  require_pool,
}

-- The world counts how often the server has executed `query`: an execution of it counts at most
-- one, and no other call counts, nor does any other statement.
pub record CountsRuns {W : Type 0} (d : Driver W) (query : Text) (runs : W → ℕ) : Type 0 where
  pub executed :
      (cur : d.Cursor) (ps : List Value) (w : W)
      → runs (d.cursor_execute cur query ps w).1 ≤ runs w + 1
  pub others :
      (cur : d.Cursor) (q : Text) (ps : List Value)
      → q ≢ query
      → Quiet runs (d.cursor_execute cur q ps)
  pub acquire : (p : d.Pool) → Quiet runs (d.acquire p)
  pub release : (p : d.Pool) (c : d.Conn) → Quiet runs (d.release p c)
  pub setsockopt : (c : d.Conn) (n : ℕ) → Quiet runs (d.setsockopt c n)
  pub ping : (c : d.Conn) → Quiet runs (d.ping c)
  pub open_cursor : (c : d.Conn) → Quiet runs (d.open_cursor c)
  pub close_cursor : (c : d.Cursor) → Quiet runs (d.close_cursor c)

module _ {W : Type 0} (runs : W → ℕ) where
  -- A call that counts at most so many.
  pub record AtMost (k : ℕ) {A : Type 0} (m : Exec W A) : Type 0 where
    pub at : (w : W) → runs (m w).1 ≤ runs w + k

  AtMost-Quiet : {A : Type 0} (m : Exec W A) → Quiet runs m → AtMost 0 m
  AtMost-Quiet m quiet = record { at = λ w. omega (arith, quiet.at w) }

  AtMost-continue :
      (k : ℕ) {A B : Type 0} (r : Result A) (f : A → Exec W B)
      → ((a : A) → AtMost k (f a))
      → AtMost k (continue r f)
  AtMost-continue k (ok a) f kf = kf a
  AtMost-continue k (raised e) f kf = record { at = λ w. omega arith }

  AtMost-bind :
      (j k : ℕ) {A B : Type 0} (m : Exec W A) (f : A → Exec W B)
      → AtMost j m
      → ((a : A) → AtMost k (f a))
      → AtMost (j + k) (m >>= f)
  AtMost-bind j k m f km kf = record {
    at = λ w. omega (arith, (AtMost-continue k (m w).0 f kf).at (m w).1, km.at w);
  }

  AtMost-with_context :
      {X A : Type 0} (enter : Exec W X) (leave : X → Exec W (Unit {0})) (body : X → Exec W A)
      → Quiet runs enter
      → ((x : X) → Quiet runs (leave x))
      → ((x : X) → AtMost 1 (body x))
      → AtMost 1 (with_context enter leave body)
  unfolding with_context
  AtMost-with_context enter leave body ke kl kb =
      AtMost-bind 0 1 enter _ (AtMost-Quiet enter ke)
        (λ x. record { at = λ w. omega (arith, (kl x).at (body x w).1, (kb x).at w) })

module _ (fl : Float) {W : Type 0} (d : Driver W) (query : Text) (runs : W → ℕ)
    (counts : CountsRuns d query runs) {A : Type 0} (self : DbPool fl d) (params : List Value)
    (schema : Option Text) (result : d.Cursor → Exec W A)
    (reads : (cur : d.Cursor) → Quiet runs (result cur))
    (another : (name : Text) → use_text name ≢ query) where
  use_schema-Quiet :
      (cur : d.Cursor) (schema : Option Text) → Quiet runs (use_schema fl d cur schema)
  unfolding use_schema
  use_schema-Quiet cur none = record { at = λ w. refl }
  use_schema-Quiet cur (some []) = record { at = λ w. refl }
  use_schema-Quiet cur (some (c ∷ name)) = counts.others cur _ [] (another (c ∷ name))

  run_query-AtMost :
      (pool : d.Pool) (cur : d.Cursor)
      → AtMost runs 1 (run_query fl d self pool query params schema result cur)
  unfolding run_query
  run_query-AtMost pool cur =
      AtMost-bind runs 1 0 _ _
        (AtMost-bind runs 0 1 _ _ (AtMost-Quiet runs _ (use_schema-Quiet cur schema))
          (λ u. record { at = counts.executed cur params }))
        (λ u. AtMost-Quiet runs _ (reads cur))

  use_connection-AtMost :
      (pool : d.Pool) (c : d.Conn)
      → AtMost runs 1 (use_connection fl d self pool query params schema result c)
  unfolding use_connection
  use_connection-AtMost pool c =
      AtMost-bind runs 0 1 _ _
        (AtMost-bind runs 0 0 _ _
          (AtMost-Quiet runs _ (bind_socket_timeout-Quiet d runs counts.setsockopt c _))
          (λ u. AtMost-Quiet runs _ (check_liveness-Quiet d runs fl counts.ping self c)))
        (λ u.
          AtMost-with_context runs _ _ _ (counts.open_cursor c) counts.close_cursor
            (run_query-AtMost pool))

  attempt-AtMost :
      (pool : d.Pool) → AtMost runs 1 (attempt fl d self pool query params schema result)
  unfolding attempt
  attempt-AtMost pool =
      AtMost-with_context runs _ _ _ (counts.acquire pool) (counts.release pool)
        (use_connection-AtMost pool)

  module _ (host : Host fl W) (sleep : fl.F → Exec W (Unit {0}))
      (slept : (x : fl.F) → Quiet runs (sleep x))
      (drawn : (x : fl.F) (w : W) → runs (host.uniform x w).1 ≡ runs w) where
    retried_runs :
        (pool : d.Pool) (w : W)
        → 0 < self.retry_policy.max_attempts
        → runs
            (retried fl d host sleep self (attempt fl d self pool query params schema result) w).1
          ≤ runs w + self.retry_policy.max_attempts
    unfolding retried
    retried_runs pool w some_left =
        retry_async_calls fl host _ self.retry_policy _ runs (λ s. (attempt-AtMost pool).at s.world)
          (λ x s. (slept x).at s.world) drawn (record { breaker = none; world = w }) some_left

-- A query method executes its statement at most `max_attempts` times, however it ends, if that is at
-- least one: each attempt executes it once or not at all. The driver counts as `CountsRuns` says, the
-- statement is no `USE`, and reading the result, sleeping and drawing the jitter count nothing.
pub run_retried_runs :
    (fl : Float) {W : Type 0} (d : Driver W) (query : Text) (runs : W → ℕ)
    (counts : CountsRuns d query runs) (another : (name : Text) → use_text name ≢ query)
    (host : Host fl W) (sleep : fl.F → Exec W (Unit {0}))
    (slept : (x : fl.F) → Quiet runs (sleep x))
    (drawn : (x : fl.F) (w : W) → runs (host.uniform x w).1 ≡ runs w) {A : Type 0}
    (self : DbPool fl d) (result : d.Cursor → Exec W A)
    (reads : (cur : d.Cursor) → Quiet runs (result cur)) (params : Option (List Value))
    (schema : Option Text) (w : W)
    → 0 < self.retry_policy.max_attempts
    → runs (run_retried fl d host sleep result self query params schema w).1
      ≤ runs w + self.retry_policy.max_attempts
unfolding run_retried require_pool
run_retried_runs fl d query runs counts another host sleep slept drawn self result reads params
      schema w some_left =
    elim (Option-cases self.pool) [
      | inl stopped ↦ rw (stopped, run_retried, require_pool) (omega arith)
      | inr (pool, started) ↦
          rw (started, run_retried, require_pool)
            (retried_runs fl d query runs counts self (or_else params []) schema result reads
              another host sleep slept drawn pool w some_left)
    ]
