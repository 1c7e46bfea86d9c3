-- ===== src/Db/Pool/Scoped.antt =====
-- Which statements reach the database when a query method is given a schema, and in which schema
-- they run.
use plugshub_common.Common.{
  ℕ, ◌≡◌, refl, sym, ap, ◌∙◌, subst, ◌⊎◌, inl, inr, false, Option, none, some, List, [], ◌∷◌, ◌++◌,
  Option-cases, or_else, All,
}
use plugshub_common.Text.{Text, codes, is_empty}
use plugshub_common.Value.{Value}
use plugshub_common.Exec.{Result, ok, raised, Exec, Result-cases}
use plugshub_common.Float.{Float}
use plugshub_common.Resilience.Retry.{Host}
use plugshub_common.Resilience.Retry.Keeps.{retry_async_keeps}
use plugshub_common.Db.Driver.{Driver}
use plugshub_common.Exec.{continue, ◌>>=◌, ◌>>◌}
use plugshub_common.Db.Pool.Leases.{Quiet, bind_socket_timeout-Quiet, check_liveness-Quiet}
use plugshub_common.Db.Pool.{
  with_context, DbPool, use_schema, run_query, use_connection, attempt, retried, run_retried,
  require_pool,
}

-- A statement that the server has executed, with the schema that was in force on its connection.
abbrev pub Statement : Type 0
Statement = Option Text × Text

abbrev pub use_text : Text → Text
use_text name = codes "USE `" ++ name ++ codes "`"

-- The statements that the server has executed, the last first. A cursor's execution adds the
-- statement under the schema in force, or nothing if it did not reach the server; after a `USE` that
-- returned, the schema that it names is in force; and no other call executes a statement.
pub record Logs {W : Type 0} (d : Driver W) (seen : W → List Statement) : Type 0 where
  pub in_force : d.Cursor → W → Option Text
  pub executed :
      (cur : d.Cursor) (q : Text) (ps : List Value) (w : W)
      → (seen (d.cursor_execute cur q ps w).1 ≡ (in_force cur w, q) ∷ seen w)
        ⊎ (seen (d.cursor_execute cur q ps w).1 ≡ seen w)
  pub used :
      (cur : d.Cursor) (name : Text) (w : W) (x : Unit {0})
      → (d.cursor_execute cur (use_text name) [] w).0 ≡ ok x
      → in_force cur (d.cursor_execute cur (use_text name) [] w).1 ≡ some name
  pub acquire : (p : d.Pool) → Quiet seen (d.acquire p)
  pub release : (p : d.Pool) (c : d.Conn) → Quiet seen (d.release p c)
  pub setsockopt : (c : d.Conn) (n : ℕ) → Quiet seen (d.setsockopt c n)
  pub ping : (c : d.Conn) → Quiet seen (d.ping c)
  pub open_cursor : (c : d.Conn) → Quiet seen (d.open_cursor c)
  pub close_cursor : (c : d.Cursor) → Quiet seen (d.close_cursor c)

-- The `USE` itself, or the query in the schema that the caller named.
abbrev pub IsScoped : Text → Text → Statement → Type 0
IsScoped name query (in_force, statement) =
    (statement ≡ use_text name) ⊎ ((in_force ≡ some name) × (statement ≡ query))

-- From `before` on, only such statements were added.
pub record OnlyScoped (name query : Text) (before after : List Statement) : Type 0 where
  pub added : List Statement
  pub all_added : after ≡ added ++ before
  pub scoped : All (IsScoped name query) added

OnlyScoped-one :
    {name query : Text} {before after later : List Statement} (x : Statement)
    → OnlyScoped name query before after
    → IsScoped name query x
    → (later ≡ x ∷ after) ⊎ (later ≡ after)
    → OnlyScoped name query before later
OnlyScoped-one x only new (inl e) = record {
  added = x ∷ only.added;
  all_added = e ∙ ap (λ l. x ∷ l) only.all_added;
  scoped = (new, only.scoped);
}
OnlyScoped-one x only new (inr e) = record {
  added = only.added;
  all_added = e ∙ only.all_added;
  scoped = only.scoped;
}

use_schema_named :
    (fl : Float) {W : Type 0} (d : Driver W) (cur : d.Cursor) (name : Text)
    → is_empty name ≡ false
    → use_schema fl d cur (some name) ≡ d.cursor_execute cur (use_text name) []
unfolding use_schema
use_schema_named fl d cur [] named = cc
use_schema_named fl d cur (c ∷ name) named = refl

module _ (fl : Float) {W : Type 0} (d : Driver W) (seen : W → List Statement) (logs : Logs d seen)
    (name query : Text) (before : List Statement) where
  -- A call that adds only such statements.
  pub record Kept {A : Type 0} (m : Exec W A) : Type 0 where
    pub at :
        (w : W)
        → OnlyScoped name query before (seen w)
        → OnlyScoped name query before (seen (m w).1)

  Kept-Quiet : {A : Type 0} (m : Exec W A) → Quiet seen m → Kept m
  Kept-Quiet m quiet = record {
    at = λ w h. subst (OnlyScoped name query before) (sym (quiet.at w)) h;
  }

  Kept-continue :
      {A B : Type 0} (r : Result A) (f : A → Exec W B)
      → ((a : A) → Kept (f a))
      → Kept (continue r f)
  Kept-continue (ok a) f kf = kf a
  Kept-continue (raised e) f kf = record { at = λ w h. h }

  Kept-bind :
      {A B : Type 0} (m : Exec W A) (f : A → Exec W B)
      → Kept m
      → ((a : A) → Kept (f a))
      → Kept (m >>= f)
  Kept-bind m f km kf = record { at = λ w h. (Kept-continue (m w).0 f kf).at (m w).1 (km.at w h) }

  Kept-with_context :
      {X A : Type 0} (enter : Exec W X) (leave : X → Exec W (Unit {0})) (body : X → Exec W A)
      → Kept enter
      → ((x : X) → Kept (leave x))
      → ((x : X) → Kept (body x))
      → Kept (with_context enter leave body)
  unfolding with_context
  Kept-with_context enter leave body ke kl kb =
      Kept-bind enter _ ke (λ x. record { at = λ w h. (kl x).at (body x w).1 ((kb x).at w h) })

  -- The `USE` and then, if it returned, the query.
  queried-Kept :
      (cur : d.Cursor) (params : List Value)
      → Kept (d.cursor_execute cur (use_text name) [] >> d.cursor_execute cur query params)
  queried-Kept cur params = record {
    at = λ w h.
        let w1 = (d.cursor_execute cur (use_text name) [] w).1 in
        let h1 =
          OnlyScoped-one (logs.in_force cur w, use_text name) h (inl refl)
            (logs.executed cur (use_text name) [] w) in
        elim (Result-cases (d.cursor_execute cur (use_text name) [] w).0) [
          | inr (e, failed) ↦ rw failed h1
          | inl (x, done) ↦ rw done (
              OnlyScoped-one (logs.in_force cur w1, query) h1
                (inr (logs.used cur name w x done, refl)) (logs.executed cur query params w1))
        ];
  }

  module _ {A : Type 0} (self : DbPool fl d) (params : List Value) (result : d.Cursor → Exec W A)
      (reads : (cur : d.Cursor) → Quiet seen (result cur)) (named : is_empty name ≡ false) where
    run_query-Kept :
        (pool : d.Pool) (cur : d.Cursor)
        → Kept (run_query fl d self pool query params (some name) result cur)
    unfolding run_query
    run_query-Kept pool cur =
        Kept-bind _ (λ u. result cur)
          (subst (λ (m : Exec W (Unit {0})). Kept (m >> d.cursor_execute cur query params))
            (sym (use_schema_named fl d cur name named)) (queried-Kept cur params))
          (λ u. Kept-Quiet _ (reads cur))

    use_connection-Kept :
        (pool : d.Pool) (c : d.Conn)
        → Kept (use_connection fl d self pool query params (some name) result c)
    unfolding use_connection
    use_connection-Kept pool c =
        Kept-bind _ _
          (Kept-bind _ _ (Kept-Quiet _ (bind_socket_timeout-Quiet d seen logs.setsockopt c _))
            (λ u. Kept-Quiet _ (check_liveness-Quiet d seen fl logs.ping self c)))
          (λ u.
            Kept-with_context _ _ _ (Kept-Quiet _ (logs.open_cursor c))
              (λ cur. Kept-Quiet _ (logs.close_cursor cur)) (run_query-Kept pool))

    attempt-Kept : (pool : d.Pool) → Kept (attempt fl d self pool query params (some name) result)
    unfolding attempt
    attempt-Kept pool =
        Kept-with_context _ _ _ (Kept-Quiet _ (logs.acquire pool))
          (λ c. Kept-Quiet _ (logs.release pool c)) (use_connection-Kept pool)

-- A query method that is given a schema executes nothing but the `USE` of that schema and its own
-- statement, and its own statement only on a connection on which that schema is in force: in every
-- attempt, however many are made, and however the call ends. The driver logs statements as `Logs`
-- says, and reading the result, sleeping and drawing the jitter execute none.
pub run_retried-OnlyScoped :
    (fl : Float) {W : Type 0} (d : Driver W) (seen : W → List Statement) (logs : Logs d seen)
    (host : Host fl W) (sleep : fl.F → Exec W (Unit {0}))
    (slept : (x : fl.F) → Quiet seen (sleep x))
    (drawn : (x : fl.F) (w : W) → seen (host.uniform x w).1 ≡ seen w) {A : Type 0}
    (self : DbPool fl d) (result : d.Cursor → Exec W A)
    (reads : (cur : d.Cursor) → Quiet seen (result cur)) (name query : Text)
    (params : Option (List Value)) (w : W)
    → is_empty name ≡ false
    → OnlyScoped name query
        (seen w)
        (seen (run_retried fl d host sleep result self query params (some name) w).1)
unfolding run_retried require_pool retried
run_retried-OnlyScoped fl d seen logs host sleep slept drawn self result reads name query params w
      named =
    elim (Option-cases self.pool) [
      | inl stopped ↦ rw (stopped, run_retried, require_pool) none_added
      | inr (pool, started) ↦
          rw (started, run_retried, require_pool)
            (retry_async_keeps fl host _ self.retry_policy _
              (λ w'. OnlyScoped name query (seen w) (seen w'))
              (λ s h.
                (attempt-Kept fl d seen logs name query (seen w) self (or_else params []) result
                    reads named pool).at
                  s.world h)
              (λ x s h. subst (OnlyScoped name query (seen w)) (sym ((slept x).at s.world)) h)
              (λ x w' h. subst (OnlyScoped name query (seen w)) (sym (drawn x w')) h)
              (record { breaker = none; world = w }) none_added)
    ]
  where
    none_added : OnlyScoped name query (seen w) (seen w)
    none_added = record { added = []; all_added = refl; scoped = tt }
