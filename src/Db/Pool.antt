-- ===== src/Db/Pool.antt =====
-- `DbPool`, `BoundPool` and `bind_socket_timeout` of plugshub_common/db.py.
pub mod Attempts
pub mod Leases
pub mod Scoped
pub mod Bounds
pub mod Lifecycle
mod Tests
use plugshub_common.Common.{
  ℕ, zero, suc, ◌+◌, ◌-◌, ◌*◌, ◌^◌, ◌≤◌, ◌<◌, String, ◌≡◌, refl, sym, ap, ◌∙◌, subst, ◌≢◌, ◌↔◌, ◌⊎◌,
  inl, inr, Bool, true, false, not, ◌&&◌, ◌||◌, Option, none, some, List, [], ◌∷◌, ◌++◌, map,
  append_assoc, append-nil, arith, ltb, leb, ◌==◌, if◌then◌else◌, ==_iff, Bool-cases, Option-cases,
  is_some, or_else, length, replicate, take, drop, all, any, length-append, length-take_le,
  take_all, All, All-append,
}
use plugshub_common.Common.Int.{ℤ, pos, negsuc, pos_part, leb_ℤ}
use plugshub_common.Text.{Text, codes, is_empty}
use plugshub_common.Value.{Value, str}
use plugshub_common.Errors.{
  Exc, plugs_hub_error, make_error, dependency_unavailable, value_error, runtime_error,
}
use plugshub_common.Exec.{Result, ok, raised, Exec, pure, raise, ◌>>=◌, ◌>>◌}
use plugshub_common.Float.{Float}
use plugshub_common.Resilience.Retry.{Sys, Host, RetryPolicy, retry_async}
use plugshub_common.Db.Driver.{Row, DbConfig, Driver}

-- `isinstance(exc, types)`, for a tuple of types
abbrev pub is_instance : List (Exc → Bool) → Exc → Bool
is_instance types e = any (λ t. t e) types

-- `types or default`
abbrev pub types_or : Option (List (Exc → Bool)) → List (Exc → Bool) → List (Exc → Bool)
types_or none d = d
types_or (some []) d = d
types_or (some (t ∷ ts)) d = t ∷ ts

-- How the exit of a context changes the result of its body.
abbrev pub after_exit : {A : Type 0} → Result A → Result (Unit {0}) → Result A
after_exit r (ok u) = r
after_exit r (raised e) = raised e

module _ {W : Type 0} where
  -- `async with enter as x: body`: the exit runs however the body ends, and an exception of the exit
  -- takes the place of the body's result.
  unfoldable pub with_context :
      {X A : Type 0} → Exec W X → (X → Exec W (Unit {0})) → (X → Exec W A) → Exec W A
  with_context enter leave body = do
    x ← enter
    λ w. let (r, w1) = body x w in let (u, w2) = leave x w1 in (after_exit r u, w2)

  -- `try: m` with `except` for the caught exceptions and `pass`
  unfoldable pub ignoring : (Exc → Bool) → Exec W (Unit {0}) → Exec W (Unit {0})
  ignoring caught m w =
      let (r, w') = m w in
      (elim r [ ok u ↦ ok u | raised e ↦ if caught e then ok tt else raised e ], w')

module _ {W : Type 0} (d : Driver W) where
  open d use {Pool, Conn, Cursor}

  -- `bind_socket_timeout`; the timeout is positive where it is scaled to milliseconds.
  unfoldable pub bind_socket_timeout : Conn → ℤ → Exec W (Unit {0})
  unfolding ignoring
  bind_socket_timeout conn timeout_seconds =
      if not d.has_user_timeout || leb_ℤ timeout_seconds (pos 0)
      then pure tt
      else if not (d.has_socket conn)
      then pure tt
      else ignoring d.is_os_error (d.setsockopt conn (pos_part timeout_seconds * 1000))

  -- `BoundPool`, and entering the context that its `acquire` gives (`_BoundAcquire.__aenter__`, and
  -- in the same way `__await__`).
  pub record BoundPool : Type 0 where
    pub pool : Pool
    pub timeout : ℤ

  unfoldable pub bound_acquire : BoundPool → Exec W Conn
  unfolding bind_socket_timeout
  bound_acquire b = do conn ← d.acquire b.pool; bind_socket_timeout conn b.timeout; pure conn

  -- `_default_transient_errors`
  unfoldable pub default_transient_errors : List (Exc → Bool)
  default_transient_errors =
      if d.installed
      then d.is_os_error ∷ d.is_operational_error ∷ d.is_interface_error ∷ []
      else d.is_os_error ∷ []

module _ (fl : Float) {W : Type 0} (d : Driver W) where
  open d use {Pool, Conn, Cursor}

  pub record DbPool : Type 0 where
    pub config : Option DbConfig
    pub pool : Option Pool
    pub ping_before_use : Bool
    pub tcp_user_timeout : ℤ
    pub transient_errors : List (Exc → Bool)
    pub retry_policy : RetryPolicy fl

  -- The default of `retry_policy`.
  unfoldable pub pool_policy : RetryPolicy fl
  pool_policy = record {
    max_attempts = 3;
    base_delay = fl.decimal 2 2;
    max_delay = fl.decimal 2 1;
    multiplier = fl.decimal 20 1;
    jitter = true;
    retry_on = λ e. true;
  }

  -- `DbPool.__init__`
  unfoldable pub make_pool :
      Option DbConfig → Option Pool → Option (RetryPolicy fl) → Option (List (Exc → Bool)) → DbPool
  unfolding default_transient_errors pool_policy
  make_pool config pool retry_policy transient_errors =
      let transient = types_or transient_errors (default_transient_errors d) in
      let base_policy = or_else retry_policy pool_policy in
      record {
        config = config;
        pool = pool;
        ping_before_use = elim config [ none ↦ true | some c ↦ c.ping_before_use ];
        tcp_user_timeout = elim config [ none ↦ pos 30 | some c ↦ c.tcp_user_timeout ];
        transient_errors = transient;
        retry_policy = record base_policy { retry_on = is_instance transient };
      }

  -- The object and the world, for the methods that write a field.
  pub record Owned : Type 0 where
    pub db : DbPool
    pub world : W

  abbrev pub on_world : {A : Type 0} → Exec W A → Exec Owned A
  on_world m s = let (r, w) = m s.world in (r, record s { world = w })

  abbrev pub set_pool : Option Pool → Exec Owned (Unit {0})
  set_pool p s = (ok tt, record s { db = record s.db { pool = p } })

  unfoldable pub start : Exec Owned (Unit {0})
  start s = elim s.db.pool [
    | some p ↦ (ok tt, s)
    | none ↦ elim s.db.config [
      | none ↦ (raised (value_error (codes "DBPool requires a DBConfig to start")), s)
      | some cfg ↦
          if d.installed then (do p ← on_world (d.create_pool cfg); set_pool (some p)) s else (
            raised (
                runtime_error (
                  codes
                    "aiomysql is required for plugshub_common.db; install plugshub-common[db]")),
            s,
          )
    ]
  ]

  unfoldable pub stop : Exec Owned (Unit {0})
  stop s = elim s.db.pool [
    | none ↦ (ok tt, s)
    | some p ↦ (on_world (d.close p) >> on_world (d.wait_closed p) >> set_pool none) s
  ]

  -- `_require_pool`
  unfoldable pub require_pool : DbPool → Result Pool
  unfolding make_error
  require_pool self = elim self.pool [
    | none ↦ raised (
        plugs_hub_error (
          make_error dependency_unavailable (some (codes "database pool is not started")) none none
            none))
    | some p ↦ ok p
  ]

  -- `_check_liveness`
  unfoldable pub check_liveness : DbPool → Conn → Exec W (Unit {0})
  check_liveness self conn =
      if not self.ping_before_use then pure tt else if d.has_ping conn then d.ping conn else pure tt

  -- `if schema: await cur.execute("USE `{}`".format(schema))`
  unfoldable pub use_schema : Cursor → Option Text → Exec W (Unit {0})
  use_schema cur none = pure tt
  use_schema cur (some []) = pure tt
  use_schema cur (some (c ∷ name)) =
      d.cursor_execute cur (codes "USE `" ++ (c ∷ name) ++ codes "`") []

  -- `_attempt` of `execute`, `fetch_all` and `fetch_one`, which differ in what they read at the end.
  module _ {A : Type 0} (self : DbPool) (pool : Pool) (query : Text) (params : List Value)
      (schema : Option Text) (result : Cursor → Exec W A) where
    unfoldable pub run_query : Cursor → Exec W A
    run_query cur = use_schema cur schema >> d.cursor_execute cur query params >> result cur

    unfoldable pub use_connection : Conn → Exec W A
    use_connection conn =
        bind_socket_timeout d conn self.tcp_user_timeout
        >> check_liveness self conn
        >> with_context (d.open_cursor conn) d.close_cursor run_query

    unfoldable pub attempt : Exec W A
    attempt = with_context (d.acquire pool) (d.release pool) use_connection

  module _ (host : Host fl W) (sleep : fl.F → Exec W (Unit {0})) where
    -- Runs code that knows no breaker in the retry loop's state.
    abbrev pub lift : {A : Type 0} → Exec W A → Exec (Sys fl W) A
    lift m s = let (r, w) = m s.world in (r, record s { world = w })

    -- `retry_async(_attempt, self._retry_policy, sleep=self._sleep)`
    unfoldable pub retried : {A : Type 0} → DbPool → Exec W A → Exec W A
    retried self m w =
        let (r, s) =
          retry_async fl host (lift m) self.retry_policy (λ delay. lift (sleep delay))
            (record { breaker = none; world = w }) in
        (r, s.world)

    -- The three query methods.
    unfoldable pub run_retried :
        {A : Type 0}
        → (Cursor → Exec W A)
        → DbPool
        → Text
        → Option (List Value)
        → Option Text
        → Exec W A
    run_retried result self query params schema w = elim (require_pool self) [
      | raised e ↦ (raised e, w)
      | ok pool ↦ retried self (attempt self pool query (or_else params []) schema result) w
    ]

    unfoldable pub execute : DbPool → Text → Option (List Value) → Option Text → Exec W ℤ
    unfolding run_retried
    execute = run_retried d.rowcount

    unfoldable pub fetch_all : DbPool → Text → Option (List Value) → Option Text → Exec W (List Row)
    unfolding run_retried
    fetch_all = run_retried d.fetchall

    unfoldable pub fetch_one :
        DbPool → Text → Option (List Value) → Option Text → Exec W (Option Row)
    unfolding run_retried
    fetch_one = run_retried d.fetchone
