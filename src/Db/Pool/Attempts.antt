-- ===== src/Db/Pool/Attempts.antt =====
-- One attempt at a query, and when the retry loop makes only one.
use plugshub_common.Common.{
  ◌<◌, ◌≡◌, refl, ap, ◌∙◌, Bool, false, Option, none, some, List, [], or_else,
}
use plugshub_common.Text.{Text}
use plugshub_common.Value.{Value}
use plugshub_common.Errors.{Exc}
use plugshub_common.Exec.{Result, ok, raised, Exec, continue}
use plugshub_common.Float.{Float}
use plugshub_common.Resilience.Retry.{Host, RetryPolicy, allow_call}
use plugshub_common.Resilience.Retry.Keeps.{retry_async_once}
use plugshub_common.Db.Driver.{Driver, DbConfig}
use plugshub_common.Db.Pool.{
  with_context, after_exit, bind_socket_timeout, DbPool, check_liveness, use_connection, attempt,
  retried, run_retried, require_pool, is_instance, types_or, default_transient_errors, make_pool,
}

module _ {W X A : Type 0} (enter : Exec W X) (leave : X → Exec W (Unit {0})) (body : X → Exec W A)
    (w : W) where
  pub with_context_raised :
      (e : Exc) → (enter w).0 ≡ raised e → with_context enter leave body w ≡ (raised e, (enter w).1)
  unfolding with_context
  with_context_raised e h = rw (h, continue)

  pub with_context_ok :
      (x : X)
      → (enter w).0 ≡ ok x
      → let (r, w1) = body x (enter w).1 in
        let (u, w2) = leave x w1 in with_context enter leave body w ≡ (after_exit r u, w2)
  unfolding with_context
  with_context_ok x h = rw (h, continue)

module _ (fl : Float) {W : Type 0} (d : Driver W) where
  module _ {A : Type 0} (self : DbPool fl d) (pool : d.Pool) (query : Text) (params : List Value)
      (schema : Option Text) (result : d.Cursor → Exec W A) where
    use_connection_dead :
        (c : d.Conn) (e : Exc) (w1 w2 w3 : W)
        → bind_socket_timeout d c self.tcp_user_timeout w1 ≡ (ok tt, w2)
        → check_liveness fl d self c w2 ≡ (raised e, w3)
        → use_connection fl d self pool query params schema result c w1 ≡ (raised e, w3)
    unfolding use_connection
    use_connection_dead c e w1 w2 w3 bound dead = rw (bound, dead)

    -- If the ping of a fresh connection fails, the query is never sent: the connection goes back to
    -- the pool in the state that the ping left, and the attempt raises the exception of the ping,
    -- unless handing the connection back raises one itself.
    pub attempt_dead :
        (c : d.Conn) (e : Exc) (w w1 w2 w3 : W)
        → d.acquire pool w ≡ (ok c, w1)
        → bind_socket_timeout d c self.tcp_user_timeout w1 ≡ (ok tt, w2)
        → check_liveness fl d self c w2 ≡ (raised e, w3)
        → attempt fl d self pool query params schema result w
          ≡ (after_exit (raised e) (d.release pool c w3).0, (d.release pool c w3).1)
    unfolding attempt
    attempt_dead c e w w1 w2 w3 got bound dead =
        with_context_ok _ _ _ w c (ap (λ p. p.0) got)
        ∙ ap {B = Result A × W}
            (λ p. (after_exit p.0 (d.release pool c p.1).0, (d.release pool c p.1).1))
            (ap (λ p. use_connection fl d self pool query params schema result c p.1) got
              ∙ use_connection_dead c e w1 w2 w3 bound dead)

  -- A pool made with any policy and any transient errors makes exactly one attempt when the first
  -- one returns, or raises an exception that is not transient: the methods give just what it gives.
  pub run_retried_once :
      {A : Type 0} (host : Host fl W) (sleep : fl.F → Exec W (Unit {0})) (config : Option DbConfig)
      (pool : d.Pool) (policy : RetryPolicy fl) (transient : Option (List (Exc → Bool)))
      (result : d.Cursor → Exec W A) (query : Text) (params : Option (List Value))
      (schema : Option Text) (w : W)
      → let self = make_pool fl d config (some pool) (some policy) transient in
        let one = attempt fl d self pool query (or_else params []) schema result in
        0 < policy.max_attempts
        → ((e : Exc)
            → (one w).0 ≡ raised e
            → is_instance (types_or transient (default_transient_errors d)) e ≡ false)
        → run_retried fl d host sleep result self query params schema w ≡ one w
  unfolding run_retried require_pool make_pool retried allow_call
  run_retried_once host sleep config pool policy transient result query params schema w h fatal =
      ap (λ p. (p.0, p.1.world))
        (retry_async_once fl host _ _ _ (record { breaker = none; world = w }) h refl fatal refl)
