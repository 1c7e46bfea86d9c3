-- ===== src/Db/Pool/Tests.antt =====
-- The pool over a small driver: a world counts the connections held, the queries sent, and the pings
-- that are still to fail.
use plugshub_common.Common.{
  ℕ, ◌+◌, ◌-◌, ◌≡◌, refl, Bool, true, false, none, some, [], ◌∷◌, arith, ◌==◌, if◌then◌else◌,
}
use plugshub_common.Common.Int.{pos}
use plugshub_common.Text.{codes}
use plugshub_common.Value.{str}
use plugshub_common.Errors.{Exc, other}
use plugshub_common.Exec.{ok, raised, Exec}
use plugshub_common.Float.{whole}
use plugshub_common.Resilience.Retry.{
  Host, RetryPolicy, retry_async, allow_call, note_success, note_failure, pause, compute_backoff,
}
use plugshub_common.Db.Driver.{Driver}
use plugshub_common.Db.Pool.{
  DbPool, make_pool, execute, run_retried, require_pool, retried, attempt, use_connection,
  run_query, with_context, bind_socket_timeout, check_liveness, use_schema, is_instance,
}
use plugshub_common.Db.Pool.Leases.{Counts, run_retried_leases}

record World : Type 0 where
  held : ℕ
  queries : ℕ
  dead : ℕ

abbrev gone : Exc
gone = other 2006

abbrev is_gone : Exc → Bool
is_gone (other n) = n == 2006
is_gone _ = false

abbrev driver : Driver World
driver = record {
  Pool = ℕ;
  Conn = ℕ;
  Cursor = ℕ;
  installed = true;
  create_pool = λ cfg w. (ok 1, w);
  close = λ p w. (ok tt, w);
  wait_closed = λ p w. (ok tt, w);
  acquire = λ p w. (ok 7, record w { held = w.held + 1 });
  release = λ p c w. (ok tt, record w { held = w.held - 1 });
  has_user_timeout = true;
  has_socket = λ c. true;
  setsockopt = λ c n w. (ok tt, w);
  has_ping = λ c. true;
  ping = λ c w. (if w.dead == 0 then ok tt else raised gone, record w { dead = w.dead - 1 });
  open_cursor = λ c w. (ok 1, w);
  close_cursor = λ c w. (ok tt, w);
  cursor_execute = λ c q ps w. (ok tt, record w { queries = w.queries + 1 });
  rowcount = λ c w. (ok (pos 1), w);
  fetchall = λ c w. (ok ((str (codes "tenantacme") ∷ []) ∷ []), w);
  fetchone = λ c w. (ok none, w);
  is_os_error = λ e. false;
  is_operational_error = is_gone;
  is_interface_error = λ e. false;
}

abbrev host : Host whole World
host = record { clock = λ w. w.queries; uniform = λ x w. (x, w) }

abbrev sleep : ℕ → Exec World (Unit {0})
sleep x w = (ok tt, w)

abbrev policy : RetryPolicy whole
policy = record {
  max_attempts = 3;
  base_delay = 1;
  max_delay = 5;
  multiplier = 2;
  jitter = true;
  retry_on = λ e. true;
}

abbrev pool : DbPool whole driver
pool = record {
  config = none;
  pool = some 1;
  ping_before_use = true;
  tcp_user_timeout = pos 30;
  transient_errors = (λ e. false) ∷ is_gone ∷ (λ e. false) ∷ [];
  retry_policy = record policy {
    retry_on = is_instance ((λ e. false) ∷ is_gone ∷ (λ e. false) ∷ []);
  };
}

pool_lem : make_pool whole driver none (some 1) (some policy) none ≡ pool
unfolding make_pool
pool_lem = refl

abbrev calm : World
calm = record { held = 0; queries = 0; dead = 0 }

abbrev failing : World
failing = record { held = 0; queries = 0; dead = 2 }

-- Two dead connections are dropped, the third serves the query, and all are handed back.
failover :
    execute whole driver host sleep pool (codes "UPDATE t") none (some (codes "tenantacme")) failing
    ≡ (ok (pos 1), record calm { queries = 2 })
unfolding execute run_retried require_pool retried attempt use_connection run_query with_context
    bind_socket_timeout check_liveness use_schema retry_async allow_call note_success note_failure
    pause compute_backoff
failover = refl

counts : Counts driver (λ w. w.held)
counts = record {
  acquired = λ p w c e. refl;
  not_acquired = λ p w e h. cc;
  released = λ p c w h. omega arith;
  setsockopt = λ c n. record { at = λ w. refl };
  ping = λ c. record { at = λ w. refl };
  open_cursor = λ c. record { at = λ w. refl };
  close_cursor = λ c. record { at = λ w. refl };
  cursor_execute = λ c q ps. record { at = λ w. refl };
}

run_retried_leases_example :
    (run_retried whole driver host sleep driver.rowcount pool
      (codes "UPDATE t")
      none
      none
      failing).1.held
    ≡ 0
run_retried_leases_example =
    run_retried_leases whole driver (λ w. w.held) counts host sleep (λ x. record { at = λ w. refl })
      (λ x w. refl) pool driver.rowcount (λ c. record { at = λ w. refl }) (codes "UPDATE t") none
      none failing
