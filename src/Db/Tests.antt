-- ===== src/Db/Tests.antt =====
-- A query for a tenant over a server that logs what it executes, on a connection whose first use
-- fails.
use plugshub_common.Common.{
  ℕ, ◌-◌, ◌≡◌, refl, inl, Bool, true, false, Option, none, some, List, [], ◌∷◌, ◌++◌, ◌==◌,
  if◌then◌else◌, length, take, drop,
}
use plugshub_common.Text.{Text, codes, mem}
use plugshub_common.Errors.{Exc, other}
use plugshub_common.Exec.{ok, raised, Exec}
use plugshub_common.Common.Int.{pos}
use plugshub_common.Text.{starts_with, Unicode, upper, without_prefix}
use plugshub_common.Text.Laws.{starts_with-append, drop-append, take-append, length-append_sub}
use plugshub_common.Float.{whole}
use plugshub_common.Tenant.{prefix, validate_tenant, whitelisted, well_formed, is_dangerous}
use plugshub_common.Resilience.Retry.{
  Host, retry_async, allow_call, note_success, note_failure, pause, compute_backoff,
}
use plugshub_common.Db.Driver.{Driver}
use plugshub_common.Db.Pool.{
  DbPool, run_retried, is_instance, require_pool, retried, attempt, use_connection, run_query,
  with_context, bind_socket_timeout, check_liveness, use_schema,
}
use plugshub_common.Db.Pool.Scoped.{Statement, use_text, Logs, OnlyScoped}
use plugshub_common.Db.Resolver.{Resolving, resolve, get_tenants, schema_of}
use plugshub_common.Common.{◌≤◌, ◌≢◌, ◌+◌, arith, ap}
use plugshub_common.Text.{text_eq}
use plugshub_common.Text.Laws.{text_eq_iff}
use plugshub_common.Db.Pool.Bounds.{CountsRuns, run_retried_runs}
use plugshub_common.Db.Isolation.{tenant_query_isolated}

-- The connection keeps the schema that its last user left; `dead` pings are still to fail.
record Server : Type 0 where
  schema : Option Text
  log : List Statement
  dead : ℕ

abbrev start_of_use : Text
start_of_use = codes "USE `"

abbrev schema_after : Text → Option Text → Option Text
schema_after q old =
    if starts_with q start_of_use then some (take (length (drop 5 q) - 1) (drop 5 q)) else old

schema_after-use_text :
    (name : Text) (old : Option Text) → schema_after (use_text name) old ≡ some name
schema_after-use_text name old =
    rw
      (
        starts_with-append start_of_use (name ++ codes "`"),
        drop-append start_of_use (name ++ codes "`"),
        length-append_sub name (codes "`"),
        take-append name (codes "`"),
      )
      refl

abbrev gone : Exc
gone = other 2006

abbrev is_gone : Exc → Bool
is_gone (other n) = n == 2006
is_gone _ = false

abbrev driver : Driver Server
driver = record {
  Pool = ℕ;
  Conn = ℕ;
  Cursor = ℕ;
  installed = true;
  create_pool = λ cfg w. (ok 1, w);
  close = λ p w. (ok tt, w);
  wait_closed = λ p w. (ok tt, w);
  acquire = λ p w. (ok 7, w);
  release = λ p c w. (ok tt, w);
  has_user_timeout = true;
  has_socket = λ c. true;
  setsockopt = λ c n w. (ok tt, w);
  has_ping = λ c. true;
  ping = λ c w. (if w.dead == 0 then ok tt else raised gone, record w { dead = w.dead - 1 });
  open_cursor = λ c w. (ok 1, w);
  close_cursor = λ c w. (ok tt, w);
  cursor_execute = λ c q ps w.
      (ok tt, record w { schema = schema_after q w.schema; log = (w.schema, q) ∷ w.log });
  rowcount = λ c w. (ok (pos 1), w);
  fetchall = λ c w. (ok [], w);
  fetchone = λ c w. (ok none, w);
  is_os_error = λ e. false;
  is_operational_error = is_gone;
  is_interface_error = λ e. false;
}

driver-Logs : Logs driver (λ w. w.log)
driver-Logs = record {
  in_force = λ cur w. w.schema;
  executed = λ cur q ps w. inl refl;
  used = λ cur name w x h. schema_after-use_text name w.schema;
  acquire = λ p. record { at = λ w. refl };
  release = λ p c. record { at = λ w. refl };
  setsockopt = λ c n. record { at = λ w. refl };
  ping = λ c. record { at = λ w. refl };
  open_cursor = λ c. record { at = λ w. refl };
  close_cursor = λ c. record { at = λ w. refl };
}

abbrev host : Host whole Server
host = record { clock = λ w. 6; uniform = λ x w. (x, w) }

abbrev sleep : ℕ → Exec Server (Unit {0})
sleep x w = (ok tt, w)

abbrev pool : DbPool whole driver
pool = record {
  config = none;
  pool = some 1;
  ping_before_use = true;
  tcp_user_timeout = pos 30;
  transient_errors = is_gone ∷ [];
  retry_policy = record {
    max_attempts = 3;
    base_delay = 1;
    max_delay = 5;
    multiplier = 2;
    jitter = true;
    retry_on = is_instance (is_gone ∷ []);
  };
}

-- The connection was last used for another tenant.
abbrev left_over : Server
left_over = record { schema = some (codes "tenantother"); log = []; dead = 1 }

abbrev plain : Unicode
plain = record { upper_other = λ c. c ∷ []; lower_other = λ c. c ∷ []; is_alpha_other = λ c. false }

abbrev loaded : Resolving whole Server
loaded = record {
  resolver = record {
    refresh_interval = 300;
    cache = codes "acme-1" ∷ [];
    loaded_at = 5;
    loaded = true;
  };
  world = left_over;
}

abbrev discover : Exec (Resolving whole Server) (List Text)
discover s = (ok (codes "acme-1" ∷ []), s)

tenant_query_isolated_example :
    (mem (without_prefix prefix (codes "tenantacme-1")) (codes "acme-1" ∷ []) ≡ true)
    × OnlyScoped
        (prefix ++ without_prefix prefix (codes "tenantacme-1"))
        (codes "UPDATE t")
        []
        (run_retried whole driver host sleep driver.rowcount pool
          (codes "UPDATE t")
          none
          (some (codes "tenantacme-1"))
          left_over).1.log
unfolding resolve get_tenants schema_of validate_tenant whitelisted well_formed is_dangerous upper
    without_prefix
tenant_query_isolated_example =
    tenant_query_isolated whole driver (λ w. w.log) driver-Logs host sleep
      (λ x. record { at = λ w. refl }) (λ x w. refl) pool driver.rowcount
      (λ c. record { at = λ w. refl }) (codes "UPDATE t") none left_over plain (λ w. 6) discover
      (codes "tenantacme-1") (codes "tenantacme-1") loaded (refl, tt) refl

-- After a dead connection, the `USE` and the query.
logged :
    (run_retried whole driver host sleep driver.rowcount pool
      (codes "UPDATE t")
      none
      (some (codes "tenantacme-1"))
      left_over).1.log
    ≡ (some (codes "tenantacme-1"), codes "UPDATE t")
      ∷ (some (codes "tenantother"), use_text (codes "tenantacme-1"))
      ∷ []
unfolding run_retried require_pool retried attempt use_connection run_query with_context
    bind_socket_timeout check_liveness use_schema retry_async allow_call note_success note_failure
    pause compute_backoff starts_with
logged = refl

abbrev update : Text
update = codes "UPDATE t"

abbrev runs_in : List Statement → ℕ
runs_in [] = 0
runs_in ((s, q) ∷ log) = if text_eq q update then runs_in log + 1 else runs_in log

runs_in-other :
    (s : Option Text) (q : Text) (log : List Statement)
    → q ≢ update
    → runs_in ((s, q) ∷ log) ≡ runs_in log
runs_in-other s q log differs = ground (arith, text_eq_iff q update)

runs_in-one :
    (s : Option Text) (q : Text) (log : List Statement) → runs_in ((s, q) ∷ log) ≤ runs_in log + 1
runs_in-one s q log = ground arith

driver-CountsRuns : CountsRuns driver update (λ w. runs_in w.log)
driver-CountsRuns = record {
  executed = λ cur ps w. runs_in-one w.schema update w.log;
  others = λ cur q ps differs. record { at = λ w. runs_in-other w.schema q w.log differs };
  acquire = λ p. record { at = λ w. refl };
  release = λ p c. record { at = λ w. refl };
  setsockopt = λ c n. record { at = λ w. refl };
  ping = λ c. record { at = λ w. refl };
  open_cursor = λ c. record { at = λ w. refl };
  close_cursor = λ c. record { at = λ w. refl };
}

abbrev second : Text → ℕ
second [] = 0
second (c ∷ []) = 0
second (c ∷ d ∷ t) = d

use_text-other : (name : Text) → use_text name ≢ update
use_text-other name e = omega (arith, ap second e)

run_retried_runs_example :
    runs_in
      (run_retried whole driver host sleep driver.rowcount pool update none
        (some (codes "tenantacme-1"))
        left_over).1.log
    ≤ 0 + 3
run_retried_runs_example =
    run_retried_runs whole driver update (λ w. runs_in w.log) driver-CountsRuns use_text-other host
      sleep (λ x. record { at = λ w. refl }) (λ x w. refl) pool driver.rowcount
      (λ c. record { at = λ w. refl }) none (some (codes "tenantacme-1")) left_over (omega arith)
