-- ===== src/Db/Driver.antt =====
-- The driver, `aiomysql`, and its exceptions, which are not part of the repository: the calls that
-- the pool makes of them, over a world `W` of connections and time.
use plugshub_common.Common.{ℕ, Bool, Option, List}
use plugshub_common.Common.Int.{ℤ}
use plugshub_common.Text.{Text}
use plugshub_common.Value.{Value}
use plugshub_common.Errors.{Exc}
use plugshub_common.Exec.{Exec}

-- A row, as the tuple of its columns.
abbrev pub Row : Type 0
Row = List Value

-- Connection settings, `DbConfig`.
pub record DbConfig : Type 0 where
  pub host : Text
  pub port : ℤ
  pub user : Text
  pub password : Text
  pub db : Option Text
  pub minsize : ℤ
  pub maxsize : ℤ
  pub autocommit : Bool
  pub pool_recycle : ℤ
  pub ping_before_use : Bool
  pub charset : Text
  pub use_unicode : Bool
  pub tcp_user_timeout : ℤ

pub record Driver (W : Type 0) : Type 1 where
  pub Pool : Type 0
  pub Conn : Type 0
  pub Cursor : Type 0
  -- `import aiomysql` succeeds.
  pub installed : Bool
  pub create_pool : DbConfig → Exec W Pool
  pub close : Pool → Exec W (Unit {0})
  pub wait_closed : Pool → Exec W (Unit {0})
  -- Entering and leaving `async with pool.acquire()`; leaving hands the connection back.
  pub acquire : Pool → Exec W Conn
  pub release : Pool → Conn → Exec W (Unit {0})
  -- `socket.TCP_USER_TIMEOUT` exists; the connection has a socket; `sock.setsockopt`, in milliseconds.
  pub has_user_timeout : Bool
  pub has_socket : Conn → Bool
  pub setsockopt : Conn → ℕ → Exec W (Unit {0})
  -- The connection has a callable `ping`; `ping(reconnect=True)`.
  pub has_ping : Conn → Bool
  pub ping : Conn → Exec W (Unit {0})
  -- Entering and leaving `async with conn.cursor()`.
  pub open_cursor : Conn → Exec W Cursor
  pub close_cursor : Cursor → Exec W (Unit {0})
  pub cursor_execute : Cursor → Text → List Value → Exec W (Unit {0})
  pub rowcount : Cursor → Exec W ℤ
  pub fetchall : Cursor → Exec W (List Row)
  pub fetchone : Cursor → Exec W (Option Row)
  -- `isinstance` of an exception and `OSError`, `aiomysql.OperationalError`, `InterfaceError`.
  pub is_os_error : Exc → Bool
  pub is_operational_error : Exc → Bool
  pub is_interface_error : Exc → Bool
