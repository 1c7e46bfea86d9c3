-- ===== src/Db.antt =====
-- plugshub_common/db.py: the connection pool and the tenant resolver.
pub mod Driver
pub mod Pool
pub mod Resolver
pub mod Isolation
mod Tests
