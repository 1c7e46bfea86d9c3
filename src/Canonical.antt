-- ===== src/Canonical.antt =====
-- plugshub_common/canonical.py: time and money.
pub mod Calendar
pub mod DateTime
pub mod Iso
pub mod Time
pub mod Money
mod Tests
