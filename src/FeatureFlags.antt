-- ===== src/FeatureFlags.antt =====
-- plugshub_common/featureflags.py: the three providers of feature flags.
pub mod Memory
pub mod Env
pub mod Redis
pub mod Agreement
mod Tests
