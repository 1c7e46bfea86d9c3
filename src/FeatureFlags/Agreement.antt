-- ===== src/FeatureFlags/Agreement.antt =====
-- plugshub_common/featureflags.py: `RedisFeatureFlags` against `InMemoryFeatureFlags`, and the keys
-- that keep the flags of tenants apart.
use plugshub_common.Common.{ℕ, ◌≡◌, sym, subst, ◌≢◌, some, List, ◌∷◌, ◌++◌}
use plugshub_common.Text.{Text, Unicode}
use plugshub_common.Text.Laws.{IsFree, separated, drop_prefix, not_free}
use plugshub_common.Value.{Value}
use plugshub_common.Dict.{get}
use plugshub_common.Exec.{Result, ok, Exec}
use plugshub_common.FeatureFlags.Memory
use plugshub_common.FeatureFlags.Memory.{InMemoryFeatureFlags, scoped}
use plugshub_common.FeatureFlags.Redis
use plugshub_common.FeatureFlags.Redis.{Raw, absent, bytes, value, global_key, scoped_key, coerce}

-- What the keys say of each flag is what the in-memory provider holds of it.
pub record Mirrors (u : Unicode) (decode : List ℕ → Text) (to_text : Value → Result Text)
    (store : Text → Raw) (prefix : Text) (s : InMemoryFeatureFlags) : Type 0 where
  pub for_all :
      (flag : Text)
      → coerce u decode to_text (store (global_key prefix flag)) ≡ ok (get flag s.global)
  pub for_one :
      (tenant_id flag : Text)
      → coerce u decode to_text (store (scoped_key prefix tenant_id flag))
        ≡ ok (scoped flag (some tenant_id) s.per_tenant)

-- A client that answers from one store and changes nothing.
abbrev pub reading : (Text → Raw) → Text → Exec (Unit {0}) Raw
reading store key w = (ok (store key), w)

-- The key of a tenant's flag tells the tenant and the flag, for tenant ids without a colon; and it
-- is never the key of a flag for all whose name has no colon.
pub scoped_key_apart :
    (prefix t flag : Text)
    → IsFree b':' t
    → ((v other : Text)
        → IsFree b':' v
        → scoped_key prefix t flag ≡ scoped_key prefix v other
        → (t ≡ v) × (flag ≡ other))
      × ((other : Text) → IsFree b':' other → scoped_key prefix t flag ≢ global_key prefix other)
scoped_key_apart prefix t flag h = (
  λ v other k e.
      separated b':' t v flag other h k
        (drop_prefix prefix (t ++ b':' ∷ flag) (v ++ b':' ∷ other) e),
  λ other k e.
      not_free b':' t flag
        (subst (IsFree b':') (sym (drop_prefix prefix (t ++ b':' ∷ flag) other e)) k),
)
