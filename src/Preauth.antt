-- ===== src/Preauth.antt =====
-- plugshub_common/preauth.py: the key of a parked pre-auth. `to_text` is what `str.format` makes of
-- the connector id, an `int` or a `str`.
mod Tests
use plugshub_common.Common.{
  ℕ, zero, suc, ◌+◌, ◌-◌, ◌*◌, ◌^◌, ◌≤◌, ◌<◌, String, ◌≡◌, refl, sym, ap, ◌∙◌, subst, ◌≢◌, ◌↔◌, ◌⊎◌,
  inl, inr, Bool, true, false, not, ◌&&◌, ◌||◌, Option, none, some, List, [], ◌∷◌, ◌++◌, map,
  append_assoc, append-nil, arith, ltb, leb, ◌==◌, if◌then◌else◌, ==_iff, Bool-cases, Option-cases,
  is_some, or_else, length, replicate, take, drop, all, any, length-append, length-take_le,
  take_all, All, All-append,
}
use plugshub_common.Exec.{ok}
use plugshub_common.Tenant.{validate_tenant}
use plugshub_common.Tenant.Layers.{validate_tenant-IsFree}
use plugshub_common.Text.{Unicode, Text, codes, has_infix, mem}
use plugshub_common.Text.Laws.{IsFree, separated, separated_last, drop_prefix}
use plugshub_common.Value.{Value}

-- `PREAUTH_KEY_TEMPLATE`, up to its first field
abbrev pub key_start : Text
key_start = codes "terminal:preauth:"

-- `PREAUTH_KEY_TEMPLATE.format(...)`
unfoldable pub key_of : Text → Text → Text → Text
key_of tenant charger connector = key_start ++ (tenant ++ b':' ∷ (charger ++ b':' ∷ connector))

unfoldable pub preauth_key : (Value → Text) → Text → Text → Value → Text
unfolding key_of
preauth_key to_text tenant_id charger_id connector_id =
    key_of tenant_id charger_id (to_text connector_id)

-- Two keys are the same only for the same tenant, the same charger and
-- connector ids that are written the same way, if neither the tenant ids nor the connectors have a
-- colon. The charger ids may have one.
preauth_key_one_place :
    (to_text : Value → Text) (t1 t2 g1 g2 : Text) (c1 c2 : Value)
    → IsFree b':' t1
    → IsFree b':' t2
    → IsFree b':' (to_text c1)
    → IsFree b':' (to_text c2)
    → preauth_key to_text t1 g1 c1 ≡ preauth_key to_text t2 g2 c2
    → (t1 ≡ t2) × (g1 ≡ g2) × (to_text c1 ≡ to_text c2)
unfolding preauth_key
preauth_key_one_place to_text t1 t2 g1 g2 c1 c2 ht1 ht2 hc1 hc2 e =
    let k1 = to_text c1 in
    let k2 = to_text c2 in
    let (tenant, rest) =
      separated b':' t1 t2 (g1 ++ b':' ∷ k1) (g2 ++ b':' ∷ k2) ht1 ht2 (
        drop_prefix key_start (t1 ++ b':' ∷ (g1 ++ b':' ∷ k1)) (t2 ++ b':' ∷ (g2 ++ b':' ∷ k2))
          e) in
    let (charger, connector) = separated_last b':' g1 g2 k1 k2 hc1 hc2 rest in
    (tenant, charger, connector)

-- A key names one place: for tenant ids that the validator accepts, whatever it knows of the tenants
-- and however it reports, and connector ids that are written without a colon, two keys are the same
-- only for the same tenant, the same charger and connectors that are written the same way. The
-- charger ids are any texts.
pub preauth_key_validated :
    (u : Unicode) (to_text : Value → Text) (t1 t2 g1 g2 : Text) (c1 c2 : Value)
    (known1 known2 : Option (List Text)) (r1 r2 : Bool)
    → validate_tenant u t1 known1 r1 ≡ ok true
    → validate_tenant u t2 known2 r2 ≡ ok true
    → IsFree b':' (to_text c1)
    → IsFree b':' (to_text c2)
    → preauth_key to_text t1 g1 c1 ≡ preauth_key to_text t2 g2 c2
    → (t1 ≡ t2) × (g1 ≡ g2) × (to_text c1 ≡ to_text c2)
preauth_key_validated u to_text t1 t2 g1 g2 c1 c2 known1 known2 r1 r2 h1 h2 =
    preauth_key_one_place to_text t1 t2 g1 g2 c1 c2 (validate_tenant-IsFree u t1 known1 r1 h1)
      (validate_tenant-IsFree u t2 known2 r2 h2)
