-- ===== src/Tenant/Layers.antt =====
-- What the layers of the validator guarantee together.
use plugshub_common.Common.{
  ◌≤◌, ◌≡◌, ◌≢◌, ◌↔◌, ◌⊎◌, Bool, true, false, Option, some, List, arith, length,
}
use plugshub_common.Text.{Text, Unicode, upper, mem, is_empty, without_prefix}
use plugshub_common.Errors.{Exc}
use plugshub_common.Exec.{ok, raised}
use plugshub_common.Tenant.{
  prefix, whitelisted, well_formed, length_ok, is_dangerous, dangerous, validate_tenant,
}
use plugshub_common.Tenant.Charset.{
  NamesThenNewline, well_formed-NamesThenNewline, NamesThenNewline-IsFree,
}
use plugshub_common.Text.Laws.{IsFree}

module _ (u : Unicode) where
  pub accepted_layers :
      (t : Text) (tenants : Option (List Text)) (r : Bool)
      → validate_tenant u t tenants r ≡ ok true
      → (whitelisted t tenants ≡ true)
        × (well_formed t ≡ true)
        × (length_ok t ≡ true)
        × (is_dangerous dangerous (upper u t) ≡ false)
  unfolding validate_tenant
  accepted_layers t tenants r h = ground arith

  pub accepted_of_layers :
      (t : Text) (tenants : Option (List Text)) (r : Bool)
      → is_empty t ≡ false
      → whitelisted t tenants ≡ true
      → well_formed t ≡ true
      → length_ok t ≡ true
      → is_dangerous dangerous (upper u t) ≡ false
      → validate_tenant u t tenants r ≡ ok true
  unfolding validate_tenant
  accepted_of_layers t tenants r n w f l d = ground arith

  -- An id that the validator accepts against a loaded set is in that set, as it stands or without
  -- its "tenant" prefix; it has 8 to 60 characters, and they are letters, digits and dashes, but for
  -- one newline that may end it. So no quote, backtick, semicolon or space reaches a schema name.
  pub validate_tenant_sound :
      (t : Text) (tenants : List Text) (r : Bool)
      → validate_tenant u t (some tenants) r ≡ ok true
      → ((mem (without_prefix prefix t) tenants ≡ true) ⊎ (mem t tenants ≡ true))
        × (8 ≤ length t)
        × (length t ≤ 60)
        × NamesThenNewline t
  unfolding whitelisted
  validate_tenant_sound t tenants r h =
      let (listed, formed, sized, clean) = accepted_layers t (some tenants) r h in
      (ground arith, ground arith, ground arith, well_formed-NamesThenNewline t formed)

  pub validate_tenant-IsFree :
      (t : Text) (tenants : Option (List Text)) (r : Bool)
      → validate_tenant u t tenants r ≡ ok true
      → IsFree b':' t
  validate_tenant-IsFree t tenants r h =
      let (listed, formed, sized, clean) = accepted_layers t tenants r h in
      NamesThenNewline-IsFree t (well_formed-NamesThenNewline t formed)

  -- The two ways of reporting agree: an id is accepted in one mode exactly when it is in the other,
  -- a validator that raises never returns `False`, and one that returns never raises.
  pub validate_tenant_modes :
      (t : Text) (tenants : Option (List Text))
      → ((validate_tenant u t tenants true ≡ ok true)
          ↔ (validate_tenant u t tenants false ≡ ok true))
        × (validate_tenant u t tenants true ≢ ok false)
        × ((e : Exc) → validate_tenant u t tenants false ≢ raised e)
  unfolding validate_tenant
  validate_tenant_modes t tenants = ground arith
