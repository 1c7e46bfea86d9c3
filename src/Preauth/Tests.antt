-- ===== src/Preauth/Tests.antt =====
-- The key of a parked pre-auth at concrete places.
use plugshub_common.Common.{◌≡◌, refl, true, false, none, [], ◌∷◌, arith}
use plugshub_common.Common.Int.{pos}
use plugshub_common.Text.{Text, codes, Unicode, upper}
use plugshub_common.Value.{Value, int, str}
use plugshub_common.Exec.{ok}
use plugshub_common.Tenant.{validate_tenant, is_dangerous, well_formed, whitelisted}
use plugshub_common.Preauth.{preauth_key, preauth_key_validated}

abbrev unicode : Unicode
unicode = record {
  upper_other = λ c. c ∷ [];
  lower_other = λ c. c ∷ [];
  is_alpha_other = λ c. false;
}

-- Connector 2, as a number and as a text.
abbrev to_text : Value → Text
to_text (int n) = codes "2"
to_text (str t) = t
to_text _ = []

abbrev acme : Text
acme = codes "tenantacme-1"

preauth_key_run :
    preauth_key to_text acme (codes "CP:7") (int (pos 2))
    ≡ codes "terminal:preauth:tenantacme-1:CP:7:2"
unfolding preauth_key
preauth_key_run = refl

same_key :
    preauth_key to_text acme (codes "CP:7") (int (pos 2))
    ≡ preauth_key to_text acme (codes "CP:7") (str (codes "2"))
unfolding preauth_key
same_key = refl

acme_accepted : validate_tenant unicode acme none true ≡ ok true
unfolding validate_tenant whitelisted well_formed is_dangerous upper
acme_accepted = refl

preauth_key_validated_example :
    (acme ≡ acme)
    × (codes "CP:7" ≡ codes "CP:7")
    × (to_text (int (pos 2)) ≡ to_text (str (codes "2")))
preauth_key_validated_example =
    preauth_key_validated unicode to_text acme acme (codes "CP:7") (codes "CP:7") (int (pos 2))
      (str (codes "2")) none none true true acme_accepted acme_accepted (omega arith, tt)
      (omega arith, tt) same_key
