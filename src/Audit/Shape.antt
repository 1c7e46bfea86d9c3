-- ===== src/Audit/Shape.antt =====
-- What every audit record holds (plugshub_common/audit.py).
use plugshub_common.Common.{
  ◌≡◌, refl, ◌∙◌, subst, inl, inr, false, Option, none, some, arith, if◌then◌else◌,
}
use plugshub_common.Text.{Text, codes, text_eq}
use plugshub_common.Text.Laws.{text_eq_refl}
use plugshub_common.Value.{
  Value, str, dict, opt_str, Fields, end, field, get_field, get_field-set_field, is_end,
}
use plugshub_common.Exec.{ok, raised, Exec, Result-cases}
use plugshub_common.Logging.{LogContext}
use plugshub_common.Canonical.DateTime.{DateTime}
use plugshub_common.Canonical.Time.{parse_rfc3339}
use plugshub_common.Canonical.Time.Instant.{IsDateTime, IsUtc}
use plugshub_common.Canonical.Time.RoundTrip.{parse_rfc3339-now}
use plugshub_common.Audit.{
  mandatory, with_details, AuditRecord, Call, or_current, entry, to_dict, write_record,
}
use plugshub_common.Audit.Trail.{stamp, write_record-stamp}

parse_rfc3339-stamp :
    (now : DateTime) → IsDateTime now → IsUtc now → parse_rfc3339 (stamp now) ≡ ok now
unfolding stamp
parse_rfc3339-stamp now v utc = parse_rfc3339-now now v utc

abbrev pub details_value : Option Fields → Option Value
details_value none = none
details_value (some d) = if is_end d then none else some (dict d)

-- The fields of the record of a call, in the log context and at the time of the call.
pub record IsComplete (ctx : LogContext) (now : DateTime) (c : Call) (r : AuditRecord)
    : Type 0 where
  pub actor :
      (get_field (codes "actor_id") (to_dict r) ≡ some (str c.actor_id))
      × (get_field (codes "actor_type") (to_dict r) ≡ some (str c.actor_type))
  pub deed :
      (get_field (codes "action") (to_dict r) ≡ some (str c.action))
      × (get_field (codes "target") (to_dict r) ≡ some (str c.target))
  pub tenant :
      get_field (codes "tenant_id") (to_dict r)
      ≡ some (opt_str (or_current c.tenant_id ctx.tenant_id))
  pub request :
      get_field (codes "request_id") (to_dict r)
      ≡ some (opt_str (or_current c.request_id ctx.request_id))
  pub outcome_is : get_field (codes "outcome") (to_dict r) ≡ some (str c.outcome)
  pub time :
      (t : Text) × (get_field (codes "timestamp") (to_dict r) ≡ some (str t))
      × (parse_rfc3339 t ≡ ok now)
  pub details_are : get_field (codes "details") (to_dict r) ≡ details_value c.details

with_details_other :
    (k : Text) (o : Option Fields) (d : Fields)
    → text_eq (codes "details") k ≡ false
    → get_field k (with_details o d) ≡ get_field k d
with_details_other k none d h = refl
with_details_other k (some end) d h = refl
with_details_other k (some (field j v e)) d h =
    get_field-set_field (codes "details") k (dict (field j v e)) d ∙ rw h refl

with_details_own :
    (o : Option Fields) (d : Fields)
    → get_field (codes "details") d ≡ none
    → get_field (codes "details") (with_details o d) ≡ details_value o
with_details_own none d h = h
with_details_own (some end) d h = h
with_details_own (some (field j v e)) d h =
    get_field-set_field (codes "details") (codes "details") (dict (field j v e)) d
    ∙ rw (text_eq_refl (codes "details")) refl

in_dict :
    (k : Text) (r : AuditRecord)
    → text_eq (codes "details") k ≡ false
    → get_field k (to_dict r) ≡ get_field k (mandatory r)
unfolding to_dict
in_dict k r h = with_details_other k r.details (mandatory r) h

in_details : (r : AuditRecord) → get_field (codes "details") (to_dict r) ≡ details_value r.details
unfolding to_dict get_field text_eq
in_details r = with_details_own r.details (mandatory r) refl

entry-IsComplete :
    (ctx : LogContext) (now : DateTime) (c : Call)
    → IsDateTime now
    → IsUtc now
    → IsComplete ctx now c (entry ctx (stamp now) c)
unfolding get_field text_eq
entry-IsComplete ctx now c v utc =
    let r = entry ctx (stamp now) c in
    record {
      actor = (in_dict (codes "actor_id") r refl, in_dict (codes "actor_type") r refl);
      deed = (in_dict (codes "action") r refl, in_dict (codes "target") r refl);
      tenant = in_dict (codes "tenant_id") r refl;
      request = in_dict (codes "request_id") r refl;
      outcome_is = in_dict (codes "outcome") r refl;
      time = (stamp now, in_dict (codes "timestamp") r refl, parse_rfc3339-stamp now v utc);
      details_are = in_details r;
    }

-- A call that answers answers with a record whose dict has all of the mandatory fields: the actor,
-- the action, the target and the outcome that the caller gave, the tenant and the request of the
-- caller or else of the log context, and a timestamp that reads back as the clock's UTC instant;
-- `details` is there exactly if it is given and not empty.
pub write_record-IsComplete :
    {S : Type 0} (write : AuditRecord → Exec S (Unit {0})) (ctx : LogContext) (now : DateTime)
    (c : Call) (s : S) (r : AuditRecord)
    → IsDateTime now
    → IsUtc now
    → (write_record write ctx now c s).0 ≡ ok r
    → IsComplete ctx now c r
write_record-IsComplete write ctx now c s r v utc h =
    let e = entry ctx (stamp now) c in
    elim (Result-cases ((write e s).0)) [
      | inl (done, w) ↦
          let answer : (write_record write ctx now c s).0 ≡ ok e =
            rw (write_record-stamp write ctx now c s, w) refl in
          let same : e ≡ r = cc in
          subst (IsComplete ctx now c) same (entry-IsComplete ctx now c v utc)
      | inr (x, w) ↦
          let answer : (write_record write ctx now c s).0 ≡ raised x =
            rw (write_record-stamp write ctx now c s, w) refl in
          absurd (ground (arith, h, answer))
    ]
