-- ===== src/Audit.antt =====
-- plugshub_common/audit.py: audit records, the sinks and the writer.
pub mod Trail
pub mod Sinks
pub mod Shape
mod Tests
use plugshub_common.Common.{
  ℕ, zero, suc, ◌+◌, ◌-◌, ◌*◌, ◌^◌, ◌≤◌, ◌<◌, String, ◌≡◌, refl, sym, ap, ◌∙◌, subst, ◌≢◌, ◌↔◌, ◌⊎◌,
  inl, inr, Bool, true, false, not, ◌&&◌, ◌||◌, Option, none, some, List, [], ◌∷◌, ◌++◌, map,
  append_assoc, append-nil, arith, ltb, leb, ◌==◌, if◌then◌else◌, ==_iff, Bool-cases, Option-cases,
  is_some, or_else, length, replicate, take, drop, all, any, length-append, length-take_le,
  take_all, All, All-append,
}
use plugshub_common.Text.{Text, codes, text_eq}
use plugshub_common.Value.{
  Value, str, dict, opt_str, Fields, end, field, get_field, set_field, is_end,
}
use plugshub_common.Exec.{Result, ok, raised, Exec, pure, lift, continue, ◌>>=◌, ◌>>◌}
use plugshub_common.Errors.{Exc}
use plugshub_common.Logging.{LogContext}
use plugshub_common.Canonical.DateTime.{DateTime}
use plugshub_common.Canonical.Time.{to_rfc3339}

pub record AuditRecord : Type 0 where
  pub actor_id : Text
  pub actor_type : Text
  pub action : Text
  pub target : Text
  pub tenant_id : Option Text
  pub timestamp : Text
  pub request_id : Option Text
  pub outcome : Text
  pub details : Option Fields

abbrev pub outcome_success : Text
outcome_success = codes "success"

abbrev pub outcome_failure : Text
outcome_failure = codes "failure"

-- `if self.details: data["details"] = self.details`
abbrev pub with_details : Option Fields → Fields → Fields
with_details none fields = fields
with_details (some d) fields =
    if is_end d then fields else set_field (codes "details") (dict d) fields

abbrev pub mandatory : AuditRecord → Fields
mandatory r = field (codes "actor_id") (str r.actor_id) (
    field (codes "actor_type") (str r.actor_type) (
      field (codes "action") (str r.action) (
        field (codes "target") (str r.target) (
          field (codes "tenant_id") (opt_str r.tenant_id) (
            field (codes "timestamp") (str r.timestamp) (
              field (codes "request_id") (opt_str r.request_id)
                (field (codes "outcome") (str r.outcome) end)))))))

unfoldable pub to_dict : AuditRecord → Fields
unfolding set_field
to_dict r = with_details r.details (mandatory r)

-- A sink over states `S`. `trail` is what it has written, `render` the form that it writes a record
-- in, which may fail; a write adds the record at the end, or raises and changes nothing.
pub record AuditSink (S V : Type 0) : Type 0 where
  pub write : AuditRecord → Exec S (Unit {0})
  pub render : AuditRecord → Result V
  pub trail : S → List V
  pub appended :
      (r : AuditRecord) (v : V) (s : S)
      → render r ≡ ok v
      → ((write r s).0 ≡ ok tt) × (trail (write r s).1 ≡ trail s ++ v ∷ [])
  pub refused :
      (r : AuditRecord) (e : Exc) (s : S) → render r ≡ raised e → write r s ≡ (raised e, s)

-- The arguments of `AuditWriter.record`.
pub record Call : Type 0 where
  pub actor_id : Text
  pub actor_type : Text
  pub action : Text
  pub target : Text
  pub outcome : Text
  pub tenant_id : Option Text
  pub request_id : Option Text
  pub details : Option Fields

-- `given if given is not None else current`
abbrev pub or_current : Option Text → Option Text → Option Text
or_current none current = current
or_current (some given) current = some given

abbrev pub entry : LogContext → Text → Call → AuditRecord
entry ctx timestamp c = record {
  actor_id = c.actor_id;
  actor_type = c.actor_type;
  action = c.action;
  target = c.target;
  tenant_id = or_current c.tenant_id ctx.tenant_id;
  timestamp = timestamp;
  request_id = or_current c.request_id ctx.request_id;
  outcome = c.outcome;
  details = c.details;
}

module _ {S : Type 0} where
  -- `AuditWriter.record`, over the sink's `write`; `now` is `utc_now()`.
  unfoldable pub write_record :
      (AuditRecord → Exec S (Unit {0})) → LogContext → DateTime → Call → Exec S AuditRecord
  unfolding to_rfc3339
  write_record write ctx now c = lift (to_rfc3339 now none) >>= λ timestamp.
      write (entry ctx timestamp c) >> pure (entry ctx timestamp c)

-- `InMemoryAuditSink`: `write`, and the snapshot `records`.
unfoldable pub append_record : AuditRecord → Exec (List AuditRecord) (Unit {0})
append_record r records = (ok tt, records ++ r ∷ [])

-- `LoggingAuditSink.write`, where `dumps` is `json.dumps` of a dict with `default=str`, and `info`
-- the `info` of the audit logger.
module _ {S : Type 0} (dumps : Fields → Result Text) (info : Text → Exec S (Unit {0})) where
  unfoldable pub log_record : AuditRecord → Exec S (Unit {0})
  unfolding to_dict
  log_record r = lift (dumps (to_dict r)) >>= λ line. info line
