-- ===== src/Audit/Sinks.antt =====
-- The two sinks of plugshub_common/audit.py keep the interface.
use plugshub_common.Common.{◌≡◌, refl, ap, List, [], ◌∷◌, ◌++◌, arith}
use plugshub_common.Text.{Text}
use plugshub_common.Value.{Fields}
use plugshub_common.Errors.{Exc}
use plugshub_common.Exec.{Result, ok, raised, Exec}
use plugshub_common.Audit.{AuditRecord, AuditSink, to_dict, append_record, log_record}

pub appended_by :
    (r v : AuditRecord) (s : List AuditRecord)
    → ok r ≡ ok v
    → ((append_record r s).0 ≡ ok tt) × ((append_record r s).1 ≡ s ++ v ∷ [])
unfolding append_record
appended_by r v s h = let same : r ≡ v = cc in (refl, ap (λ x. s ++ x ∷ []) same)

pub never_refused :
    (r : AuditRecord) (e : Exc) (s : List AuditRecord)
    → ok r ≡ raised e
    → append_record r s ≡ (raised e, s)
never_refused r e s h = ground (arith, h)

unfoldable pub in_memory_sink : AuditSink (List AuditRecord) AuditRecord
in_memory_sink = record {
  write = append_record;
  render = ok;
  trail = λ records. records;
  appended = appended_by;
  refused = never_refused;
}

-- The audit logger, through the lines that its handler has: `info` adds its line at the end, as a
-- logger does whose level lets INFO through.
module _ {S : Type 0} (dumps : Fields → Result Text) (info : Text → Exec S (Unit {0}))
    (lines : S → List Text)
    (info_line : (t : Text) (s : S)
      → ((info t s).0 ≡ ok tt) × (lines (info t s).1 ≡ lines s ++ t ∷ [])) where
  pub log_line :
      (r : AuditRecord) (t : Text) (s : S)
      → dumps (to_dict r) ≡ ok t
      → log_record dumps info r s ≡ info t s
  unfolding log_record
  log_line r t s h = rw h refl

  pub log_fails :
      (r : AuditRecord) (e : Exc) (s : S)
      → dumps (to_dict r) ≡ raised e
      → log_record dumps info r s ≡ (raised e, s)
  unfolding log_record
  log_fails r e s h = rw h refl

  unfoldable pub logging_sink : AuditSink S Text
  unfolding to_dict
  logging_sink = record {
    write = log_record dumps info;
    render = λ r. dumps (to_dict r);
    trail = lines;
    appended = λ r t s h. rw (log_line r t s h) (info_line t s);
    refused = log_fails;
  }
