-- ===== src/Audit/Tests.antt =====
-- Runs of plugshub_common/audit.py, and the theorems about it at concrete inputs.
use plugshub_common.Common.{
  ◌≡◌, refl, ap, none, some, List, [], ◌∷◌, ◌++◌, arith, if◌then◌else◌, is_some,
}
use plugshub_common.Text.{Text, codes, text_eq}
use plugshub_common.Value.{str, Fields, end, field, get_field}
use plugshub_common.Errors.{other}
use plugshub_common.Exec.{Result, ok, raised, Exec}
use plugshub_common.Common.Int.{pos}
use plugshub_common.Logging.{LogContext}
use plugshub_common.Canonical.Calendar.{days_in_month}
use plugshub_common.Canonical.DateTime.{DateTime}
use plugshub_common.Canonical.Time.Instant.{IsDateTime}
use plugshub_common.Audit.{
  AuditRecord, AuditSink, Call, to_dict, write_record, append_record, outcome_failure,
}
use plugshub_common.Audit.Trail.{Event, run, answers_to, added_by, run-appends}
use plugshub_common.Audit.Sinks.{logging_sink}
use plugshub_common.Audit.Shape.{IsComplete, write_record-IsComplete}

abbrev now : DateTime
now = record {
  date = record { year = 2026; month = 7; day = 6 };
  hour = 12;
  minute = 0;
  second = 0;
  micros = 0;
  offset = some (pos 0);
}

now-IsDateTime : IsDateTime now
unfolding days_in_month
now-IsDateTime = record {
  date_ok = record { year_in = omega arith; month_in = omega arith; day_in = omega arith };
  hour_in = omega arith;
  minute_in = omega arith;
  second_in = omega arith;
  micros_in = omega arith;
}

abbrev context : LogContext
context = record { request_id = some (codes "r1"); tenant_id = some (codes "acme") }

abbrev refund : Call
refund = record {
  actor_id = codes "u1";
  actor_type = codes "user";
  action = codes "refund";
  target = codes "invoice/7";
  outcome = outcome_failure;
  tenant_id = none;
  request_id = some (codes "r2");
  details = some end;
}

abbrev written : AuditRecord
written = record {
  actor_id = codes "u1";
  actor_type = codes "user";
  action = codes "refund";
  target = codes "invoice/7";
  tenant_id = some (codes "acme");
  timestamp = codes "2026-07-06T12:00:00Z";
  request_id = some (codes "r2");
  outcome = outcome_failure;
  details = some end;
}

write_record-refund : write_record append_record context now refund [] ≡ (ok written, written ∷ [])
unfolding write_record append_record
write_record-refund = refl

write_record-IsComplete_example : IsComplete context now refund written
write_record-IsComplete_example =
    write_record-IsComplete append_record context now refund [] written now-IsDateTime refl
      (ap (λ p. p.0) write_record-refund)

abbrev with_bad_details : Call
with_bad_details = record refund { details = some (field (codes "bad") (str []) end) }

-- A `dumps` that fails on one kind of record, and lines kept in a list.
abbrev dumps : Fields → Result Text
dumps d = if is_some (get_field (codes "details") d) then raised (other 0) else ok (codes "line")

abbrev info : Text → Exec (List Text) (Unit {0})
info t lines = (ok tt, lines ++ t ∷ [])

abbrev sink : AuditSink (List Text) Text
unfolding logging_sink
sink = logging_sink dumps info (λ lines. lines) (λ t s. (refl, refl))

abbrev at : Call → Event
at c = record { context = context; now = now; call = c }

run-appends_example :
    ((run sink (at refund ∷ at with_bad_details ∷ at refund ∷ []) []).0
      ≡ answers_to sink (at refund ∷ at with_bad_details ∷ at refund ∷ []))
    × (sink.trail (run sink (at refund ∷ at with_bad_details ∷ at refund ∷ []) []).1
        ≡ sink.trail [] ++ added_by sink (at refund ∷ at with_bad_details ∷ at refund ∷ []))
run-appends_example = run-appends sink (at refund ∷ at with_bad_details ∷ at refund ∷ []) []

added_lines :
    added_by sink (at refund ∷ at with_bad_details ∷ at refund ∷ [])
    ≡ codes "line" ∷ codes "line" ∷ []
unfolding to_dict get_field text_eq sink
added_lines = refl
