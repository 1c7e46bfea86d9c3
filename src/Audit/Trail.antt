-- ===== src/Audit/Trail.antt =====
-- What a sequence of audited calls leaves in a sink (plugshub_common/audit.py).
use plugshub_common.Common.{
  ◌≡◌, refl, sym, ap, ◌∙◌, inl, inr, List, [], ◌∷◌, ◌++◌, append_assoc, append-nil,
}
use plugshub_common.Text.{Text}
use plugshub_common.Exec.{Result, ok, raised, Exec, pure, ◌>>◌, Result-cases}
use plugshub_common.Logging.{LogContext}
use plugshub_common.Canonical.DateTime.{DateTime}
use plugshub_common.Canonical.Iso.{isoformat}
use plugshub_common.Canonical.Time.{with_z}
use plugshub_common.Audit.{AuditRecord, AuditSink, Call, entry, write_record}

-- The instant, as the records write it.
unfoldable pub stamp : DateTime → Text
stamp now = with_z (isoformat now)

pub write_record-stamp :
    {S : Type 0} (write : AuditRecord → Exec S (Unit {0})) (ctx : LogContext) (now : DateTime)
    (c : Call) (s : S)
    → write_record write ctx now c s
      ≡ (write (entry ctx (stamp now) c) >> pure (entry ctx (stamp now) c)) s
unfolding write_record stamp
write_record-stamp write ctx now c s = refl

-- A call with the log context and the clock that it meets.
pub record Event : Type 0 where
  pub context : LogContext
  pub now : DateTime
  pub call : Call

abbrev pub entry_at : Event → AuditRecord
entry_at e = entry e.context (stamp e.now) e.call

module _ {S V : Type 0} (sink : AuditSink S V) where
  -- The calls, one after the other, each with its answer.
  unfoldable pub run : List Event → S → List (Result AuditRecord) × S
  run [] s = ([], s)
  run (e ∷ es) s =
      let (answer, s') = write_record sink.write e.context e.now e.call s in
      let (answers, end_state) = run es s' in (answer ∷ answers, end_state)

  -- What a call is to answer, and to add to the trail.
  abbrev pub answer_to : AuditRecord → Result V → Result AuditRecord
  answer_to r (ok v) = ok r
  answer_to r (raised e) = raised e

  abbrev pub added : Result V → List V
  added (ok v) = v ∷ []
  added (raised e) = []

  abbrev pub answers_to : List Event → List (Result AuditRecord)
  answers_to [] = []
  answers_to (e ∷ es) = answer_to (entry_at e) (sink.render (entry_at e)) ∷ answers_to es

  abbrev pub added_by : List Event → List V
  added_by [] = []
  added_by (e ∷ es) = added (sink.render (entry_at e)) ++ added_by es

  write_record_step :
      (e : Event) (s : S)
      → ((write_record sink.write e.context e.now e.call s).0
          ≡ answer_to (entry_at e) (sink.render (entry_at e)))
        × (sink.trail (write_record sink.write e.context e.now e.call s).1
            ≡ sink.trail s ++ added (sink.render (entry_at e)))
  write_record_step e s = elim (Result-cases (sink.render (entry_at e))) [
    | inl (v, h) ↦
        let (done, more) = sink.appended (entry_at e) v s h in
        rw (write_record-stamp sink.write e.context e.now e.call s, h, done) (refl, more)
    | inr (x, h) ↦
        let same = sink.refused (entry_at e) x s h in
        rw (write_record-stamp sink.write e.context e.now e.call s, h, same)
          (refl, sym (append-nil (sink.trail s)))
  ]

  -- The trail is append-only, for every sink that keeps the interface: after any calls it is what it
  -- was before, and then the records of the calls in their order, without those that the sink cannot
  -- write. Each call answers with its record, or raises what the sink raised, and later calls are
  -- written all the same.
  pub run-appends :
      (es : List Event) (s : S)
      → ((run es s).0 ≡ answers_to es) × (sink.trail (run es s).1 ≡ sink.trail s ++ added_by es)
  unfolding run
  run-appends [] s = (refl, sym (append-nil (sink.trail s)))
  run-appends (e ∷ es) s =
      let (answer, more) = write_record_step e s in
      let s' = (write_record sink.write e.context e.now e.call s).1 in
      let (answers, rest) = run-appends es s' in
      (
        rw (answer, answers) refl,
        rest
            ∙ ap (λ t. t ++ added_by es) more
            ∙ append_assoc (sink.trail s) (added (sink.render (entry_at e))) (added_by es),
      )
