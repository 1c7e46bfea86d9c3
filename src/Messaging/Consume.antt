-- ===== src/Messaging/Consume.antt =====
-- What the consumer does with a delivery (`IdempotentConsumer.handle`,
-- plugshub_common/messaging.py).
use plugshub_common.Common.{
  ◌≡◌, refl, sym, subst, ◌⊎◌, inl, inr, true, false, Option, none, some, List, [], ◌∷◌, ◌++◌, arith,
}
use plugshub_common.Text.{Text, text_eq, is_empty, mem}
use plugshub_common.Text.Laws.{text_eq_iff}
use plugshub_common.Value.{Value, Fields, str, get_field}
use plugshub_common.Errors.{Exc, is_exception}
use plugshub_common.Exec.{Result, ok, raised, Exec, Result-cases}
use plugshub_common.Messaging.{
  Ambient, event_envelope, Consumer, add_seen, event_id_of, record_event_id, OutboxRecord, conclude,
  handle,
}

-- No call of the handler takes an id out of the processed store.
pub record Remembers {W : Type 0} (handler : Fields → Exec (Consumer W) (Unit {0})) : Type 0 where
  pub at :
      (event : Fields) (s : Consumer W) (i : Text)
      → mem i s.seen ≡ true
      → mem i (handler event s).1.seen ≡ true

-- Every event that `event_envelope` builds has an id for the consumer to remember, whatever id the
-- caller passes, if a fresh id is not empty and `str` of a text is that text.
pub event_envelope_has_id :
    (to_text : Value → Text) (plain : (t : Text) → to_text (str t) ≡ t) (around : Ambient)
    (event_type : Text) (payload : Fields) (tenant_id request_id event_id occurred_at : Option Text)
    → is_empty around.new_id ≡ false
    → is_empty (
        event_id_of to_text
          (event_envelope around event_type payload tenant_id request_id event_id occurred_at))
      ≡ false
unfolding event_id_of event_envelope get_field text_eq
event_envelope_has_id to_text plain around event_type payload tenant_id request_id none occurred_at
      h =
    subst (λ t. is_empty t ≡ false) (sym (plain around.new_id)) h
event_envelope_has_id to_text plain around event_type payload tenant_id request_id (some [])
      occurred_at h =
    subst (λ t. is_empty t ≡ false) (sym (plain around.new_id)) h
event_envelope_has_id to_text plain around event_type payload tenant_id request_id (some (c ∷ t))
      occurred_at h =
    subst (λ x. is_empty x ≡ false) (sym (plain (c ∷ t))) refl

-- The outbox and the consumer agree on the id of an event that has one.
pub record_event_id-event_id_of :
    (to_text : Value → Text) (r : OutboxRecord)
    → is_empty (event_id_of to_text r.envelope) ≡ false
    → record_event_id to_text r ≡ event_id_of to_text r.envelope
unfolding record_event_id event_id_of
record_event_id-event_id_of to_text r h = ground arith

module _ {W : Type 0} (to_text : Value → Text) (repr : Exc → Text)
    (handler : Fields → Exec (Consumer W) (Unit {0})) where
  -- Deliveries one after the other, whatever each gives.
  unfoldable pub deliver : List Fields → Consumer W → Consumer W
  deliver [] s = s
  deliver (event ∷ events) s = deliver events (handle to_text repr handler event s).1

  mem-add_seen : (i j : Text) (ids : List Text) → mem i ids ≡ true → mem i (add_seen j ids) ≡ true
  unfolding mem
  mem-add_seen i j ids h = ground arith

  mem_added : (i : Text) (ids : List Text) → mem i (add_seen i ids) ≡ true
  unfolding mem
  mem_added i ids = ground (arith, text_eq_iff i i)

  mem-conclude :
      (i : Text) (event : Fields) (j : Text) (r : Result (Unit {0})) (s : Consumer W)
      → mem i s.seen ≡ true
      → mem i (conclude repr event j r s).1.seen ≡ true
  mem-conclude i event j (ok x) s h = ground (arith, mem-add_seen i j s.seen h)
  mem-conclude i event j (raised e) s h = ground arith

  mem-handle :
      (i : Text) (remembers : Remembers handler) (event : Fields) (s : Consumer W)
      → mem i s.seen ≡ true
      → mem i (handle to_text repr handler event s).1.seen ≡ true
  unfolding handle
  mem-handle i remembers event s h = ground (
    arith,
    h,
    mem-conclude i event (event_id_of to_text event) (handler event s).0 (handler event s).1
        (remembers.at event s i h),
  )

  mem-deliver :
      (i : Text) (remembers : Remembers handler) (events : List Fields) (s : Consumer W)
      → mem i s.seen ≡ true
      → mem i (deliver events s).seen ≡ true
  unfolding deliver
  mem-deliver i remembers [] s h = h
  mem-deliver i remembers (event ∷ events) s h =
      mem-deliver i remembers events _ (mem-handle i remembers event s h)

  handled-mem :
      (event : Fields) (s : Consumer W)
      → (handle to_text repr handler event s).0 ≡ ok true
      → is_empty (event_id_of to_text event) ≡ false
      → mem (event_id_of to_text event) (handle to_text repr handler event s).1.seen ≡ true
  unfolding handle
  handled-mem event s h named = elim (Result-cases (handler event s).0) [
    | inl (x, r) ↦
        ground (arith, h, named, r, mem_added (event_id_of to_text event) (handler event s).1.seen)
    | inr (e, r) ↦ ground (arith, h, named, r)
  ]

  skipped :
      (event : Fields) (s : Consumer W)
      → is_empty (event_id_of to_text event) ≡ false
      → mem (event_id_of to_text event) s.seen ≡ true
      → handle to_text repr handler event s ≡ (ok false, s)
  unfolding handle
  skipped event s named h = ground (arith, h, named)

  -- An event that was handled is not handled again: after any later deliveries, each delivery with
  -- the same id is skipped and leaves the consumer as it was, if the handler takes no id out of the
  -- processed store.
  pub handled_once :
      (remembers : Remembers handler) (event again : Fields) (between : List Fields)
      (s : Consumer W)
      → (handle to_text repr handler event s).0 ≡ ok true
      → is_empty (event_id_of to_text event) ≡ false
      → event_id_of to_text again ≡ event_id_of to_text event
      → let later = deliver between (handle to_text repr handler event s).1 in
        handle to_text repr handler again later ≡ (ok false, later)
  handled_once remembers event again between s h named same =
      skipped again _ (subst (λ i. is_empty i ≡ false) (sym same) named) (
        subst (λ i. mem i (deliver between (handle to_text repr handler event s).1).seen ≡ true)
          (sym same)
          (mem-deliver (event_id_of to_text event) remembers between _
            (handled-mem event s h named)))

  -- No delivery is lost. When it is answered with `True` its id, if it has one, is in the processed
  -- store; when with `False`, either the id was there before and nothing changed, or the handler
  -- raised and the event is the last of the dead letters, with the exception for its reason; and
  -- only an exception that is no `Exception` passes through.
  pub handle_accounted :
      (event : Fields) (s : Consumer W)
      → let i = event_id_of to_text event in
        let (r, after) = handle to_text repr handler event s in
        ((r ≡ ok true) × ((i ≡ []) ⊎ (mem i after.seen ≡ true)))
        ⊎ (((r ≡ ok false) × (mem i s.seen ≡ true) × (after ≡ s))
            ⊎ (((e : Exc) × (r ≡ ok false)
                  × ((handler event s).0 ≡ raised e)
                  × (after.dead ≡ (handler event s).1.dead ++ (event, repr e) ∷ []))
                ⊎ ((e : Exc) × (r ≡ raised e) × (is_exception e ≡ false))))
  unfolding handle
  handle_accounted event s = elim (Result-cases (handler event s).0) [
    | inl (x, r) ↦ ground (arith, r, mem_added (event_id_of to_text event) (handler event s).1.seen)
    | inr (e, r) ↦ ground (arith, r)
  ]
