-- ===== src/Messaging.antt =====
-- plugshub_common/messaging.py: the event envelope, the outbox and its relay, and the consumer.
-- The broker's `publish` and the service's handler are parameters, over a world `W`.
pub mod Relay
pub mod Consume
pub mod System
pub mod Overlap
pub mod Drain
mod Tests
use plugshub_common.Common.{
  ℕ, zero, suc, ◌+◌, ◌-◌, ◌*◌, ◌^◌, ◌≤◌, ◌<◌, String, ◌≡◌, refl, sym, ap, ◌∙◌, subst, ◌≢◌, ◌↔◌, ◌⊎◌,
  inl, inr, Bool, true, false, not, ◌&&◌, ◌||◌, Option, none, some, List, [], ◌∷◌, ◌++◌, map,
  append_assoc, append-nil, arith, ltb, leb, ◌==◌, if◌then◌else◌, ==_iff, Bool-cases, Option-cases,
  is_some, or_else, length, replicate, take, drop, all, any, length-append, length-take_le,
  take_all, All, All-append,
}
use plugshub_common.Text.{Text, codes, text_eq, is_empty, mem}
use plugshub_common.Value.{Value, str, null, dict, opt_str, Fields, end, field, get_field}
use plugshub_common.Errors.{Exc, is_exception, or_text}
use plugshub_common.Exec.{Result, ok, raised, Exec}
use plugshub_common.Logging.{LogContext, keep_old, current_request_id, current_tenant_id}

-- What an event envelope takes from its surroundings: a fresh id, the current time and the log
-- context.
pub record Ambient : Type 0 where
  pub new_id : Text
  pub now : Text
  pub context : LogContext

unfoldable pub event_envelope :
    Ambient → Text → Fields → Option Text → Option Text → Option Text → Option Text → Fields
event_envelope around event_type payload tenant_id request_id event_id occurred_at =
    field (codes "event_id") (str (or_text event_id around.new_id)) (
      field (codes "event_type") (str event_type) (
        field (codes "occurred_at") (str (or_text occurred_at around.now)) (
          field (codes "tenant_id")
            (opt_str (keep_old tenant_id (current_tenant_id around.context)))
            (field (codes "request_id")
              (opt_str (keep_old request_id (current_request_id around.context)))
              (field (codes "data") (dict payload) end)))))

pub record OutboxRecord : Type 0 where
  pub envelope : Fields
  pub id : Text
  pub published : Bool

-- `InMemoryOutbox`, by its `_records`.
abbrev pub Outbox : Type 0
Outbox = List OutboxRecord

unfoldable pub add : OutboxRecord → Outbox → Outbox
add entry records = records ++ entry ∷ []

unfoldable pub unpublished : Outbox → Outbox
unpublished [] = []
unpublished (r ∷ records) = let rest = unpublished records in if r.published then rest else r ∷ rest

-- `[...][:limit]` of a limit that is not negative.
unfoldable pub list_unpublished : ℕ → Outbox → Outbox
unfolding unpublished
list_unpublished limit records = take limit (unpublished records)

unfoldable pub mark_published : Text → Outbox → Outbox
mark_published record_id [] = []
mark_published record_id (r ∷ records) =
    let rest = mark_published record_id records in
    if text_eq r.id record_id then record r { published = true } ∷ records else r ∷ rest

-- The world of a relay: the outbox, and the broker and everything else, which `publish` changes.
pub record Relaying (W : Type 0) : Type 0 where
  pub records : Outbox
  pub world : W

abbrev pub after_publish :
    {W : Type 0} → Result (Unit {0}) → Relaying W → Result ℕ × Relaying W → Result ℕ × Relaying W
after_publish (ok x) s1 done = done
after_publish (raised e) s1 done = (raised e, s1)

module _ {W : Type 0} (publish : Fields → Exec (Relaying W) (Unit {0})) where
  -- The loop of `relay_once`, with the count so far.
  unfoldable pub relay_batch : Outbox → ℕ → Exec (Relaying W) ℕ
  unfolding mark_published
  relay_batch [] published s = (ok published, s)
  relay_batch (r ∷ batch) published s =
      let (sent, s1) = publish r.envelope s in
      let marked = record s1 { records = mark_published r.id s1.records } in
      let done = relay_batch batch (published + 1) marked in after_publish sent s1 done

  unfoldable pub relay_once : ℕ → Exec (Relaying W) ℕ
  unfolding relay_batch list_unpublished
  relay_once limit s = relay_batch (list_unpublished limit s.records) 0 s

-- `InMemoryProcessedStore` by its set of ids, `InMemoryDeadLetterQueue` by its messages: the
-- envelope and the reason of each.
pub record Consumer (W : Type 0) : Type 0 where
  pub seen : List Text
  pub dead : List (Fields × Text)
  pub world : W

-- `self._seen.add(event_id)`
abbrev pub add_seen : Text → List Text → List Text
add_seen event_id ids = if mem event_id ids then ids else event_id ∷ ids

-- `str(envelope.get("event_id", ""))`, where `to_text` is `str`
unfoldable pub event_id_of : (Value → Text) → Fields → Text
event_id_of to_text envelope = elim (get_field (codes "event_id") envelope) [
  | none ↦ []
  | some v ↦ to_text v
]

-- `OutboxRecord.event_id`
unfoldable pub record_event_id : (Value → Text) → OutboxRecord → Text
unfolding get_field
record_event_id to_text r = to_text (or_else (get_field (codes "event_id") r.envelope) (str r.id))

abbrev pub mark : {W : Type 0} → Text → Consumer W → Consumer W
mark event_id s = if is_empty event_id then s else record s { seen = add_seen event_id s.seen }

-- The handler has returned or raised; `repr` is that of the exception.
abbrev pub conclude :
    {W : Type 0}
    → (Exc → Text)
    → Fields
    → Text
    → Result (Unit {0})
    → Consumer W
    → Result Bool × Consumer W
conclude repr envelope event_id (ok x) s = (ok true, mark event_id s)
conclude repr envelope event_id (raised e) s =
    if is_exception e
    then (ok false, record s { dead = s.dead ++ (envelope, repr e) ∷ [] })
    else (raised e, s)

-- The handler's outcome is used only when the event was not seen before.
unfoldable pub handle :
    {W : Type 0}
    → (Value → Text)
    → (Exc → Text)
    → (Fields → Exec (Consumer W) (Unit {0}))
    → Fields
    → Exec (Consumer W) Bool
unfolding event_id_of
handle to_text repr handler envelope s =
    let event_id = event_id_of to_text envelope in
    let (r, s1) = handler envelope s in
    if not (is_empty event_id) && mem event_id s.seen
    then (ok false, s)
    else conclude repr envelope event_id r s1
