-- ===== src/Messaging/System.antt =====
-- The producers' outbox, the relay, the broker and the consumer of plugshub_common/messaging.py
-- together: a step is an enqueued record, a pass of the relay, or one more delivery of an event
-- that the broker has taken, in whatever order.
pub mod Members
pub mod Pending
pub mod Sound
pub mod Accounted
pub mod Safety
mod Tests
use plugshub_common.Common.{
  ℕ, zero, suc, ◌+◌, ◌-◌, ◌*◌, ◌^◌, ◌≤◌, ◌<◌, String, ◌≡◌, refl, sym, ap, ◌∙◌, subst, ◌≢◌, ◌↔◌, ◌⊎◌,
  inl, inr, Bool, true, false, not, ◌&&◌, ◌||◌, Option, none, some, List, [], ◌∷◌, ◌++◌, map,
  append_assoc, append-nil, arith, ltb, leb, ◌==◌, if◌then◌else◌, ==_iff, Bool-cases, Option-cases,
  is_some, or_else, length, replicate, take, drop, all, any, length-append, length-take_le,
  take_all, All, All-append,
}
use plugshub_common.Text.{Text, codes, text_eq, is_empty, mem}
use plugshub_common.Value.{Value, str, Fields, end, field, get_field}
use plugshub_common.Errors.{Exc, is_exception, other}
use plugshub_common.Exec.{Result, ok, raised, Exec, Result-cases}
use plugshub_common.Messaging.{
  OutboxRecord, Outbox, add, Relaying, relay_once, Consumer, event_id_of, handle,
}
use plugshub_common.Messaging.Relay.{is_distinct, has_id}
use mathlib.Core.List.{Memᴰ}

-- What a service wires together. `taken` lists the events the broker has, in its world `B`; the
-- world `W` is the handler's.
pub record Wiring (B W : Type 0) : Type 0 where
  pub taken : B → List Fields
  pub publish : Fields → Exec (Relaying B) (Unit {0})
  pub to_text : Value → Text
  pub repr : Exc → Text
  pub handler : Fields → Exec (Consumer W) (Unit {0})

-- `delivered` lists the events whose delivery returned, `handled` the ids of those that were
-- answered with `True`, the last first. No code reads these two.
pub record System (B W : Type 0) : Type 0 where
  pub relaying : Relaying B
  pub consumer : Consumer W
  pub delivered : List Fields
  pub handled : List Text

abbrev pub noted : Result Bool → Fields → List Fields → List Fields
noted (ok ran) event events = event ∷ events
noted (raised e) event events = events

abbrev pub counted : Result Bool → Text → List Text → List Text
counted (ok true) id ids = id ∷ ids
counted (ok false) id ids = ids
counted (raised e) id ids = ids

-- A record as a producer makes it: not yet published, with an id of its own, and an event that has
-- an id.
pub record IsNew (to_text : Value → Text) (r : OutboxRecord) (records : Outbox) : Type 0 where
  pub waiting : r.published ≡ false
  pub own_id : has_id r.id records ≡ false
  pub named : is_empty (event_id_of to_text r.envelope) ≡ false

-- The producers have added records.
pub data Grows (to_text : Value → Text) (old : Outbox) : Outbox → Type 0 where
  same : Grows to_text old old
  more :
      {records : Outbox}
      → Grows to_text old records
      → (r : OutboxRecord) → IsNew to_text r records
      → Grows to_text old (add r records)

module _ {B W : Type 0} (wiring : Wiring B W) where
  unfoldable pub enqueue : OutboxRecord → System B W → System B W
  enqueue r s =
      let produced = record s.relaying { records = add r s.relaying.records } in
      record s { relaying = produced }

  unfoldable pub pass : ℕ → System B W → System B W
  pass limit s = record s { relaying = (relay_once wiring.publish limit s.relaying).1 }

  unfoldable pub receive : Fields → System B W → System B W
  receive event s =
      let (answer, consumer) = handle wiring.to_text wiring.repr wiring.handler event s.consumer in
      record s {
        consumer = consumer;
        delivered = noted answer event s.delivered;
        handled = counted answer (event_id_of wiring.to_text event) s.handled;
      }

  pub data Step : System B W → System B W → Type 0 where
    enqueued :
        (s : System B W) (r : OutboxRecord)
        → IsNew wiring.to_text r s.relaying.records
        → Step s (enqueue r s)
    passed : (s : System B W) (limit : ℕ) → Step s (pass limit s)
    received :
        (s : System B W) (event : Fields)
        → Memᴰ event (wiring.taken s.relaying.world)
        → Step s (receive event s)

  pub data Reach (start : System B W) : System B W → Type 0 where
    here : Reach start start
    next : {s t : System B W} → Reach start s → Step s t → Reach start t

  -- An at-least-once broker: what it has taken it keeps, it takes nothing but what is published, and
  -- an event whose publishing returned is taken (one whose publishing raised may be). Meanwhile the
  -- producers may add records.
  pub record IsBroker : Type 0 where
    pub during :
        (event : Fields) (s : Relaying B)
        → Grows wiring.to_text s.records (wiring.publish event s).1.records
    pub keeps :
        (event e : Fields) (s : Relaying B)
        → Memᴰ e (wiring.taken s.world)
        → Memᴰ e (wiring.taken (wiring.publish event s).1.world)
    pub honest :
        (event e : Fields) (s : Relaying B)
        → Memᴰ e (wiring.taken (wiring.publish event s).1.world)
        → Memᴰ e (wiring.taken s.world) ⊎ (e ≡ event)
    pub acknowledges :
        (event : Fields) (s : Relaying B) (x : Unit {0})
        → (wiring.publish event s).0 ≡ ok x
        → Memᴰ event (wiring.taken (wiring.publish event s).1.world)

  -- The handler leaves the consumer's own stores alone.
  pub record IsApart : Type 0 where
    pub seen : (event : Fields) (c : Consumer W) → (wiring.handler event c).1.seen ≡ c.seen
    pub dead : (event : Fields) (c : Consumer W) → (wiring.handler event c).1.dead ≡ c.dead

  -- Nothing enqueued, published or delivered yet.
  pub record IsFresh (s : System B W) : Type 0 where
    pub records : s.relaying.records ≡ []
    pub taken : wiring.taken s.relaying.world ≡ []
    pub seen : s.consumer.seen ≡ []
    pub delivered : s.delivered ≡ []
    pub handled : s.handled ≡ []
