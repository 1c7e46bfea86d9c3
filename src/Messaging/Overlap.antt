-- ===== src/Messaging/Overlap.antt =====
-- Deliveries to one consumer that overlap: `IdempotentConsumer.handle` (plugshub_common/messaging.py)
-- looks the event up before it awaits the handler, and marks it after.
pub mod Once
mod Tests
use plugshub_common.Common.{
  ℕ, zero, suc, ◌+◌, ◌-◌, ◌*◌, ◌^◌, ◌≤◌, ◌<◌, String, ◌≡◌, refl, sym, ap, ◌∙◌, subst, ◌≢◌, ◌↔◌, ◌⊎◌,
  inl, inr, Bool, true, false, not, ◌&&◌, ◌||◌, Option, none, some, List, [], ◌∷◌, ◌++◌, map,
  append_assoc, append-nil, arith, ltb, leb, ◌==◌, if◌then◌else◌, ==_iff, Bool-cases, Option-cases,
  is_some, or_else, length, replicate, take, drop, all, any, length-append, length-take_le,
  take_all, All, All-append,
}
use plugshub_common.Text.{Text, codes, text_eq, is_empty, mem}
use plugshub_common.Value.{Value, str, Fields, end, field, get_field}
use plugshub_common.Errors.{Exc, is_exception, other}
use plugshub_common.Exec.{Result, ok, raised, Exec, Result-cases}
use plugshub_common.Messaging.{Consumer, add_seen, event_id_of, conclude, handle}
use plugshub_common.Messaging.System.{counted}
use plugshub_common.Messaging.System.Accounted.{are_distinct}
use plugshub_common.Text.Laws.{text_eq_iff}

-- The deliveries that await the handler, the newest first, and the ids of those that were answered
-- with `True`, the last first.
pub record Deliveries (W : Type 0) : Type 0 where
  pub consumer : Consumer W
  pub waiting : List Fields
  pub handled : List Text

module _ {W : Type 0} (to_text : Value → Text) (repr : Exc → Text)
    (handler : Fields → Exec (Consumer W) (Unit {0})) where
  -- The lookup: whether the handler is called.
  abbrev pub admits : Fields → Consumer W → Bool
  admits event c =
      let event_id = event_id_of to_text event in
      not (not (is_empty event_id) && mem event_id c.seen)

  -- The handler's outcome and what follows it.
  abbrev pub await_and_conclude : Fields → Consumer W → Result Bool × Consumer W
  await_and_conclude event c =
      let (r, c1) = handler event c in conclude repr event (event_id_of to_text event) r c1

  -- With nothing in between, the two are the whole method.
  pub handle-await_and_conclude :
      (event : Fields) (c : Consumer W)
      → handle to_text repr handler event c
        ≡ (if admits event c then await_and_conclude event c else (ok false, c))
  unfolding handle
  handle-await_and_conclude event c = ground arith

  unfoldable pub end_delivery : Fields → List Fields → List Fields → Deliveries W → Deliveries W
  end_delivery event newer older s =
      let (answer, consumer) = await_and_conclude event s.consumer in
      record {
        consumer = consumer;
        waiting = newer ++ older;
        handled = counted answer (event_id_of to_text event) s.handled;
      }

  -- The broker lets a delivery begin while others wait if `may` allows it, and each ends when it
  -- will. A delivery that is skipped changes nothing, and is left out.
  pub data Step (may : Fields → List Fields → Type 0) : Deliveries W → Deliveries W → Type 0 where
    began :
        (s : Deliveries W) (event : Fields)
        → admits event s.consumer ≡ true
        → may event s.waiting
        → Step may s (record s { waiting = event ∷ s.waiting })
    ended :
        (s : Deliveries W) (event : Fields) (newer older : List Fields)
        → s.waiting ≡ newer ++ event ∷ older
        → Step may s (end_delivery event newer older s)

  pub data Reach (may : Fields → List Fields → Type 0) (start : Deliveries W)
      : Deliveries W → Type 0 where
    here : Reach may start start
    next : {s t : Deliveries W} → Reach may start s → Step may s t → Reach may start t

  -- The broker keeps deliveries of one event apart: no other delivery of it waits.
  abbrev pub IsAlone : Fields → List Fields → Type 0
  IsAlone event waiting =
      (is_empty (event_id_of to_text event) ≡ false)
      × All (λ e. event_id_of to_text e ≢ event_id_of to_text event) waiting

  -- The handler leaves the ids seen alone.
  pub record IsApart : Type 0 where
    pub seen : (event : Fields) (c : Consumer W) → (handler event c).1.seen ≡ c.seen

  abbrev pub AreAlone : List Fields → Type 0
  AreAlone [] = Unit
  AreAlone (e ∷ es) = IsAlone e es × AreAlone es

  pub record IsOnce (s : Deliveries W) : Type 0 where
    pub once : are_distinct s.handled ≡ true
    pub remembered : s.consumer.seen ≡ s.handled
    pub alone : AreAlone s.waiting
    pub new : All (λ e. mem (event_id_of to_text e) s.handled ≡ false) s.waiting
