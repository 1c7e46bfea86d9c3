-- ===== src/Messaging/Tests.antt =====
-- The relay and the consumer at concrete outboxes and events.
use plugshub_common.Common.{
  ℕ, ◌+◌, ◌-◌, ◌<◌, String, ◌≡◌, refl, sym, ◌∙◌, subst, ◌⊎◌, true, false, [], ◌∷◌, ◌++◌, append-nil,
  arith, ◌==◌, if◌then◌else◌, length, take, drop,
}
use plugshub_common.Text.{Text, codes, text_eq, mem}
use plugshub_common.Value.{Value, str, Fields, end, field, get_field}
use plugshub_common.Errors.{Exc, other}
use plugshub_common.Exec.{ok, raised, Exec}
use plugshub_common.Messaging.{
  OutboxRecord, Outbox, unpublished, list_unpublished, mark_published, Relaying, relay_batch,
  relay_once, Consumer, event_id_of, handle,
}
use plugshub_common.Messaging.Relay.{
  is_distinct, has_id, Appends, Logs, envelopes, relay_once_progress,
}
use plugshub_common.Common.{List}
use plugshub_common.Messaging.Drain.{IsQuiet, passes, passes_drain}
use plugshub_common.Messaging.Consume.{Remembers}

abbrev event : String → Fields
event id = field (codes "event_id") (str (codes id)) end

abbrev pending : String → OutboxRecord
pending id = record { envelope = event id; id = codes id; published = false }

abbrev three : Outbox
three = pending "a" ∷ pending "b" ∷ pending "c" ∷ []

-- A broker that takes so many events and then fails; its world is how many it takes, and those that
-- it has taken.
abbrev Broker : Type 0
Broker = ℕ × List Fields

abbrev taken : Broker → List Fields
taken b = b.1

abbrev publish : Fields → Exec (Relaying Broker) (Unit {0})
publish envelope s =
    if 0 == s.world.0
    then (raised (other 1), s)
    else (ok tt, record s { world = (s.world.0 - 1, s.world.1 ++ (envelope ∷ [])) })

publish-Logs : Logs publish taken
publish-Logs = record { sent = λ e s h. ground (arith, h); failed = λ e s x h. ground (arith, h) }

publish_records : (e : Fields) (s : Relaying Broker) → (publish e s).1.records ≡ s.records
publish_records e s = ground arith

publish-Appends : Appends publish
publish-Appends = record {
  grows = λ e s. ([], publish_records e s ∙ sym (append-nil s.records));
  distinct = λ e s h. subst (λ r. is_distinct r ≡ true) (sym (publish_records e s)) h;
}

abbrev outbox : ℕ → Relaying Broker
outbox n = record { records = three; world = (n, []) }

two_sent : (relay_once publish 100 (outbox 2)).0 ≡ raised (other 1)
unfolding relay_once relay_batch list_unpublished unpublished mark_published text_eq
two_sent = refl

one_left : unpublished (relay_once publish 100 (outbox 2)).1.records ≡ pending "c" ∷ []
unfolding relay_once relay_batch list_unpublished unpublished mark_published text_eq
one_left = refl

relay_once_progress_example :
    (j : ℕ) × (new : Outbox) × (unpublished (relay_once publish 100 (outbox 2)).1.records
      ≡ drop j (unpublished three) ++ new)
    × (taken (relay_once publish 100 (outbox 2)).1.world ≡ envelopes (take j (unpublished three)))
    × ((((relay_once publish 100 (outbox 2)).0 ≡ ok j)
          × (j ≡ length (take 100 (unpublished three))))
        ⊎ ((e : Exc) × ((relay_once publish 100 (outbox 2)).0 ≡ raised e)
            × (j < length (take 100 (unpublished three)))))
unfolding is_distinct has_id text_eq
relay_once_progress_example =
    relay_once_progress publish publish-Appends taken publish-Logs 100 (outbox 2) refl

two_taken : taken (relay_once publish 100 (outbox 2)).1.world ≡ event "a" ∷ event "b" ∷ []
unfolding relay_once relay_batch list_unpublished unpublished mark_published text_eq
two_taken = refl

-- A broker that refuses the event it is offered first.
abbrev publish_later : Fields → Exec (Relaying Broker) (Unit {0})
publish_later envelope s =
    if 0 == s.world.0
    then (raised (other 1), record s { world = (1, s.world.1) })
    else (ok tt, record s { world = (s.world.0, s.world.1 ++ (envelope ∷ [])) })

publish_later-Logs : Logs publish_later taken
publish_later-Logs = record {
  sent = λ e s h. ground (arith, h);
  failed = λ e s x h. ground (arith, h);
}

publish_later_records :
    (e : Fields) (s : Relaying Broker) → (publish_later e s).1.records ≡ s.records
publish_later_records e s = ground arith

publish_later-IsQuiet : IsQuiet publish_later
publish_later-IsQuiet = record { at = publish_later_records }

one_failed : (passes publish_later 2 4 (outbox 0)).0 ≡ 1
unfolding passes relay_once relay_batch list_unpublished unpublished mark_published text_eq
one_failed = refl

passes_drain_example :
    (unpublished (passes publish_later 2 4 (outbox 0)).1.records ≡ [])
    × (taken (passes publish_later 2 4 (outbox 0)).1.world ≡ envelopes (unpublished three))
unfolding passes relay_once relay_batch list_unpublished unpublished mark_published is_distinct
    has_id text_eq
passes_drain_example =
    passes_drain publish_later publish_later-IsQuiet taken publish_later-Logs 2 4 (outbox 0)
      (omega arith) refl (omega arith)

abbrev shown : Value → Text
shown (str t) = t
shown _ = codes "None"

abbrev reason : Exc → Text
reason e = codes "boom"

-- A handler that fails on the event "bad"; its world counts its calls.
abbrev handler : Fields → Exec (Consumer ℕ) (Unit {0})
handler e s =
    if text_eq (event_id_of shown e) (codes "bad")
    then (raised (other 2), record s { world = s.world + 1 })
    else (ok tt, record s { world = s.world + 1 })

handler-Remembers : Remembers handler
handler-Remembers = record { at = λ e s i h. ground (arith, h) }

abbrev fresh : Consumer ℕ
fresh = record { seen = []; dead = []; world = 0 }

poisoned :
    (handle shown reason handler (event "bad") fresh).1.dead ≡ (event "bad", codes "boom") ∷ []
unfolding handle event_id_of get_field text_eq mem
poisoned = refl
